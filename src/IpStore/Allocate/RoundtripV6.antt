-- ===== src/IpStore/Allocate/RoundtripV6.antt =====
-- ReleaseByID after GetAvailableIPv6.
use amazon_ecs_cni_plugins.Base.{
  ℕ, ◌+◌, ◌<◌, ◌≡◌, ◌≢◌, refl, ◌∙◌, sym, ap, arith, inl, inr, Option-cases, Result-cases, Text,
  text_eq, true, false, has_prefix, none, some, [], ok, err,
}
use amazon_ecs_cni_plugins.IpStore.Db.{Store, IsLawful, IsHealthy}
use amazon_ecs_cni_plugins.IpStore.Manager.{IpManager, find_key, ip_prefix_v6}
use amazon_ecs_cni_plugins.IpStore.Manager.Effects.{contents}
use amazon_ecs_cni_plugins.IpStore.Manager.Healthy.{exists-of_some, IsFresh}
use amazon_ecs_cni_plugins.IpStore.Manager.EffectsV6.{IsFreshV6}
use amazon_ecs_cni_plugins.IpStore.Allocate.{release_v6_of, release_by_id}
use amazon_ecs_cni_plugins.IpStore.Allocate.Found.{
  one_family, different, with_key-given, with_key-held, with_key-undone, find_key-lookup,
  find_key_sound, release_v4_of-none,
}
use amazon_ecs_cni_plugins.Base.{◌++◌, has_prefix-append}
use amazon_ecs_cni_plugins.Net.{IpNet, v6}
use amazon_ecs_cni_plugins.IpStore.Manager.{release_ipv6}
use amazon_ecs_cni_plugins.IpStore.Manager.Effects.{release_ipv6-ok}
use amazon_ecs_cni_plugins.IpStore.Next.Cycle6.{IsIpv6Subnet, size6, network6}
use amazon_ecs_cni_plugins.IpStore.Allocate.{get_available_ipv6}
use amazon_ecs_cni_plugins.IpStore.Allocate.SafetyV6.{get_available_ipv6-IsAllocatedV6}

module _ (S : Store) (L : IsLawful S) (H : IsHealthy S) where
  release_ipv6-of_some :
      (k : Text) (m : IpManager S) → contents S L m k ≢ none → (release_ipv6 S k m).0 ≡ ok tt
  unfolding release_ipv6
  release_ipv6-of_some k m h =
      ground (arith, exists-of_some S L H k m h, H.delete_answers m.client k)

  -- ReleaseByID's second half removes the one key under IPPrefixV6 that holds the id.
  release_v6_of-only :
      (id text : Text) (m : IpManager S)
      → contents S L m (ip_prefix_v6 ++ text) ≡ some id
      → ((j : Text)
          → has_prefix ip_prefix_v6 j ≡ true
          → contents S L m j ≡ some id
          → j ≡ ip_prefix_v6 ++ text)
      → release_v6_of S id m ≡ (ok text, (release_ipv6 S (ip_prefix_v6 ++ text) m).1)
  unfolding release_v6_of
  release_v6_of-only id text m h only =
      let k = ip_prefix_v6 ++ text in
      let p = has_prefix-append ip_prefix_v6 text in
      elim (Result-cases (S.list m.client ip_prefix_v6)) [
        | inr (e, q) ↦
            let missing =
              L.list_missing m.client ip_prefix_v6 k
                (q ∙ ap err (H.list_answers m.client ip_prefix_v6 e q)) p in
            cc
        | inl (kvs, q) ↦ elim (Option-cases (find_key id kvs)) [
          | inl f ↦
              absurd
                (find_key-lookup id k kvs (L.list_complete m.client ip_prefix_v6 kvs k id q h p) f)
          | inr (key, f) ↦
              let (holds, under) =
                find_key_sound S L id key ip_prefix_v6 m kvs
                  (L.list_sound m.client ip_prefix_v6 kvs q) f in
              let same : key ≡ k = only key under holds in
              let done = release_ipv6-of_some k m (λ gone. cc) in
              rw (q, release_v6_of, f ∙ ap some same, done) refl
        ]
      ]

  release_by_id-only_v6 :
      (id text : Text) (m : IpManager S)
      → contents S L m (ip_prefix_v6 ++ text) ≡ some id
      → ((j : Text)
          → has_prefix ip_prefix_v6 j ≡ true
          → contents S L m j ≡ some id
          → j ≡ ip_prefix_v6 ++ text)
      → IsFresh S L H id m
      → text_eq text [] ≡ false
      → release_by_id S id m ≡ (ok ([], text), (release_ipv6 S (ip_prefix_v6 ++ text) m).1)
  unfolding release_by_id text_eq
  release_by_id-only_v6 id text m h only fresh n =
      rw
        (release_v4_of-none S L H id m fresh, release_by_id, release_v6_of-only id text m h only, n)
        refl

  -- On a lawful store that does not fail and an IPv6 subnet that the configuration lets through,
  -- whose network address is at least 2 to the 48th, with the search starting inside the subnet
  -- and an id that no key under IPPrefix or IPPrefixV6 has: if GetAvailableIPv6 answers with a
  -- text that is not empty, then ReleaseByID of the same id answers with that text and no IPv4
  -- address, and each key has the value that it had before the two calls.
  pub release_by_id-get_available_ipv6 :
      (subnet : IpNet) (v : IsIpv6Subnet subnet) (id : Text) (m : IpManager S) (fuel s : ℕ)
      (text : Text)
      → m.subnet_v6 ≡ some subnet
      → m.last_known_ipv6 ≡ v6 (network6 subnet + s)
      → s < size6 subnet
      → (get_available_ipv6 S fuel id m).0 ≡ ok text
      → text_eq text [] ≡ false
      → IsFresh S L H id m
      → IsFreshV6 S L H id m
      → ((release_by_id S id (get_available_ipv6 S fuel id m).1).0 ≡ ok ([], text))
        × ((j : Text)
            → contents S L (release_by_id S id (get_available_ipv6 S fuel id m).1).1 j
              ≡ contents S L m j)
  release_by_id-get_available_ipv6 subnet v id m fuel s text e k l h n fresh fresh_v6 =
      let m' = (get_available_ipv6 S fuel id m).1 in
      let key = ip_prefix_v6 ++ text in
      let given = get_available_ipv6-IsAllocatedV6 S L subnet v id m fuel s text e k l h in
      let holds = with_key-held S L key id (contents S L m) (contents S L m') given.now in
      let none_v4 : IsFresh S L H id m' = λ j under at.
        let same =
          with_key-given S L key id (contents S L m) (contents S L m') given.now j (fresh j under)
            at in
        let six = ap (has_prefix ip_prefix_v6) same ∙ has_prefix-append ip_prefix_v6 text in
        different (sym (one_family j under) ∙ six) in
      let only : (j : Text)
          → has_prefix ip_prefix_v6 j ≡ true
          → contents S L m' j ≡ some id
          → j ≡ key =
        λ j under at.
          with_key-given S L key id (contents S L m) (contents S L m') given.now j
            (fresh_v6 j under) at in
      let whole = release_by_id-only_v6 id text m' holds only none_v4 n in
      (
        ap (λ r. r.0) whole,
        λ j.
            ap (λ r. contents S L r.1 j) whole
            ∙ release_ipv6-ok S L key j m' (release_ipv6-of_some key m' (λ gone. cc))
            ∙ with_key-undone S L key id (contents S L m) (contents S L m') given.now given.was_free
                j,
      )
