-- ===== src/IpStore/Allocate/Roundtrip.antt =====
-- ReleaseByID after GetAvailableIP.
use amazon_ecs_cni_plugins.Base.{
  ℕ, ◌+◌, ◌<◌, ◌≡◌, ◌∙◌, sym, ap, Text, true, false, has_prefix, some, [], ok, err,
}
use amazon_ecs_cni_plugins.Net.{v4, to4}
use amazon_ecs_cni_plugins.IpStore.Db.{Store, IsLawful, IsHealthy}
use amazon_ecs_cni_plugins.IpStore.Manager.{IpManager, ip_prefix, ip_prefix_v6}
use amazon_ecs_cni_plugins.IpStore.Manager.Effects.{contents, release-ok}
use amazon_ecs_cni_plugins.IpStore.Manager.Healthy.{IsFresh}
use amazon_ecs_cni_plugins.IpStore.Manager.EffectsV6.{IsFreshV6}
use amazon_ecs_cni_plugins.IpStore.Next.Cycle.{IsIpv4Subnet, size4, network4}
use amazon_ecs_cni_plugins.IpStore.Allocate.{get_available_ip, release_by_id}
use amazon_ecs_cni_plugins.IpStore.Allocate.Safety.{get_available_ip-IsAllocated}
use amazon_ecs_cni_plugins.IpStore.Allocate.Found.{
  none_message, one_family, different, with_key-given, with_key-held, with_key-undone,
  release-of_some, release_by_id-none, release_by_id-only,
}

module _ (S : Store) (L : IsLawful S) (H : IsHealthy S) (base : ℕ) (id : Text) (m : IpManager S)
    (v : IsIpv4Subnet m.subnet base) where
  -- On a lawful store that does not fail and an IPv4 subnet that the configuration lets through,
  -- whose network address does not start with a zero byte, with the search starting inside the
  -- subnet and an id that no key under IPPrefix or IPPrefixV6 has: if GetAvailableIP answers with
  -- a text that starts with IPPrefix, the digit 1, then ReleaseByID of the same id answers with
  -- that text and no IPv6 address, and each key has the value that it had before the two calls.
  pub release_by_id-get_available_ip :
      (fuel o : ℕ) (text : Text)
      → to4 m.last_known_ip ≡ v4 (network4 m.subnet base + o)
      → o < size4 m.subnet
      → (get_available_ip S fuel id m).0 ≡ ok text
      → has_prefix ip_prefix text ≡ true
      → IsFresh S L H id m
      → IsFreshV6 S L H id m
      → ((release_by_id S id (get_available_ip S fuel id m).1).0 ≡ ok (text, []))
        × ((j : Text)
            → contents S L (release_by_id S id (get_available_ip S fuel id m).1).1 j
              ≡ contents S L m j)
  release_by_id-get_available_ip fuel o text e l h p fresh fresh_v6 =
      let m' = (get_available_ip S fuel id m).1 in
      let given = get_available_ip-IsAllocated S L base id m v fuel o text e l h in
      let holds : contents S L m' text ≡ some id =
        with_key-held S L text id (contents S L m) (contents S L m') given.now in
      let only : (j : Text)
          → has_prefix ip_prefix j ≡ true
          → contents S L m' j ≡ some id
          → j ≡ text =
        λ j under at.
          with_key-given S L text id (contents S L m) (contents S L m') given.now j (fresh j under)
            at in
      let none_v6 : IsFreshV6 S L H id m' = λ j under at.
        let same =
          with_key-given S L text id (contents S L m) (contents S L m') given.now j
            (fresh_v6 j under) at in
        let other = one_family text p in
        absurd (different (sym other ∙ ap (has_prefix ip_prefix_v6) (sym same) ∙ under)) in
      let whole = release_by_id-only S L H id text m' holds p only none_v6 in
      (
        ap (λ r. r.0) whole,
        λ j.
            ap (λ r. contents S L r.1 j) whole
            ∙ release-ok S L text j m' (release-of_some S L H text m' (λ gone. cc))
            ∙ with_key-undone S L text id (contents S L m) (contents S L m') given.now
                given.was_free j,
      )

  -- On a lawful store that does not fail and an IPv4 subnet that the configuration lets through,
  -- whose network address does not start with a zero byte, with the search starting inside the
  -- subnet and an id that no key under IPPrefix or IPPrefixV6 has: if GetAvailableIP answers with
  -- a text that starts neither with IPPrefix, the digit 1, nor with IPPrefixV6, the digit 6, then
  -- ReleaseByID of the same id fails with the error that no address has the id, and changes
  -- nothing.
  pub release_by_id-hidden :
      (fuel o : ℕ) (text : Text)
      → to4 m.last_known_ip ≡ v4 (network4 m.subnet base + o)
      → o < size4 m.subnet
      → (get_available_ip S fuel id m).0 ≡ ok text
      → has_prefix ip_prefix text ≡ false
      → has_prefix ip_prefix_v6 text ≡ false
      → IsFresh S L H id m
      → IsFreshV6 S L H id m
      → release_by_id S id (get_available_ip S fuel id m).1
        ≡ (err none_message, (get_available_ip S fuel id m).1)
  release_by_id-hidden fuel o text e l h p p6 fresh fresh_v6 =
      let given = get_available_ip-IsAllocated S L base id m v fuel o text e l h in
      let m' = (get_available_ip S fuel id m).1 in
      release_by_id-none S L H id m'
        (λ j under at.
          let same =
            with_key-given S L text id (contents S L m) (contents S L m') given.now j
              (fresh j under) at in
          different (sym p ∙ ap (has_prefix ip_prefix) (sym same) ∙ under))
        λ j under at.
          let same =
            with_key-given S L text id (contents S L m) (contents S L m') given.now j
              (fresh_v6 j under) at in
          different (sym p6 ∙ ap (has_prefix ip_prefix_v6) (sym same) ∙ under)
