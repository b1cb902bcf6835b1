-- ===== src/IpStore/Allocate/SafetyV6.antt =====
-- What GetAvailableIPv6 returns.
use amazon_ecs_cni_plugins.Base.{
  ℕ, zero, suc, ◌+◌, ◌≤◌, ◌<◌, ◌≡◌, refl, ◌∙◌, sym, ap, subst, inl, inr, Bool-cases, Result-cases,
}
use amazon_ecs_cni_plugins.Base.{Text, ◌++◌, none, some, is_key_exists, Result, ok, err}
use amazon_ecs_cni_plugins.Net.{Ip, IpNet, v6, equal}
use amazon_ecs_cni_plugins.Net.Format.{show_ip}
use amazon_ecs_cni_plugins.IpStore.Next.{next_ipv6}
use amazon_ecs_cni_plugins.IpStore.Next.Cycle6.{
  IsIpv6Subnet, size6, network6, next_offset6, next_ipv6-cycle, size6-ge-four,
}
use amazon_ecs_cni_plugins.IpStore.Db.{Store, IsLawful}
use amazon_ecs_cni_plugins.IpStore.Manager.{IpManager, assign_ipv6, ip_prefix_v6}
use amazon_ecs_cni_plugins.IpStore.Manager.Effects.{contents, with_key}
use amazon_ecs_cni_plugins.IpStore.Manager.EffectsV6.{
  assign_ipv6-free, assign_ipv6-ok, assign_ipv6-key_exists,
}
use amazon_ecs_cni_plugins.IpStore.Allocate.{available_loop_v6, get_available_ipv6}
use amazon_ecs_cni_plugins.IpStore.Allocate.Search.{is_key_exists-eq}
use amazon_ecs_cni_plugins.IpStore.Allocate.SearchV6.{
  round_v6-free, round_v6-taken, round_v6-failed, get_available_ipv6-from, next_offset6-usable,
}

-- The address with an offset, and the key of its entry.
abbrev pub address_v6_at : IpNet → ℕ → Ip
address_v6_at subnet o = v6 (network6 subnet + o)

abbrev pub key_at : IpNet → ℕ → Text
key_at subnet o = ip_prefix_v6 ++ show_ip (address_v6_at subnet o)

-- The answer `text` of a search from `m` to `m'`: an address of the subnet other than its first,
-- whose key had no entry, and has the id now; all other entries are as before.
pub record IsAllocatedV6 (S : Store) (L : IsLawful S) (subnet : IpNet) (id text : Text)
    (m m' : IpManager S) : Type 0 where
  pub offset : ℕ
  pub above_network : 1 ≤ offset
  pub inside : offset < size6 subnet
  pub address : text ≡ show_ip (v6 (network6 subnet + offset))
  pub was_free : contents S L m (ip_prefix_v6 ++ text) ≡ none
  pub now :
      (j : Text)
      → contents S L m' j ≡ with_key S L (contents S L m) (ip_prefix_v6 ++ text) (some id) j

same_text : {s t : Text} → ok s ≡ ok t → s ≡ t
same_text h = cc

module _ (S : Store) (L : IsLawful S) (subnet : IpNet) (v : IsIpv6Subnet subnet) (id : Text)
    (m : IpManager S) where
  abbrev Sound : Result Text × IpManager S → Type 0
  Sound r = (text : Text) → r.0 ≡ ok text → IsAllocatedV6 S L subnet id text m r.1

  allocated :
      (o : ℕ) (r : IpManager S)
      → let n = next_offset6 (size6 subnet) o in
        (assign_ipv6 S (key_at subnet n) id m).0 ≡ ok tt
        → r.client ≡ (assign_ipv6 S (key_at subnet n) id m).1.client
        → IsAllocatedV6 S L subnet id (show_ip (address_v6_at subnet n)) m r
  allocated o r q c =
      let usable = next_offset6-usable (size6 subnet) o (size6-ge-four subnet v) in
      let key = key_at subnet (next_offset6 (size6 subnet) o) in
      record {
        offset = next_offset6 (size6 subnet) o;
        above_network = usable.0;
        inside = usable.1;
        address = refl;
        was_free = assign_ipv6-free S L key id m q;
        now = λ j. ap (λ (t : S.State). L.at t j) c ∙ assign_ipv6-ok S L key id m j q;
      }

  available_loop_v6-Sound :
      (fuel s o : ℕ)
      → o < size6 subnet
      → Sound
          (available_loop_v6 S fuel id subnet (address_v6_at subnet s) (address_v6_at subnet o) m)
  unfolding available_loop_v6
  available_loop_v6-Sound zero s o l = λ text h. cc
  available_loop_v6-Sound (suc fuel) s o l =
      let o' = next_offset6 (size6 subnet) o in
      let n = address_v6_at subnet o' in
      let start = address_v6_at subnet s in
      let last = address_v6_at subnet o in
      let step : next_ipv6 last subnet ≡ ok n = next_ipv6-cycle subnet v o l in
      let usable = next_offset6-usable (size6 subnet) o (size6-ge-four subnet v) in
      let after : IpManager S = record (assign_ipv6 S (key_at subnet o') id m).1 {
        last_known_ipv6 = n;
      } in
      elim (Result-cases (assign_ipv6 S (key_at subnet o') id m).0) [
        | inl (u, q) ↦
            subst Sound (sym (round_v6-free S id subnet start last n m step fuel q)) λ text h.
              subst (λ t. IsAllocatedV6 S L subnet id t m after) (same_text h)
                (allocated o after q refl)
        | inr (x, q) ↦ elim (Bool-cases (is_key_exists x)) [
          | inl taken ↦
              let refused =
                assign_ipv6-key_exists S L (key_at subnet o') id m
                  (q ∙ ap err (is_key_exists-eq x taken)) in
              subst Sound (sym (round_v6-taken S id subnet start last n m step fuel refused))
                (elim (Bool-cases (equal n start)) [
                  | inl full ↦ rw full λ text h. cc
                  | inr on ↦ rw on (available_loop_v6-Sound fuel s o' usable.1)
                ])
          | inr failed ↦
              subst Sound (sym (round_v6-failed S id subnet start last n m step fuel x q failed))
                λ text h. cc
        ]
      ]

  -- On a lawful store and an IPv6 subnet that the configuration lets through, whose network
  -- address is at least 2 to the 48th, with the search starting inside the subnet: if
  -- GetAvailableIPv6 answers, then the answer is the text of an address of the subnet other than
  -- its first, its key, which is IPPrefixV6 and that text, had no entry before and holds the id
  -- after, and no other key changes.
  pub get_available_ipv6-IsAllocatedV6 :
      (fuel s : ℕ) (text : Text)
      → m.subnet_v6 ≡ some subnet
      → m.last_known_ipv6 ≡ address_v6_at subnet s
      → s < size6 subnet
      → (get_available_ipv6 S fuel id m).0 ≡ ok text
      → IsAllocatedV6 S L subnet id text m (get_available_ipv6 S fuel id m).1
  get_available_ipv6-IsAllocatedV6 fuel s text e q l h =
      subst Sound (sym (get_available_ipv6-from S fuel id m subnet (network6 subnet + s) e q))
        (available_loop_v6-Sound fuel s s l) text h
