-- ===== src/IpStore/Allocate/TotalV6.antt =====
-- When GetAvailableIPv6 finds an address.
use amazon_ecs_cni_plugins.Base.{
  ℕ, zero, suc, ◌+◌, ◌≤◌, ◌<◌, ◌≡◌, ◌≢◌, ◌∙◌, ap, subst, arith, inl, inr, Option-cases, ◌==◌,
  if◌then◌else◌,
}
use amazon_ecs_cni_plugins.Base.{Text, none, some, false, ok, err}
use amazon_ecs_cni_plugins.Net.{IpNet}
use amazon_ecs_cni_plugins.Net.Format.{show_ip}
use amazon_ecs_cni_plugins.IpStore.Next.Cycle6.{
  IsIpv6Subnet, size6, network6, next_offset6, next_ipv6-cycle, size6-ge-four,
}
use amazon_ecs_cni_plugins.IpStore.Db.{Store, IsLawful, IsHealthy}
use amazon_ecs_cni_plugins.IpStore.Manager.{IpManager}
use amazon_ecs_cni_plugins.IpStore.Manager.Effects.{contents}
use amazon_ecs_cni_plugins.IpStore.Manager.EffectsV6.{
  assign_ipv6-taken, assign_ipv6-of_free, IsFreshV6,
}
use amazon_ecs_cni_plugins.IpStore.Allocate.{available_loop_v6, get_available_ipv6}
use amazon_ecs_cni_plugins.IpStore.Allocate.SearchV6.{
  full_message_v6, round_v6-free, round_v6-taken, get_available_ipv6-from, steps6, steps6-next,
  steps6-pos, steps6-le, next_offset6-usable,
}
use amazon_ecs_cni_plugins.Net.Ipv6.{equal-v6}
use amazon_ecs_cni_plugins.IpStore.Allocate.SafetyV6.{address_v6_at, key_at}

module _ (S : Store) (L : IsLawful S) (subnet : IpNet) (v : IsIpv6Subnet subnet) (id : Text)
    (m : IpManager S) (H : IsHealthy S) where
  pub taken_round_v6 :
      (fuel s o : ℕ)
      → o < size6 subnet
      → contents S L m (key_at subnet (next_offset6 (size6 subnet) o)) ≢ none
      → available_loop_v6 S (suc fuel) id subnet (address_v6_at subnet s) (address_v6_at subnet o) m
        ≡ (if next_offset6 (size6 subnet) o == s
            then (err full_message_v6, m)
            else available_loop_v6 S fuel id subnet
                (address_v6_at subnet s)
                (address_v6_at subnet (next_offset6 (size6 subnet) o))
                m)
  taken_round_v6 fuel s o l t =
      let n = address_v6_at subnet (next_offset6 (size6 subnet) o) in
      round_v6-taken S id subnet (address_v6_at subnet s) (address_v6_at subnet o) n m
        (next_ipv6-cycle subnet v o l) fuel
        (assign_ipv6-taken S L (key_at subnet (next_offset6 (size6 subnet) o)) id m H t)
      ∙ ap
          (λ b.
            if b
            then (err full_message_v6, m)
            else available_loop_v6 S fuel id subnet (address_v6_at subnet s) n m)
          (equal-v6 (network6 subnet + next_offset6 (size6 subnet) o) (network6 subnet + s)
            ∙ same_offset (network6 subnet) (next_offset6 (size6 subnet) o) s)
    where
      same_offset : (n a b : ℕ) → (n + a == n + b) ≡ (a == b)
      same_offset n a b = ground arith

  -- The search reaches a free address before it comes back to its start.
  search_finds_v6 :
      (fuel s o t : ℕ)
      → o < size6 subnet
      → 1 ≤ t
      → t < size6 subnet
      → contents S L m (key_at subnet t) ≡ none
      → IsFreshV6 S L H id m
      → steps6 (size6 subnet) o t ≤ fuel
      → steps6 (size6 subnet) o t ≤ steps6 (size6 subnet) s t
      → (text : Text) × ((available_loop_v6 S fuel id subnet
            (address_v6_at subnet s)
            (address_v6_at subnet o)
            m).0
          ≡ ok text)
  search_finds_v6 zero s o t l p q free f enough near =
      absurd (omega (arith, steps6-pos (size6 subnet) o t p q))
  search_finds_v6 (suc fuel) s o t l p q free f enough near =
      let o' = next_offset6 (size6 subnet) o in
      let four = size6-ge-four subnet v in
      let usable = next_offset6-usable (size6 subnet) o four in
      elim (Option-cases (contents S L m (key_at subnet o'))) [
        | inl empty ↦ (
          show_ip (address_v6_at subnet o'),
          ap (λ r. r.0)
              (round_v6-free S id subnet (address_v6_at subnet s) (address_v6_at subnet o)
                (address_v6_at subnet o') m (next_ipv6-cycle subnet v o l) fuel
                (assign_ipv6-of_free S L H (key_at subnet o') id m empty f)),
        )
        | inr (w, taken) ↦
            let other : o' ≢ t = λ same.
              let there : contents S L m (key_at subnet t) ≡ some w =
                subst (λ a. contents S L m (key_at subnet a) ≡ some w) same taken in
              cc in
            let closer = steps6-next (size6 subnet) o t four l p q other in
            let away : o' ≢ s = λ same.
              let back : suc (steps6 (size6 subnet) s t) ≡ steps6 (size6 subnet) o t =
                subst (λ a. suc (steps6 (size6 subnet) a t) ≡ steps6 (size6 subnet) o t) same
                  closer in
              absurd (omega arith) in
            let present : contents S L m (key_at subnet o') ≢ none = λ gone. cc in
            let (text, h) =
              search_finds_v6 fuel s o' t usable.1 p q free f (omega (arith, closer))
                (omega (arith, closer)) in
            let on : (o' == s) ≡ false = ground arith in
            let next_round : available_loop_v6 S (suc fuel) id subnet (address_v6_at subnet s)
                  (address_v6_at subnet o) m
                ≡ available_loop_v6 S fuel id subnet (address_v6_at subnet s)
                    (address_v6_at subnet o') m =
              rw on at (taken_round_v6 fuel s o l present) in
            (text, ap (λ r. r.0) next_round ∙ h)
      ]

  -- On a lawful store that does not fail and an IPv6 subnet that the configuration lets through,
  -- whose network address is at least 2 to the 48th, with the search starting inside the subnet
  -- and an id that no key under IPPrefixV6 has: if an address of the subnet other than its first
  -- has no entry, GetAvailableIPv6 answers within as many rounds as the subnet has addresses.
  pub get_available_ipv6-finds :
      (s t : ℕ)
      → m.subnet_v6 ≡ some subnet
      → m.last_known_ipv6 ≡ address_v6_at subnet s
      → s < size6 subnet
      → 1 ≤ t
      → t < size6 subnet
      → contents S L m (key_at subnet t) ≡ none
      → IsFreshV6 S L H id m
      → (text : Text) × ((get_available_ipv6 S (size6 subnet) id m).0 ≡ ok text)
  get_available_ipv6-finds s t e k l p q free f =
      let (text, h) =
        search_finds_v6 (size6 subnet) s s t l p q free f (steps6-le (size6 subnet) s t p q)
          (omega arith) in
      (
        text,
        ap (λ r. r.0)
              (get_available_ipv6-from S (size6 subnet) id m subnet (network6 subnet + s) e k)
            ∙ h,
      )
