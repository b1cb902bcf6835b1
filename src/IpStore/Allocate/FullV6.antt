-- ===== src/IpStore/Allocate/FullV6.antt =====
-- GetAvailableIPv6 in a subnet all of whose addresses are in use.
use amazon_ecs_cni_plugins.Base.{
  ℕ, zero, suc, ◌+◌, ◌≤◌, ◌<◌, ◌≡◌, ◌≢◌, ◌∙◌, refl, arith, inl, inr, Bool-cases, ◌==◌,
  if◌then◌else◌, false,
}
use amazon_ecs_cni_plugins.Base.{Text, none, some, out_of_fuel, err}
use amazon_ecs_cni_plugins.Net.{IpNet}
use amazon_ecs_cni_plugins.IpStore.Next.Cycle6.{
  IsIpv6Subnet, size6, network6, next_offset6, size6-ge-four,
}
use amazon_ecs_cni_plugins.IpStore.Db.{Store, IsLawful, IsHealthy}
use amazon_ecs_cni_plugins.IpStore.Manager.{IpManager}
use amazon_ecs_cni_plugins.IpStore.Manager.Effects.{contents}
use amazon_ecs_cni_plugins.IpStore.Allocate.{available_loop_v6, get_available_ipv6}
use amazon_ecs_cni_plugins.IpStore.Allocate.SearchV6.{
  full_message_v6, get_available_ipv6-from, steps6, steps6-next, steps6-pos, steps6-le,
  next_offset6-usable,
}
use amazon_ecs_cni_plugins.IpStore.Allocate.SafetyV6.{address_v6_at, key_at}
use amazon_ecs_cni_plugins.IpStore.Allocate.TotalV6.{taken_round_v6}

module _ (S : Store) (L : IsLawful S) (subnet : IpNet) (v : IsIpv6Subnet subnet) (id : Text)
    (m : IpManager S) (H : IsHealthy S) where
  -- All addresses but the first have an entry.
  abbrev pub IsFullV6 : Type 0
  IsFullV6 = (t : ℕ) → 1 ≤ t → t < size6 subnet → contents S L m (key_at subnet t) ≢ none

  module _ (full : IsFullV6) where
    full_round_v6 :
        (fuel s o : ℕ)
        → o < size6 subnet
        → available_loop_v6 S
            (suc fuel)
            id
            subnet
            (address_v6_at subnet s)
            (address_v6_at subnet o)
            m
          ≡ (if next_offset6 (size6 subnet) o == s
              then (err full_message_v6, m)
              else available_loop_v6 S fuel id subnet
                  (address_v6_at subnet s)
                  (address_v6_at subnet (next_offset6 (size6 subnet) o))
                  m)
    full_round_v6 fuel s o l =
        let usable = next_offset6-usable (size6 subnet) o (size6-ge-four subnet v) in
        taken_round_v6 S L subnet v id m H fuel s o l
          (full (next_offset6 (size6 subnet) o) usable.0 usable.1)

    search_stops_v6 :
        (fuel s o : ℕ)
        → o < size6 subnet
        → 1 ≤ s
        → s < size6 subnet
        → steps6 (size6 subnet) o s ≤ fuel
        → available_loop_v6 S fuel id subnet (address_v6_at subnet s) (address_v6_at subnet o) m
          ≡ (err full_message_v6, m)
    search_stops_v6 zero s o l p q enough =
        absurd (omega (arith, steps6-pos (size6 subnet) o s p q))
    search_stops_v6 (suc fuel) s o l p q enough =
        let o' = next_offset6 (size6 subnet) o in
        let four = size6-ge-four subnet v in
        let usable = next_offset6-usable (size6 subnet) o four in
        elim (Bool-cases (o' == s)) [
          | inl back ↦ rw back at (full_round_v6 fuel s o l)
          | inr more ↦
              let away : o' ≢ s = ground arith in
              let closer = steps6-next (size6 subnet) o s four l p q away in
              rw more at (full_round_v6 fuel s o l)
              ∙ search_stops_v6 fuel s o' usable.1 p q (omega (arith, closer))
        ]

    -- On a lawful store that does not fail and an IPv6 subnet that the configuration lets through,
    -- whose network address is at least 2 to the 48th, where all addresses but the first have an
    -- entry and the search starts at an address of the subnet other than the first,
    -- GetAvailableIPv6 ends within as many rounds as the subnet has addresses, with the error that
    -- no address is available, and changes nothing.
    pub get_available_ipv6-full :
        (s : ℕ)
        → m.subnet_v6 ≡ some subnet
        → m.last_known_ipv6 ≡ address_v6_at subnet s
        → 1 ≤ s
        → s < size6 subnet
        → get_available_ipv6 S (size6 subnet) id m ≡ (err full_message_v6, m)
    get_available_ipv6-full s e k p q =
        get_available_ipv6-from S (size6 subnet) id m subnet (network6 subnet + s) e k
        ∙ search_stops_v6 (size6 subnet) s s q p q (steps6-le (size6 subnet) s s p q)

    search_diverges_v6 :
        (fuel o : ℕ)
        → o < size6 subnet
        → available_loop_v6 S fuel id subnet (address_v6_at subnet 0) (address_v6_at subnet o) m
          ≡ (err out_of_fuel, m)
    unfolding available_loop_v6
    search_diverges_v6 zero o l = refl
    search_diverges_v6 (suc fuel) o l =
        let o' = next_offset6 (size6 subnet) o in
        let usable = next_offset6-usable (size6 subnet) o (size6-ge-four subnet v) in
        let away : (o' == 0) ≡ false = ground arith in
        rw away at (full_round_v6 fuel 0 o l) ∙ search_diverges_v6 fuel o' usable.1

    -- On a lawful store that does not fail and an IPv6 subnet that the configuration lets through,
    -- whose network address is at least 2 to the 48th, where all addresses but the first have an
    -- entry and the search starts at the first, GetAvailableIPv6 runs out of any fuel: the loop
    -- never ends.
    pub get_available_ipv6-diverges :
        (fuel : ℕ)
        → m.subnet_v6 ≡ some subnet
        → m.last_known_ipv6 ≡ address_v6_at subnet 0
        → get_available_ipv6 S fuel id m ≡ (err out_of_fuel, m)
    get_available_ipv6-diverges fuel e k =
        get_available_ipv6-from S fuel id m subnet (network6 subnet + 0) e k
        ∙ search_diverges_v6 fuel 0 (omega (arith, size6-ge-four subnet v))
