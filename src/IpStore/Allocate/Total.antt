-- ===== src/IpStore/Allocate/Total.antt =====
-- When GetAvailableIP ends, and with what.
use amazon_ecs_cni_plugins.Base.{
  ℕ, zero, suc, ◌+◌, ◌≤◌, ◌<◌, ◌≡◌, ◌≢◌, ◌⊎◌, refl, ◌∙◌, ap, subst, arith, inl, inr, Bool-cases,
  ◌==◌, if◌then◌else◌, ==_iff,
}
use amazon_ecs_cni_plugins.Base.{
  Text, Option-cases, none, some, Error, message, out_of_fuel, ok, err,
}
use amazon_ecs_cni_plugins.Net.{Ip, v4, to4}
use amazon_ecs_cni_plugins.Net.Ipv4.{to4-v4, equal-v4}
use amazon_ecs_cni_plugins.Net.Format.{show_ip}
use amazon_ecs_cni_plugins.IpStore.Next.Cycle.{
  IsIpv4Subnet, size4, network4, next_offset, next_ip-cycle, size4-ge-four,
}
use amazon_ecs_cni_plugins.IpStore.Db.{Store, IsLawful, IsHealthy}
use amazon_ecs_cni_plugins.IpStore.Manager.{IpManager}
use amazon_ecs_cni_plugins.IpStore.Manager.Effects.{contents}
use amazon_ecs_cni_plugins.IpStore.Manager.Healthy.{assign-taken, assign-of_free, IsFresh}
use amazon_ecs_cni_plugins.IpStore.Allocate.{available_loop, get_available_ip}
use amazon_ecs_cni_plugins.IpStore.Allocate.Search.{
  next_offset-usable, round-free, round-taken, steps, steps-next, steps-pos, steps-le,
}

abbrev pub full_message : Error
full_message = message "getAvailableIP ipstore: failed to find available ip addresses in the subnet"

==-add : (n a b : ℕ) → (n + a == n + b) ≡ (a == b)
==-add n a b = ground arith

ne_branch {ℓ} : {A : Type ℓ} (a b : ℕ) → a ≢ b → (x y : A) → (if a == b then x else y) ≡ y
ne_branch a b h x y = ground arith

eq_branch {ℓ} : {A : Type ℓ} (a b : ℕ) → a ≡ b → (x y : A) → (if a == b then x else y) ≡ x
eq_branch a b h x y = ground arith

module _ (S : Store) (L : IsLawful S) (H : IsHealthy S) (base : ℕ) (id : Text) (m : IpManager S)
    (v : IsIpv4Subnet m.subnet base) where
  -- The address with an offset, and its entry.
  abbrev pub address_at : ℕ → Ip
  address_at o = v4 (network4 m.subnet base + o)

  abbrev pub IsTaken : ℕ → Type 0
  IsTaken o = contents S L m (show_ip (address_at o)) ≢ none

  taken_round :
      (fuel : ℕ) (last : Ip) (o s : ℕ)
      → to4 last ≡ address_at o
      → o < size4 m.subnet
      → to4 m.last_known_ip ≡ address_at s
      → IsTaken (next_offset (size4 m.subnet) o)
      → available_loop S (suc fuel) id last m ≡ (
          if next_offset (size4 m.subnet) o == s
          then (err full_message, m)
          else available_loop S fuel id (address_at (next_offset (size4 m.subnet) o)) m)
  taken_round fuel last o s e l k t =
      let n = address_at (next_offset (size4 m.subnet) o) in
      round-taken S id last n m (next_ip-cycle m.subnet base v last o e l) fuel
        (assign-taken S L H (show_ip n) id m t)
      ∙ ap (λ b. if b then (err full_message, m) else available_loop S fuel id n m)
          (equal-v4 (network4 m.subnet base + next_offset (size4 m.subnet) o) m.last_known_ip
              (network4 m.subnet base + s) k
            ∙ ==-add (network4 m.subnet base) _ s)

  -- The search reaches a free address before it comes back to its start.
  search_finds :
      (fuel : ℕ) (last : Ip) (o s t : ℕ)
      → to4 last ≡ address_at o
      → o < size4 m.subnet
      → to4 m.last_known_ip ≡ address_at s
      → 1 ≤ t
      → t + 1 < size4 m.subnet
      → contents S L m (show_ip (address_at t)) ≡ none
      → IsFresh S L H id m
      → steps (size4 m.subnet) o t ≤ fuel
      → steps (size4 m.subnet) o t ≤ steps (size4 m.subnet) s t
      → (text : Text) × ((available_loop S fuel id last m).0 ≡ ok text)
  search_finds zero last o s t e l k p q free f enough near =
      absurd (omega (arith, steps-pos (size4 m.subnet) o t p q))
  search_finds (suc fuel) last o s t e l k p q free f enough near =
      let o' = next_offset (size4 m.subnet) o in
      let n = address_at o' in
      let four = size4-ge-four m.subnet base v in
      let step = next_ip-cycle m.subnet base v last o e l in
      elim (Option-cases (contents S L m (show_ip n))) [
        | inl empty ↦ (
          show_ip n,
          ap (λ r. r.0)
              (round-free S id last n m step fuel (assign-of_free S L H (show_ip n) id m empty f)),
        )
        | inr (w, taken) ↦
            let other : o' ≢ t = λ same.
              let there : contents S L m (show_ip (address_at t)) ≡ some w =
                subst (λ a. contents S L m (show_ip (address_at a)) ≡ some w) same taken in
              cc in
            let closer = steps-next (size4 m.subnet) o t four l p q other in
            let away : o' ≢ s = λ same.
              let back : suc (steps (size4 m.subnet) s t) ≡ steps (size4 m.subnet) o t =
                subst (λ a. suc (steps (size4 m.subnet) a t) ≡ steps (size4 m.subnet) o t) same
                  closer in
              absurd (omega arith) in
            let present : IsTaken o' = λ none_there. cc in
            let usable = next_offset-usable (size4 m.subnet) o four in
            let (text, h) =
              search_finds fuel n o' s t (to4-v4 _) (omega (arith, usable.1)) k p q free f
                (omega (arith, closer)) (omega (arith, closer)) in
            (
              text,
              ap (λ r. r.0) (taken_round fuel last o s e l k present ∙ ne_branch o' s away _ _) ∙ h,
            )
      ]

  -- On a lawful store that does not fail and an IPv4 subnet that the configuration lets through,
  -- whose network address does not start with a zero byte, with the search starting inside the
  -- subnet and an id that no key under IPPrefix has: if a usable address of the subnet has no
  -- entry, GetAvailableIP answers within as many rounds as the subnet has addresses.
  pub get_available_ip-finds :
      (s t : ℕ)
      → to4 m.last_known_ip ≡ address_at s
      → s < size4 m.subnet
      → 1 ≤ t
      → t + 1 < size4 m.subnet
      → contents S L m (show_ip (address_at t)) ≡ none
      → IsFresh S L H id m
      → (text : Text) × ((get_available_ip S (size4 m.subnet) id m).0 ≡ ok text)
  unfolding get_available_ip
  get_available_ip-finds s t k l p q free f =
      search_finds (size4 m.subnet) m.last_known_ip s s t k l k p q free f
        (steps-le (size4 m.subnet) s t p q) (omega arith)

  -- All usable addresses have an entry.
  abbrev pub IsFull : Type 0
  IsFull = (t : ℕ) → 1 ≤ t → t + 1 < size4 m.subnet → IsTaken t

  module _ (full : IsFull) where
    full_round : (o : ℕ) → IsTaken (next_offset (size4 m.subnet) o)
    full_round o =
        let usable = next_offset-usable (size4 m.subnet) o (size4-ge-four m.subnet base v) in
        full (next_offset (size4 m.subnet) o) usable.0 usable.1

    search_stops :
        (fuel : ℕ) (last : Ip) (o s : ℕ)
        → to4 last ≡ address_at o
        → o < size4 m.subnet
        → to4 m.last_known_ip ≡ address_at s
        → 1 ≤ s
        → s + 1 < size4 m.subnet
        → steps (size4 m.subnet) o s ≤ fuel
        → available_loop S fuel id last m ≡ (err full_message, m)
    search_stops zero last o s e l k p q enough =
        absurd (omega (arith, steps-pos (size4 m.subnet) o s p q))
    search_stops (suc fuel) last o s e l k p q enough =
        let o' = next_offset (size4 m.subnet) o in
        let four = size4-ge-four m.subnet base v in
        let usable = next_offset-usable (size4 m.subnet) o four in
        let round = taken_round fuel last o s e l k (full_round o) in
        elim (Bool-cases (o' == s)) [
          | inl back ↦ round ∙ eq_branch o' s ((==_iff o' s).0 back) _ _
          | inr more ↦
              let away : o' ≢ s = ground arith in
              let closer = steps-next (size4 m.subnet) o s four l p q away in
              round
              ∙ ne_branch o' s away _ _
              ∙ search_stops fuel (address_at o') o' s (to4-v4 _) (omega (arith, usable.1)) k p q
                  (omega (arith, closer))
        ]

    -- On a lawful store that does not fail and an IPv4 subnet that the configuration lets through,
    -- whose network address does not start with a zero byte, where all usable addresses have an
    -- entry and the search starts at a usable one, GetAvailableIP ends within as many rounds as
    -- the subnet has addresses, with the error that no address is available, and changes nothing.
    pub get_available_ip-full :
        (s : ℕ)
        → to4 m.last_known_ip ≡ address_at s
        → 1 ≤ s
        → s + 1 < size4 m.subnet
        → get_available_ip S (size4 m.subnet) id m ≡ (err full_message, m)
    unfolding get_available_ip
    get_available_ip-full s k p q =
        search_stops (size4 m.subnet) m.last_known_ip s s k (omega arith) k p q
          (steps-le (size4 m.subnet) s s p q)

    search_diverges :
        (fuel : ℕ) (last : Ip) (o s : ℕ)
        → to4 last ≡ address_at o
        → o < size4 m.subnet
        → to4 m.last_known_ip ≡ address_at s
        → (s ≡ 0) ⊎ (s + 1 ≡ size4 m.subnet)
        → available_loop S fuel id last m ≡ (err out_of_fuel, m)
    unfolding available_loop
    search_diverges zero last o s e l k r = refl
    search_diverges (suc fuel) last o s e l k r =
        let o' = next_offset (size4 m.subnet) o in
        let usable = next_offset-usable (size4 m.subnet) o (size4-ge-four m.subnet base v) in
        let away : o' ≢ s = omega (arith, usable) in
        taken_round fuel last o s e l k (full_round o)
        ∙ ne_branch o' s away _ _
        ∙ search_diverges fuel (address_at o') o' s (to4-v4 _) (omega (arith, usable.1)) k r

    -- On a lawful store that does not fail and an IPv4 subnet that the configuration lets through,
    -- whose network address does not start with a zero byte, where all usable addresses have an
    -- entry and the search starts at the first or the last address of the subnet, GetAvailableIP
    -- runs out of any fuel: the loop never ends.
    pub get_available_ip-diverges :
        (fuel s : ℕ)
        → to4 m.last_known_ip ≡ address_at s
        → s < size4 m.subnet
        → (s ≡ 0) ⊎ (s + 1 ≡ size4 m.subnet)
        → get_available_ip S fuel id m ≡ (err out_of_fuel, m)
    unfolding get_available_ip
    get_available_ip-diverges fuel s k l r = search_diverges fuel m.last_known_ip s s k l k r
