-- ===== src/IpStore/Allocate/Safety.antt =====
-- What GetAvailableIP returns.
use amazon_ecs_cni_plugins.Base.{
  subst, ℕ, zero, suc, ◌+◌, ◌≤◌, ◌<◌, ◌≡◌, refl, ◌∙◌, sym, ap, arith, inl, inr, Bool-cases,
  Result-cases,
}
use amazon_ecs_cni_plugins.Base.{Text, none, some, is_key_exists, Result, ok, err}
use amazon_ecs_cni_plugins.Net.{Ip, v4, to4, equal}
use amazon_ecs_cni_plugins.Net.Ipv4.{to4-v4}
use amazon_ecs_cni_plugins.Net.Format.{show_ip}
use amazon_ecs_cni_plugins.IpStore.Next.{next_ip}
use amazon_ecs_cni_plugins.IpStore.Next.Cycle.{
  IsIpv4Subnet, size4, network4, next_offset, next_ip-cycle, size4-ge-four,
}
use amazon_ecs_cni_plugins.IpStore.Db.{Store, IsLawful}
use amazon_ecs_cni_plugins.IpStore.Manager.{IpManager, assign}
use amazon_ecs_cni_plugins.IpStore.Manager.Effects.{
  contents, with_key, assign-free, assign-ok, assign-key_exists,
}
use amazon_ecs_cni_plugins.IpStore.Allocate.{available_loop, get_available_ip}
use amazon_ecs_cni_plugins.IpStore.Allocate.Search.{
  next_offset-usable, round-free, round-taken, round-failed, is_key_exists-eq,
}

-- The answer `text` of a search from `m` to `m'`: a usable address of the subnet around `base`,
-- which had no entry, and has the id now; all other entries are as before.
pub record IsAllocated (S : Store) (L : IsLawful S) (base : ℕ) (id text : Text) (m m' : IpManager S)
    : Type 0 where
  pub offset : ℕ
  pub above_network : 1 ≤ offset
  pub below_broadcast : offset + 1 < size4 m.subnet
  pub address : text ≡ show_ip (v4 (network4 m.subnet base + offset))
  pub was_free : contents S L m text ≡ none
  pub now : (j : Text) → contents S L m' j ≡ with_key S L (contents S L m) text (some id) j

some_text : {s t : Text} → ok s ≡ ok t → s ≡ t
some_text h = cc

module _ (S : Store) (L : IsLawful S) (base : ℕ) (id : Text) (m : IpManager S)
    (v : IsIpv4Subnet m.subnet base) where
  -- A result that, if it is an address, was allocated.
  abbrev Sound : Result Text × IpManager S → Type 0
  Sound r = (text : Text) → r.0 ≡ ok text → IsAllocated S L base id text m r.1

  allocated :
      (o : ℕ) (r : IpManager S)
      → let text = show_ip (v4 (network4 m.subnet base + next_offset (size4 m.subnet) o)) in
        (assign S text id m).0 ≡ ok tt
        → r.client ≡ (assign S text id m).1.client
        → IsAllocated S L base id text m r
  allocated o r q c =
      let usable = next_offset-usable (size4 m.subnet) o (size4-ge-four m.subnet base v) in
      let text = show_ip (v4 (network4 m.subnet base + next_offset (size4 m.subnet) o)) in
      record {
        offset = next_offset (size4 m.subnet) o;
        above_network = usable.0;
        below_broadcast = usable.1;
        address = refl;
        was_free = assign-free S L text id m q;
        now = λ j. ap (λ (t : S.State). L.at t j) c ∙ assign-ok S L text id j m q;
      }

  available_loop-Sound :
      (fuel : ℕ) (last : Ip) (o : ℕ)
      → to4 last ≡ v4 (network4 m.subnet base + o)
      → o < size4 m.subnet
      → Sound (available_loop S fuel id last m)
  unfolding available_loop
  available_loop-Sound zero last o e l = λ text h. cc
  available_loop-Sound (suc fuel) last o e l =
      let o' = next_offset (size4 m.subnet) o in
      let n = v4 (network4 m.subnet base + o') in
      let step : next_ip last m.subnet ≡ ok n = next_ip-cycle m.subnet base v last o e l in
      let usable = next_offset-usable (size4 m.subnet) o (size4-ge-four m.subnet base v) in
      let after : IpManager S = record (assign S (show_ip n) id m).1 { last_known_ip = n } in
      elim (Result-cases (assign S (show_ip n) id m).0) [
        | inl (u, q) ↦ subst Sound (sym (round-free S id last n m step fuel q)) λ text h.
            subst (λ t. IsAllocated S L base id t m after) (some_text h) (allocated o after q refl)
        | inr (x, q) ↦ elim (Bool-cases (is_key_exists x)) [
          | inl taken ↦
              let same =
                assign-key_exists S L (show_ip n) id m (q ∙ ap err (is_key_exists-eq x taken)) in
              subst Sound (sym (round-taken S id last n m step fuel same))
                (elim (Bool-cases (equal n m.last_known_ip)) [
                  | inl full ↦ rw full λ text h. cc
                  | inr more ↦
                      rw more (available_loop-Sound fuel n o' (to4-v4 _) (omega (arith, usable.1)))
                ])
          | inr failed ↦
              subst Sound (sym (round-failed S id last n m step fuel x q failed)) λ text h. cc
        ]
      ]

  -- On a lawful store and an IPv4 subnet that the configuration lets through, whose network
  -- address does not start with a zero byte, with the search starting inside the subnet: if
  -- GetAvailableIP answers, then the answer is the text of an address of the subnet that is
  -- neither its first nor its last, that key had no entry before and holds the id after, and no
  -- other key changes.
  pub get_available_ip-IsAllocated :
      (fuel o : ℕ) (text : Text)
      → to4 m.last_known_ip ≡ v4 (network4 m.subnet base + o)
      → o < size4 m.subnet
      → (get_available_ip S fuel id m).0 ≡ ok text
      → IsAllocated S L base id text m (get_available_ip S fuel id m).1
  unfolding get_available_ip
  get_available_ip-IsAllocated fuel o text e l h =
      available_loop-Sound fuel m.last_known_ip o e l text h
