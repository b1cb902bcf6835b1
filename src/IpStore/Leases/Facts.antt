-- ===== src/IpStore/Leases/Facts.antt =====
-- What the changes of the leases keep.
use amazon_ecs_cni_plugins.Base.{
  ◌≡◌, ◌≢◌, ◌⊎◌, inl, inr, ◌∙◌, sym, ap, arith, Bool-cases, Text, text_eq, text_eq_iff, has_prefix,
  true, false, Option, none, some, [], ◌∷◌,
}
use amazon_ecs_cni_plugins.IpStore.Manager.{ip_prefix}
use amazon_ecs_cni_plugins.IpStore.Leases.{
  Leases, updated, is_mark, IsUnused, Leasing, lease, remember, Freeing, free, recall, Steps, same,
  more,
}

pub Steps-trans :
    {R : Leases → Leases → Type 0} {f g h : Leases} → Steps R f g → Steps R g h → Steps R f h
Steps-trans s same = s
Steps-trans s (more t r) = more (Steps-trans s t) r

pub Steps-one : {R : Leases → Leases → Type 0} {f g : Leases} → R f g → Steps R f g
Steps-one r = more same r

-- A property that each step keeps.
pub Steps-keep :
    {R : Leases → Leases → Type 0} {f g : Leases} (P : Leases → Type 0)
    → ((a b : Leases) → R a b → P a → P b)
    → Steps R f g
    → P f
    → P g
Steps-keep P keep same p = p
Steps-keep P keep (more {g = g} {h = h} s r) p = keep g h r (Steps-keep P keep s p)

updated-some :
    (f : Leases) (k j : Text) (v : Option Text) (w : Text)
    → updated f k v j ≡ some w
    → ((j ≡ k) × (v ≡ some w)) ⊎ (f j ≡ some w)
updated-some f k j v w h = ground (arith, text_eq_iff j k)

-- Whatever holds a key keeps it under ADD, unless the key is a mark.
pub Leasing-keeps :
    (j w : Text) → is_mark j ≡ false → (f g : Leases) → Leasing f g → f j ≡ some w → g j ≡ some w
Leasing-keeps j w n f g (lease k id e u) h = elim (Bool-cases (text_eq j k)) [
  | inl at ↦ let gone : f j ≡ none = ap f ((text_eq_iff j k).0 at) ∙ e in cc
  | inr other ↦ rw other h
]
Leasing-keeps j w n f g (remember k v m) h = elim (Bool-cases (text_eq j k)) [
  | inl at ↦ let mark : is_mark j ≡ true = ap is_mark ((text_eq_iff j k).0 at) ∙ m in cc
  | inr other ↦ rw other h
]

-- A key that has no value gets none under DEL, unless it is a mark.
pub Freeing-keeps :
    (j : Text) → is_mark j ≡ false → (f g : Leases) → Freeing f g → f j ≡ none → g j ≡ none
Freeing-keeps j n f g (free k e) h = ground arith
Freeing-keeps j n f g (recall k v m) h = elim (Bool-cases (text_eq j k)) [
  | inl at ↦ let mark : is_mark j ≡ true = ap is_mark ((text_eq_iff j k).0 at) ∙ m in cc
  | inr other ↦ rw other h
]

-- Under IPPrefix no id but the empty one has two keys.
abbrev pub HasOneKey : Leases → Type 0
HasOneKey f =
    (j k id : Text)
    → text_eq id [] ≡ false
    → has_prefix ip_prefix j ≡ true
    → has_prefix ip_prefix k ≡ true
    → f j ≡ some id
    → f k ≡ some id
    → j ≡ k

not_mark : (k : Text) → has_prefix ip_prefix k ≡ true → is_mark k ≡ false
unfolding has_prefix
not_mark [] p = cc
not_mark (c ∷ k) p = ground arith

-- A key under IPPrefix has its value from before a mark was set, and from before a key was freed.
before-mark :
    (f : Leases) (l v j id : Text)
    → is_mark l ≡ true
    → has_prefix ip_prefix j ≡ true
    → updated f l (some v) j ≡ some id
    → f j ≡ some id
before-mark f l v j id m p h = elim (updated-some f l j (some v) id h) [
  | inl (at, e) ↦ let mark : is_mark j ≡ true = ap is_mark at ∙ m in let other = not_mark j p in cc
  | inr old ↦ old
]

before-free : (f : Leases) (l j id : Text) → updated f l none j ≡ some id → f j ≡ some id
before-free f l j id h = ground arith

-- An id that a lease gives out under IPPrefix was held by no key there.
lease-other :
    (f : Leases) (l i j id : Text)
    → IsUnused f l i
    → has_prefix ip_prefix l ≡ true
    → has_prefix ip_prefix j ≡ true
    → text_eq id [] ≡ false
    → some i ≡ some id
    → f j ≢ some id
lease-other f l i j id u pl pj n e h =
    let same_id : i ≡ id = cc in u pl (ap (λ t. text_eq t []) same_id ∙ n) j pj (h ∙ sym e)

pub Leasing-HasOneKey : (f g : Leases) → Leasing f g → HasOneKey f → HasOneKey g
Leasing-HasOneKey f g (lease l i e u) one j k id n p q hj hk =
    elim (updated-some f l j (some i) id hj) [
      | inl (ej, vj) ↦ elim (updated-some f l k (some i) id hk) [
        | inl (ek, vk) ↦ ej ∙ sym ek
        | inr old ↦
            absurd (lease-other f l i k id u (ap (has_prefix ip_prefix) (sym ej) ∙ p) q n vj old)
      ]
      | inr old ↦ elim (updated-some f l k (some i) id hk) [
        | inl (ek, vk) ↦
            absurd (lease-other f l i j id u (ap (has_prefix ip_prefix) (sym ek) ∙ q) p n vk old)
        | inr old' ↦ one j k id n p q old old'
      ]
    ]
Leasing-HasOneKey f g (remember l v m) one j k id n p q hj hk =
    one j k id n p q (before-mark f l v j id m p hj) (before-mark f l v k id m q hk)

pub Freeing-HasOneKey : (f g : Leases) → Freeing f g → HasOneKey f → HasOneKey g
Freeing-HasOneKey f g (free l e) one j k id n p q hj hk =
    one j k id n p q (before-free f l j id hj) (before-free f l k id hk)
Freeing-HasOneKey f g (recall l v m) one j k id n p q hj hk =
    one j k id n p q (before-mark f l v j id m p hj) (before-mark f l v k id m q hk)
