-- ===== src/IpStore/Leases.antt =====
-- The abstract view of the database of package ipstore: which key has which value, and the changes
-- that ADD and DEL may make to it. The keys are the addresses and the two marks of the last known
-- addresses; the values are the ids that hold them.
pub mod Facts
pub mod Rules
pub mod Operations
pub mod Searches
use amazon_ecs_cni_plugins.Base.{
  ◌≡◌, ◌≢◌, if◌then◌else◌, Text, codes, text_eq, has_prefix, Bool, true, false, Option, none, some,
  [],
}
use amazon_ecs_cni_plugins.IpStore.Manager.{ip_prefix}

abbrev pub Leases : Type 0
Leases = Text → Option Text

-- The leases, changed at one key.
abbrev pub updated : Leases → Text → Option Text → Leases
updated f k v j = if text_eq j k then v else f j

-- The keys under which the last known addresses are.
abbrev pub is_mark : Text → Bool
is_mark = has_prefix (codes "lastKnownIP")

-- An id that may be given to a key: under IPPrefix, none but the empty one is given twice.
abbrev pub IsUnused : Leases → Text → Text → Type 0
IsUnused f k id =
    has_prefix ip_prefix k ≡ true
    → text_eq id [] ≡ false
    → (j : Text) → has_prefix ip_prefix j ≡ true
    → f j ≢ some id

-- What ADD may do: give a key that has no value to an unused id, and set a mark.
pub data Leasing (f : Leases) : Leases → Type 0 where
  lease : (k id : Text) → f k ≡ none → IsUnused f k id → Leasing f (updated f k (some id))
  remember : (k v : Text) → is_mark k ≡ true → Leasing f (updated f k (some v))

-- What DEL may do: take the value of a key away, and set a mark.
pub data Freeing (f : Leases) : Leases → Type 0 where
  free : (k : Text) → f k ≢ none → Freeing f (updated f k none)
  recall : (k v : Text) → is_mark k ≡ true → Freeing f (updated f k (some v))

-- A number of steps of a relation.
pub data Steps (R : Leases → Leases → Type 0) (f : Leases) : Leases → Type 0 where
  same : Steps R f f
  more : {g h : Leases} → Steps R f g → R g h → Steps R f h
