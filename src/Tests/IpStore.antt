-- ===== src/Tests/IpStore.antt =====
-- The theorems on package ipstore at 10.0.0.0/30 and the store in memory.
use amazon_ecs_cni_plugins.Base.{
  ℕ, zero, suc, ◌+◌, ◌≡◌, ◌≢◌, ◌↔◌, refl, inl, arith, ap, Text, text_eq, codes, Option, none, some,
  [], ◌∷◌, out_of_fuel, ok, err, has_prefix, sym,
}
use amazon_ecs_cni_plugins.Net.{v4, v6, to4, contains, mask_ip, equal, successor}
use amazon_ecs_cni_plugins.Net.Format.{show_ip, show_v4, byte_text}
use amazon_ecs_cni_plugins.IpStore.Next.{next_ip, next_ipv6, broadcast_of, skip_reserved}
use amazon_ecs_cni_plugins.IpStore.Next.Cycle.{next_ip-cycle}
use amazon_ecs_cni_plugins.IpStore.Next.Cycle6.{network6, next_ipv6-cycle}
use amazon_ecs_cni_plugins.IpStore.Db.{lookup}
use amazon_ecs_cni_plugins.IpStore.Db.Memory.{memory, memory-IsLawful, memory-IsHealthy, under}
use amazon_ecs_cni_plugins.IpStore.Manager.{assign, put_ip, exists, unique_id, has_value}
use amazon_ecs_cni_plugins.IpStore.Manager.Effects.{contents}
use amazon_ecs_cni_plugins.IpStore.Manager.Healthy.{IsFresh}
use amazon_ecs_cni_plugins.IpStore.Manager.Ids.{assign_iff}
use amazon_ecs_cni_plugins.IpStore.Allocate.{available_loop, get_available_ip, release_by_id}
use amazon_ecs_cni_plugins.IpStore.Allocate.Safety.{IsAllocated, get_available_ip-IsAllocated}
use amazon_ecs_cni_plugins.IpStore.Allocate.Total.{
  full_message, IsFull, get_available_ip-finds, get_available_ip-full, get_available_ip-diverges,
}
use amazon_ecs_cni_plugins.IpStore.Allocate.Release.{release_by_id-other}
use amazon_ecs_cni_plugins.Tests.Fixtures.{
  to4-at, small, small-IsIpv4Subnet, manager, one, two, half, all_taken, half-lookup, small6,
  small6-IsIpv6Subnet,
}

next_ip-cycle_example : next_ip (v4 0x0a000002) small ≡ ok (v4 0x0a000001)
next_ip-cycle_example =
    next_ip-cycle small 0x0a000000 small-IsIpv4Subnet (v4 0x0a000002) 2 (to4-at 0x0a000002)
      (omega arith)

next_ipv6-cycle_example :
    next_ipv6 (v6 (network6 small6 + 3)) small6 ≡ ok (v6 (network6 small6 + 1))
next_ipv6-cycle_example = next_ipv6-cycle small6 small6-IsIpv6Subnet 3 (omega arith)

abbrev head : Text → ℕ
head [] = 0
head (c ∷ cs) = c

pub b_ne_a : codes "b" ≢ codes "a"
b_ne_a e = let h : 98 ≡ 97 = ap head e in omega (arith, h)

pub b-IsFresh :
    IsFresh memory memory-IsLawful memory-IsHealthy (codes "b") (manager (v4 0x0a000001) half)
unfolding memory-IsLawful
b-IsFresh k p h = b_ne_a (half-lookup k (codes "b") h).1

all_taken-IsFull :
    (id : Text) (start : ℕ)
    → IsFull memory memory-IsLawful memory-IsHealthy 0x0a000000 id
        (manager (v4 start) all_taken)
        small-IsIpv4Subnet
unfolding lookup show_ip show_v4 byte_text to4 text_eq memory-IsLawful
all_taken-IsFull id start zero p q = absurd (omega arith)
all_taken-IsFull id start (suc zero) p q = λ h. cc
all_taken-IsFull id start (suc (suc zero)) p q = λ h. cc
all_taken-IsFull id start (suc (suc (suc t))) p q = absurd (omega arith)

two-free :
    contents memory memory-IsLawful (manager (v4 0x0a000001) half) (show_ip (v4 0x0a000002)) ≡ none
unfolding lookup show_ip show_v4 byte_text to4 text_eq memory-IsLawful
two-free = refl

one-other :
    contents memory memory-IsLawful (manager (v4 0x0a000001) all_taken) one ≢ some (codes "b")
unfolding lookup text_eq memory-IsLawful
one-other h = let e : some (codes "a") ≡ some (codes "b") = h in b_ne_a (sym (ap value e))
  where
    value : Option Text → Text
    value none = []
    value (some t) = t

pub answered : (get_available_ip memory 4 (codes "b") (manager (v4 0x0a000001) half)).0 ≡ ok two
unfolding get_available_ip available_loop assign exists unique_id put_ip next_ip show_ip lookup
    text_eq contains broadcast_of mask_ip skip_reserved equal successor under has_prefix has_value
answered = refl

get_available_ip-IsAllocated_example :
    IsAllocated memory memory-IsLawful 0x0a000000
      (codes "b")
      two
      (manager (v4 0x0a000001) half)
      (get_available_ip memory 4 (codes "b") (manager (v4 0x0a000001) half)).1
get_available_ip-IsAllocated_example =
    get_available_ip-IsAllocated memory memory-IsLawful 0x0a000000 (codes "b")
      (manager (v4 0x0a000001) half) small-IsIpv4Subnet 4 1 two (to4-at 0x0a000001) (omega arith)
      answered

get_available_ip-finds_example :
    (text : Text) × ((get_available_ip memory 4 (codes "b") (manager (v4 0x0a000001) half)).0
      ≡ ok text)
get_available_ip-finds_example =
    get_available_ip-finds memory memory-IsLawful memory-IsHealthy 0x0a000000 (codes "b")
      (manager (v4 0x0a000001) half) small-IsIpv4Subnet 1 2 (to4-at 0x0a000001) (omega arith)
      (omega arith) (omega arith) two-free b-IsFresh

get_available_ip-full_example :
    get_available_ip memory 4 (codes "c") (manager (v4 0x0a000001) all_taken)
    ≡ (err full_message, manager (v4 0x0a000001) all_taken)
get_available_ip-full_example =
    get_available_ip-full memory memory-IsLawful memory-IsHealthy 0x0a000000 (codes "c")
      (manager (v4 0x0a000001) all_taken) small-IsIpv4Subnet
      (all_taken-IsFull (codes "c") 0x0a000001) 1 (to4-at 0x0a000001) (omega arith) (omega arith)

get_available_ip-diverges_example :
    get_available_ip memory 1000 (codes "c") (manager (v4 0x0a000000) all_taken)
    ≡ (err out_of_fuel, manager (v4 0x0a000000) all_taken)
get_available_ip-diverges_example =
    get_available_ip-diverges memory memory-IsLawful memory-IsHealthy 0x0a000000 (codes "c")
      (manager (v4 0x0a000000) all_taken) small-IsIpv4Subnet
      (all_taken-IsFull (codes "c") 0x0a000000) 1000 0 (to4-at 0x0a000000) (omega arith) (inl refl)

assign_iff_example : ((assign memory two (codes "b") (manager (v4 0x0a000001) half)).0 ≡ ok tt) ↔ (
    (contents memory memory-IsLawful (manager (v4 0x0a000001) half) two ≡ none)
    × IsFresh memory memory-IsLawful memory-IsHealthy (codes "b") (manager (v4 0x0a000001) half))
unfolding text_eq
assign_iff_example =
    assign_iff memory memory-IsLawful memory-IsHealthy two (codes "b")
      (manager (v4 0x0a000001) half) refl

release_by_id-other_example :
    contents memory memory-IsLawful
      (release_by_id memory (codes "b") (manager (v4 0x0a000001) all_taken)).1
      one
    ≡ contents memory memory-IsLawful (manager (v4 0x0a000001) all_taken) one
release_by_id-other_example =
    release_by_id-other memory memory-IsLawful (codes "b") one (manager (v4 0x0a000001) all_taken)
      one-other
