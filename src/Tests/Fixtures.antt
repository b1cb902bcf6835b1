-- ===== src/Tests/Fixtures.antt =====
-- The subnet 10.0.0.0/30 and managers of it over the store in memory; a host without failures.
use amazon_ecs_cni_plugins.Base.{
  ℕ, ◌*◌, ◌^◌, Text, codes, none, some, List, [], ◌∷◌, true, ok, arith, refl, ◌≡◌, ◌∙◌, sym, inl,
  inr, Bool-cases, text_eq, text_eq_iff,
}
use amazon_ecs_cni_plugins.Net.{Ip, IpNet, v4, v6, nil, nil_mask, to4}
use amazon_ecs_cni_plugins.IpStore.Db.{KvPair, lookup}
use amazon_ecs_cni_plugins.IpStore.Db.Memory.{memory, memory-IsLawful}
use amazon_ecs_cni_plugins.IpStore.Leases.Facts.{HasOneKey}
use amazon_ecs_cni_plugins.IpStore.Manager.{IpManager}
use amazon_ecs_cni_plugins.IpStore.Next.Cycle.{IsIpv4Subnet}
use amazon_ecs_cni_plugins.IpStore.Next.Cycle6.{IsIpv6Subnet}
use amazon_ecs_cni_plugins.Cni.{IpConfig, CniResult}
use amazon_ecs_cni_plugins.Host.{Host, Link, Route, universe_scope, unicast}

pub to4-at : (n : ℕ) → to4 (v4 n) ≡ v4 n
unfolding to4
to4-at n = refl

abbrev pub unnamed : IpNet
unnamed = record { ip = nil; mask = nil_mask }

-- 10.0.0.0/30
abbrev pub small : IpNet
small = record { ip = v4 0x0a000000; mask = record { ones = 30; bits = 32 } }

pub small-IsIpv4Subnet : IsIpv4Subnet small 0x0a000000
unfolding to4
small-IsIpv4Subnet = record {
  address = refl;
  bits = refl;
  few_ones = omega arith;
  range = omega arith;
  first_byte = omega arith;
}

-- fd00::/126
abbrev pub small6 : IpNet
small6 = record { ip = v6 (0xfd00 * 2 ^ 112); mask = record { ones = 126; bits = 128 } }

pub small6-IsIpv6Subnet : IsIpv6Subnet small6
small6-IsIpv6Subnet = record {
  len = refl;
  bits = refl;
  few_ones = omega arith;
  range = omega arith;
  high = omega arith;
}

-- A manager whose search starts at an address of the subnet.
abbrev pub manager : Ip → List KvPair → IpManager memory
manager last kvs = record {
  client = kvs;
  subnet = small;
  subnet_v4 = some small;
  subnet_v6 = none;
  last_known_ip = last;
  last_known_ipv4 = last;
  last_known_ipv6 = nil;
}

abbrev pub one : Text
one = codes "10.0.0.1"

abbrev pub two : Text
two = codes "10.0.0.2"

abbrev pub half : List KvPair
half = (one, codes "a") ∷ []

-- Whoever holds an id among the first pairs.
pub half-lookup : (k w : Text) → lookup k half ≡ some w → (k ≡ one) × (w ≡ codes "a")
unfolding lookup
half-lookup k w h = elim (Bool-cases (text_eq k one)) [
  | inl same ↦ let e : some (codes "a") ≡ some w = rw same at h in ((text_eq_iff k one).0 same, cc)
  | inr other ↦ let e : none ≡ some w = rw other at h in cc
]

pub half-HasOneKey : HasOneKey (memory-IsLawful.at half)
unfolding memory-IsLawful
half-HasOneKey j k id n p q hj hk = (half-lookup j id hj).0 ∙ sym (half-lookup k id hk).0

abbrev pub all_taken : List KvPair
all_taken = (one, codes "a") ∷ (two, codes "b") ∷ []

abbrev pub eth0 : Link
eth0 = record {
  name = codes "eth0";
  index = 2;
  hardware_addr = codes "0a:00:00:00:00:01";
  mtu = 1500;
  is_bridge = true;
}

-- A default route without a gateway, which the clean-up deletes.
abbrev pub default_route : Route
default_route = record {
  link_index = 2;
  dst = none;
  src = nil;
  gw = nil;
  scope = universe_scope;
  type = unicast;
}

abbrev pub config : IpConfig
config = record {
  version = codes "4";
  interface = 2;
  address = record { ip = v4 0x0a000002; mask = record { ones = 30; bits = 32 } };
  gateway = v4 0x0a000001;
}

abbrev pub answer : CniResult
answer = record { interfaces = []; ips = config ∷ []; routes = [] }

abbrev pub host : Host
host = record {
  done = λ h c. ok tt;
  link_of = λ h name. ok eth0;
  links = λ h. ok (eth0 ∷ []);
  addresses = λ h l f. ok [];
  address_of = λ h name. ok small;
  routes = λ h l f. ok (default_route ∷ []);
  added = λ h plugin conf. ok answer;
  ends = λ h name mtu. ok (eth0, eth0);
  random = λ h. ok (1 ∷ 2 ∷ 3 ∷ 4 ∷ 5 ∷ 6 ∷ []);
  metadata = λ h path. ok (codes "10.0.0.2");
}
