-- ===== src/IpStore/Manager.antt =====
-- IPManager of plugins/ipam/ipstore/ipstore.go. A method takes the manager and returns the new one
-- with its result; `Store.State` is what the database holds.
pub mod Effects
pub mod Healthy
pub mod Ids
pub mod EffectsV6
use amazon_ecs_cni_plugins.Base.{
  ℕ, zero, suc, ◌==◌, if◌then◌else◌, Text, text_eq, codes, Bool, true, false, not, ◌&&◌,
}
use amazon_ecs_cni_plugins.Base.{String, Option, none, some, List, [], ◌∷◌, ◌++◌, length, drop, ltb}
use amazon_ecs_cni_plugins.Base.{
  Error, message, wrap, panic, out_of_fuel, key_exists, is_key_exists, is_key_not_found, Result, ok,
  err,
}
use amazon_ecs_cni_plugins.Base.Exec.{Exec}
use amazon_ecs_cni_plugins.Net.{Ip, IpNet, nil, nil_mask, is_nil, to16, equal, mask_ip}
use amazon_ecs_cni_plugins.Net.Format.{show_ip, parse_ip}
use amazon_ecs_cni_plugins.IpStore.Next.{next_ip, next_ipv6}
use amazon_ecs_cni_plugins.IpStore.Db.{Store, KvPair}

-- IPPrefix, IPPrefixV6 and LastKnownIPv6Key
abbrev pub ip_prefix : Text
ip_prefix = codes "1"

abbrev pub ip_prefix_v6 : Text
ip_prefix_v6 = codes "6"

abbrev pub last_known_ipv6_key : Text
last_known_ipv6_key = codes "lastKnownIPv6"

pub record IpManager (S : Store) : Type 0 where
  pub client : S.State
  pub subnet : IpNet
  pub subnet_v4 : Option IpNet
  pub subnet_v6 : Option IpNet
  pub last_known_ip : Ip
  pub last_known_ipv4 : Ip
  pub last_known_ipv6 : Ip

-- Does the loop over the pairs meet the id?
unfoldable pub has_value : Text → List KvPair → Bool
has_value id [] = false
has_value id ((k, v) ∷ kvs) = if text_eq v id then true else has_value id kvs

-- The first key with the id, where the loop of ReleaseByID breaks.
unfoldable pub find_key : Text → List KvPair → Option Text
find_key id [] = none
find_key id ((k, v) ∷ kvs) = if text_eq v id then some k else find_key id kvs

abbrev pub masked16 : IpNet → Ip
masked16 s = let masked = mask_ip s.ip s.mask in if masked.len == 16 then masked else to16 masked

module _ (S : Store) where
  -- NewIPAllocator, once the database is open.
  unfoldable pub new_ip_allocator : S.State → IpNet → IpManager S
  new_ip_allocator client subnet = record {
    client = client;
    subnet = subnet;
    subnet_v4 = some subnet;
    subnet_v6 = none;
    last_known_ip = mask_ip subnet.ip subnet.mask;
    last_known_ipv4 = mask_ip subnet.ip subnet.mask;
    last_known_ipv6 = nil;
  }

  abbrev first_v4 : Option IpNet → Ip
  first_v4 none = nil
  first_v4 (some s) = mask_ip s.ip s.mask

  abbrev first_v6 : Option IpNet → Ip
  first_v6 none = nil
  first_v6 (some s) = masked16 s

  abbrev subnet_or_zero : Option IpNet → IpNet
  subnet_or_zero none = record { ip = nil; mask = nil_mask }
  subnet_or_zero (some s) = s

  -- NewIPAllocatorDualStack, once the database is open.
  unfoldable pub new_ip_allocator_dual_stack : S.State → Option IpNet → Option IpNet → IpManager S
  new_ip_allocator_dual_stack client v4 v6 = record {
    client = client;
    subnet = subnet_or_zero v4;
    subnet_v4 = v4;
    subnet_v6 = v6;
    last_known_ip = first_v4 v4;
    last_known_ipv4 = first_v4 v4;
    last_known_ipv6 = first_v6 v6;
  }

  unfoldable pub set_last_known_ip : Ip → IpManager S → IpManager S
  set_last_known_ip ip m = record m { last_known_ip = ip }

  unfoldable pub set_last_known_ipv6 : Ip → IpManager S → IpManager S
  set_last_known_ipv6 ip m = record m {
    last_known_ipv6 = if not (is_nil ip) && not (ip.len == 16) then to16 ip else ip;
  }

  -- Exists
  unfoldable pub exists : Text → IpManager S → Result Bool
  exists ip m = elim (S.exists m.client ip) [
    | ok found ↦ ok found
    | err e ↦ if is_key_not_found e then ok false else err e
  ]

  -- Get
  unfoldable pub get : Text → IpManager S → Result Text
  get ip m = elim (S.get m.client ip) [
    | ok v ↦ ok v
    | err e ↦
        if is_key_not_found e then ok [] else err (wrap e "get ipstore: failed to get %v from db")
  ]

  -- Update
  unfoldable pub update : Text → Text → Exec (IpManager S) (Unit {0})
  update key value m =
      let (r, client) = S.put m.client key value in (r, record m { client = client })

  -- UniqueID
  unfoldable pub unique_id : Text → IpManager S → Result Bool
  unique_id id m = elim (S.list m.client ip_prefix) [
    | ok kvs ↦ if has_value id kvs then err (message "ipstore: id already exists") else ok true
    | err e ↦
        if is_key_not_found e
        then ok true
        else err (wrap e "ipstore: failed to list the key-value pairs in db")
  ]

  -- UniqueIDv6
  unfoldable pub unique_id_v6 : Text → IpManager S → Result Bool
  unique_id_v6 id m = elim (S.list m.client ip_prefix_v6) [
    | ok kvs ↦
        if has_value id kvs then err (message "ipstore: id already exists in IPv6") else ok true
    | err e ↦
        if is_key_not_found e
        then ok true
        else err (wrap e "ipstore: failed to list IPv6 key-value pairs in db")
  ]

  unique_in : Text → String → Text → IpManager S → Result Bool
  unique_in prefix note id m = elim (S.list m.client prefix) [
    | ok kvs ↦ if has_value id kvs then err (message "ipstore: id already exists") else ok true
    | err e ↦ if is_key_not_found e then ok true else err (wrap e note)
  ]

  -- UniqueIDDualStack
  unfoldable pub unique_id_dual_stack : Text → IpManager S → Result Bool
  unfolding unique_in
  unique_id_dual_stack id m =
      elim (unique_in ip_prefix "ipstore: failed to list IPv4 key-value pairs in db" id m) [
        | err e ↦ err e
        | ok _ ↦ unique_in ip_prefix_v6 "ipstore: failed to list IPv6 key-value pairs in db" id m
      ]

  -- The end of Assign: the write, and the new last known address.
  unfoldable pub put_ip : Text → Text → Exec (IpManager S) (Unit {0})
  put_ip ip id m =
      let (r, client) = S.put m.client ip id in
      elim r [
        | ok _ ↦ (ok tt, record m { client = client; last_known_ip = parse_ip ip })
        | err e ↦ (
          err (wrap e "assign ipstore: failed to put the key/value into the db: %s -> %s"),
          record m { client = client },
        )
      ]

  -- Assign
  unfoldable pub assign : Text → Text → Exec (IpManager S) (Unit {0})
  assign ip id m = elim (exists ip m) [
    | err e ↦ (err (wrap e "assign ipstore: query the db failed, err: %v"), m)
    | ok true ↦ (err key_exists, m)
    | ok false ↦ if text_eq id [] then put_ip ip id m else elim (unique_id id m) [
      | err e ↦ (err (wrap e "assign ipstore: check id unique failed, id: %s"), m)
      | ok false ↦ (err (message "assign ipstore: id already exists, id: %s"), m)
      | ok true ↦ put_ip ip id m
    ]
  ]

  unfoldable pub put_ipv6 : Text → Text → Exec (IpManager S) (Unit {0})
  put_ipv6 key id m =
      let (r, client) = S.put m.client key id in
      elim r [
        | ok _ ↦ (ok tt, record m { client = client })
        | err e ↦ (
          err (wrap e "assign ipstore: failed to put the key/value into the db: %s -> %s"),
          record m { client = client },
        )
      ]

  -- assignIPv6
  unfoldable pub assign_ipv6 : Text → Text → Exec (IpManager S) (Unit {0})
  assign_ipv6 key id m = elim (exists key m) [
    | err e ↦ (err (wrap e "assign ipstore: query the db failed, err: %v"), m)
    | ok true ↦ (err key_exists, m)
    | ok false ↦ if text_eq id [] then put_ipv6 key id m else elim (unique_id_v6 id m) [
      | err e ↦ (err (wrap e "assign ipstore: check id unique failed, id: %s"), m)
      | ok false ↦ (err (message "assign ipstore: id already exists in IPv6, id: %s"), m)
      | ok true ↦ put_ipv6 key id m
    ]
  ]

  -- Release
  unfoldable pub release : Text → Exec (IpManager S) (Unit {0})
  release ip m = elim (exists ip m) [
    | err e ↦ (err (wrap e "release ipstore: failed to query the db"), m)
    | ok false ↦ (err (message "release ipstore: ip does not existed in the db: %s"), m)
    | ok true ↦
        let (r, client) = S.delete m.client ip in
        elim r [
          | err e ↦ (
            err (wrap e "release ipstore: failed to delete the key in the db"),
            record m { client = client },
          )
          | ok _ ↦ (ok tt, record m { client = client; last_known_ip = parse_ip ip })
        ]
  ]

  -- releaseIPv6; the key has its prefix.
  unfoldable pub release_ipv6 : Text → Exec (IpManager S) (Unit {0})
  release_ipv6 key m = elim (exists key m) [
    | err e ↦ (err (wrap e "release ipstore: failed to query the db for IPv6"), m)
    | ok false ↦ (err (message "release ipstore: IPv6 ip does not exist in the db: %s"), m)
    | ok true ↦
        let (r, client) = S.delete m.client key in
        elim r [
          | err e ↦ (
            err (wrap e "release ipstore: failed to delete the IPv6 key in the db"),
            record m { client = client },
          )
          | ok _ ↦ (
            ok tt,
            record m {
              client = client;
              last_known_ipv6 =
                  if ltb (length ip_prefix_v6) (length key)
                  then parse_ip (drop (length ip_prefix_v6) key)
                  else m.last_known_ipv6;
            },
          )
        ]
  ]
