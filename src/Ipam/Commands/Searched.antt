-- ===== src/Ipam/Commands/Searched.antt =====
-- ADD of the IPAM plugin for a configuration that names no address: the database is searched.
use amazon_ecs_cni_plugins.Base.{
  ℕ, ◌+◌, ◌^◌, ◌≤◌, ◌<◌, ◌≡◌, ◌∙◌, ◌⊎◌, ap, sym, subst, refl, arith, inl, inr, Result-cases, String,
  Text, text_eq, true, false, Option, none, some, Result, ok, err, if◌then◌else◌,
}
use amazon_ecs_cni_plugins.Base.Exec.{annotate-ok}
use amazon_ecs_cni_plugins.Net.{Ip, IpNet, v4, to4, is_nil, mask_ip}
use amazon_ecs_cni_plugins.Net.Ipv4.{to4-v4, to4-mapped, mask_ip-v4}
use amazon_ecs_cni_plugins.Net.Format.{show_ip, parse_ip}
use amazon_ecs_cni_plugins.Net.Format.Roundtrip.{parse_ip-show_ip, show_ip-parse_ip}
use amazon_ecs_cni_plugins.IpStore.Db.{Store, IsLawful, IsHealthy}
use amazon_ecs_cni_plugins.IpStore.Manager.{IpManager, assign, put_ip, set_last_known_ip}
use amazon_ecs_cni_plugins.IpStore.Manager.Effects.{contents, with_key}
use amazon_ecs_cni_plugins.IpStore.Manager.Healthy.{exists-of_some, exists-of_none}
use amazon_ecs_cni_plugins.IpStore.Next.Cycle.{
  IsIpv4Subnet, size4, network4, network4-le, size4-ge-four,
}
use amazon_ecs_cni_plugins.IpStore.Allocate.{get_available_ip}
use amazon_ecs_cni_plugins.IpStore.Allocate.Safety.{get_available_ip-IsAllocated}
use amazon_ecs_cni_plugins.Cni.{CniResult}
use amazon_ecs_cni_plugins.Ipam.Config.{IpamConfig, has_ipv4, has_ipv6}
use amazon_ecs_cni_plugins.Ipam.Commands.{
  last_known_ip_key, update_or_warn, verify_gateway, start_ipv4, get_ipv4_address_from_db,
  get_ipv4_address, add_ipv4, add,
}
use amazon_ecs_cni_plugins.Ipam.Commands.Release.{update_or_warn-contents}
use amazon_ecs_cni_plugins.Ipam.Commands.Assigned.{verify_gateway-ok, with_gateway, given, add-ipv4}
use amazon_ecs_cni_plugins.Ipam.Commands.Remember.{get-of_some}

verify_gateway-subnet :
    (S : Store) (gw : Ip) (m : IpManager S) → (verify_gateway S gw m).1.subnet ≡ m.subnet
unfolding verify_gateway assign put_ip
verify_gateway-subnet S gw m = ground arith

module _ (S : Store) (L : IsLawful S) (H : IsHealthy S) (conf : IpamConfig) (base : ℕ)
    (v : IsIpv4Subnet conf.ipv4_subnet base) where
  -- The text of the address at an offset of the subnet.
  abbrev pub text_at : ℕ → Text
  text_at o = show_ip (v4 (network4 conf.ipv4_subnet base + o))

  -- The last known address is not set, or is one of the subnet.
  abbrev pub IsMarked : Option Text → Type 0
  IsMarked mark =
      (mark ≡ none) ⊎ ((o : ℕ) × (o < size4 conf.ipv4_subnet) × (mark ≡ some (text_at o)))

  in_range : (o : ℕ) → o < size4 conf.ipv4_subnet → network4 conf.ipv4_subnet base + o < 2 ^ 32
  in_range o l = omega (arith, network4-le conf.ipv4_subnet base v)

  to4-parse_ip :
      (o : ℕ)
      → o < size4 conf.ipv4_subnet
      → to4 (parse_ip (text_at o)) ≡ v4 (network4 conf.ipv4_subnet base + o)
  to4-parse_ip o l =
      let n = network4 conf.ipv4_subnet base + o in
      ap to4 (parse_ip-show_ip n (in_range o l)) ∙ to4-mapped n (in_range o l)

  -- Where the search starts.
  start_ipv4-IsMarked :
      (n : IpManager S)
      → IsMarked (contents S L n last_known_ip_key)
      → (start : Ip) × (o : ℕ) × (start_ipv4 S conf n ≡ ok start)
        × (to4 start ≡ v4 (network4 conf.ipv4_subnet base + o))
        × (o < size4 conf.ipv4_subnet)
  unfolding start_ipv4
  start_ipv4-IsMarked n (inl unset) = (
    mask_ip conf.ipv4_subnet.ip conf.ipv4_subnet.mask,
    0,
    rw (exists-of_none S L H last_known_ip_key n unset, start_ipv4) refl,
    rw (mask_ip-v4 conf.ipv4_subnet.ip conf.ipv4_subnet.mask base v.address v.bits)
        (to4-v4 _ ∙ ap v4 (omega arith)),
    omega (arith, size4-ge-four conf.ipv4_subnet base v),
  )
  start_ipv4-IsMarked n (inr (o, l, set)) = (
    parse_ip (text_at o),
    o,
    rw
        (
          exists-of_some S L H last_known_ip_key n (λ gone. cc),
          start_ipv4,
          get-of_some S L H last_known_ip_key (text_at o) n set,
        )
        refl,
    to4-parse_ip o l,
    l,
  )

  -- What a search from `n` found: a usable free address, which `n'` holds for the id.
  record IsFound (text : Text) (n n' : IpManager S) : Type 0 where
    offset : ℕ
    above_network : 1 ≤ offset
    below_broadcast : offset + 1 < size4 conf.ipv4_subnet
    at_offset : text ≡ text_at offset
    was_free : contents S L n text ≡ none
    now : (j : Text) → contents S L n' j ≡ with_key S L (contents S L n) text (some conf.id) j

  module _ (fuel : ℕ) where
    search-IsFound :
        (n : IpManager S) (text : Text)
        → n.subnet ≡ conf.ipv4_subnet
        → IsMarked (contents S L n last_known_ip_key)
        → (get_ipv4_address_from_db S fuel conf n).0 ≡ ok text
        → IsFound text n (get_ipv4_address_from_db S fuel conf n).1
    unfolding get_ipv4_address_from_db set_last_known_ip
    search-IsFound n text same marked h =
        let (start, o, begun, at, l) = start_ipv4-IsMarked n marked in
        let m = set_last_known_ip S start n in
        let note_text : String =
          "getIPV4AddressFromDB commands: failed to get available ip from the db" in
        let done = rw (begun, get_ipv4_address_from_db) at h in
        let (answered, whole) =
          annotate-ok note_text (get_available_ip S fuel conf.id m) text done in
        let w : IsIpv4Subnet m.subnet base = subst (λ s. IsIpv4Subnet s base) (sym same) v in
        let given =
          get_available_ip-IsAllocated S L base conf.id m w fuel o text
            (at ∙ ap (λ s. v4 (network4 s base + o)) (sym same))
            (subst (λ s. o < size4 s) (sym same) l) answered in
        record {
          offset = given.offset;
          above_network = given.above_network;
          below_broadcast = subst (λ s. given.offset + 1 < size4 s) same given.below_broadcast;
          at_offset = given.address ∙ ap (λ s. show_ip (v4 (network4 s base + given.offset))) same;
          was_free = given.was_free;
          now = λ j.
              rw (begun, get_ipv4_address_from_db)
                (ap (λ r. contents S L r.1 j) whole ∙ given.now j);
        }

    -- The search is all that getIPV4Address does; its answer is the text, parsed.
    get_ipv4_address-searches :
        (n : IpManager S) (a : IpNet)
        → is_nil conf.ipv4_address.ip ≡ true
        → (get_ipv4_address S fuel conf n).0 ≡ ok a
        → (text : Text) × ((get_ipv4_address_from_db S fuel conf n).0 ≡ ok text)
          × (get_ipv4_address S fuel conf n ≡ (
            ok (record { ip = parse_ip text; mask = conf.ipv4_subnet.mask }),
            (get_ipv4_address_from_db S fuel conf n).1,
          ))
    unfolding get_ipv4_address
    get_ipv4_address-searches n a unnamed h =
        elim (Result-cases (get_ipv4_address_from_db S fuel conf n).0) [
          | inl (text, q) ↦ (text, q, rw (unnamed, get_ipv4_address, q) refl)
          | inr (e, q) ↦ let bad : err _ ≡ ok a = rw (unnamed, get_ipv4_address, q) at h in cc
        ]

    module _ (m : IpManager S) where
      -- The manager once the gateway is marked, and once an address is taken.
      abbrev marked : IpManager S
      marked = (verify_gateway S conf.ipv4_gateway m).1

      abbrev taken : IpManager S
      taken = (get_ipv4_address_from_db S fuel conf marked).1

      add_ipv4-searches :
          (a : Option IpNet)
          → has_ipv4 conf ≡ true
          → is_nil conf.ipv4_address.ip ≡ true
          → (add_ipv4 S fuel conf m).0 ≡ ok a
          → (text : Text) × ((verify_gateway S conf.ipv4_gateway m).0 ≡ ok tt)
            × ((get_ipv4_address_from_db S fuel conf marked).0 ≡ ok text)
            × ((add_ipv4 S fuel conf m).1
                ≡ update_or_warn S last_known_ip_key (show_ip (parse_ip text)) taken)
      unfolding add_ipv4
      add_ipv4-searches a four unnamed h =
          elim (Result-cases (verify_gateway S conf.ipv4_gateway m).0) [
            | inr (e, q) ↦ let bad : err _ ≡ ok a = rw (four, add_ipv4, q) at h in cc
            | inl (tt, q) ↦ elim (Result-cases (get_ipv4_address S fuel conf marked).0) [
              | inr (e, r) ↦ let bad : err _ ≡ ok a = rw (four, add_ipv4, q, r) at h in cc
              | inl (b, r) ↦
                  let (text, found, whole) = get_ipv4_address-searches marked b unnamed r in
                  (text, q, found, rw (four, add_ipv4, q, whole) refl)
            ]
          ]

      given-text :
          (text at_text j : Text)
          → text ≡ at_text
          → show_ip (parse_ip text) ≡ at_text
          → with_key S L
              (with_key S L (with_gateway S L H fuel conf m) text (some conf.id))
              last_known_ip_key
              (some (show_ip (parse_ip text)))
              j
            ≡ given S L H fuel conf m at_text j
      given-text text at_text j e p = rw (p, e) refl

      -- ADD takes a usable address that is free once the gateway is marked, and gives it to the id.
      pub add-searches :
          (print_result : CniResult → Text → Result (Unit {0})) (cni_version : Text)
          → has_ipv4 conf ≡ true
          → has_ipv6 conf ≡ false
          → is_nil conf.ipv4_address.ip ≡ true
          → text_eq last_known_ip_key (show_ip conf.ipv4_gateway) ≡ false
          → m.subnet ≡ conf.ipv4_subnet
          → IsMarked (contents S L m last_known_ip_key)
          → (add S fuel print_result conf cni_version m).0 ≡ ok tt
          → (o : ℕ) × (1 ≤ o)
            × (o + 1 < size4 conf.ipv4_subnet)
            × (with_gateway S L H fuel conf m (text_at o) ≡ none)
            × ((j : Text)
                → contents S L (add S fuel print_result conf cni_version m).1 j
                  ≡ given S L H fuel conf m (text_at o) j)
      add-searches print_result cni_version four six unnamed other same at_mark h =
          let (a, done, last) = add-ipv4 S L H fuel conf m print_result cni_version six h in
          let (text, checked, found, whole) = add_ipv4-searches a four unnamed done in
          let at_gateway : (j : Text) → contents S L marked j ≡ with_gateway S L H fuel conf m j =
            λ j. verify_gateway-ok S L conf.ipv4_gateway m j checked in
          let still : contents S L marked last_known_ip_key ≡ contents S L m last_known_ip_key =
            at_gateway last_known_ip_key ∙ rw other refl in
          let now_marked = subst IsMarked (sym still) at_mark in
          let f =
            search-IsFound marked text (verify_gateway-subnet S conf.ipv4_gateway m ∙ same)
              now_marked found in
          let printed : show_ip (parse_ip text) ≡ text_at f.offset =
            ap (λ t. show_ip (parse_ip t)) f.at_offset
            ∙ show_ip-parse_ip (network4 conf.ipv4_subnet base + f.offset)
                (in_range f.offset (omega (arith, f.below_broadcast))) in
          (
            f.offset,
            f.above_network,
            f.below_broadcast,
            ap (with_gateway S L H fuel conf m) (sym f.at_offset)
                ∙ sym (at_gateway text)
                ∙ f.was_free,
            λ j.
                ap (λ n. contents S L n j) (last ∙ whole)
                ∙ update_or_warn-contents S L H conf m last_known_ip_key (show_ip (parse_ip text)) j
                    taken
                ∙ ap
                    (λ o. if text_eq j last_known_ip_key then some (show_ip (parse_ip text)) else o)
                    (f.now j ∙ ap (λ o. if text_eq j text then some conf.id else o) (at_gateway j))
                ∙ given-text text (text_at f.offset) j f.at_offset printed,
          )
