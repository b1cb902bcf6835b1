-- ===== src/Eni/Commands/Outcome.antt =====
-- The result of ADD of the ENI plugin.
use amazon_ecs_cni_plugins.Base.{
  ◌≡◌, ◌⊎◌, inl, inr, refl, ◌∙◌, ap, subst, Bool-cases, Result-cases, Text, codes, text_eq,
  text_eq_iff, true, false, List, [], ◌∷◌, ok, err,
}
use amazon_ecs_cni_plugins.Base.Exec.{pure, lift}
use amazon_ecs_cni_plugins.Net.{Ip, IpNet, is_nil, to4}
use amazon_ecs_cni_plugins.Cni.{CmdArgs, IpConfig, CniResult}
use amazon_ecs_cni_plugins.Host.{Host, Link, History, ask, link_list}
use amazon_ecs_cni_plugins.Host.Ensures.{
  Ensures, Ensures-then, Ensures-any, Ensures-note, Ensures-ask, Ensures-lift,
}
use amazon_ecs_cni_plugins.Eni.Types.{NetConf, Parsers}
use amazon_ecs_cni_plugins.Eni.Metadata.{
  find_link, get_link_by_hardware_address, get_interface_device_name,
}
use amazon_ecs_cni_plugins.Eni.Namespace.{setup_container_namespace}
use amazon_ecs_cni_plugins.Eni.Commands.{config_of, configs_of, add_with}

-- Is the link one of the links?
abbrev pub Among : Link → List Link → Type 0
Among l [] = true ≡ false
Among l (k ∷ ks) = (l ≡ k) ⊎ Among l ks

-- The address with the mask of its network, and its version.
abbrev pub IsAddressOf : Ip × IpNet → IpConfig → Type 0
IsAddressOf (ip, net) c =
    (c.address ≡ record { ip = ip; mask = net.mask })
    × (((is_nil (to4 ip) ≡ false) × (c.version ≡ codes "4"))
        ⊎ ((is_nil (to4 ip) ≡ true) × (c.version ≡ codes "6")))

config_of-IsAddressOf : (p : Ip × IpNet) → IsAddressOf p (config_of p)
unfolding config_of
config_of-IsAddressOf (ip, net) = elim (Bool-cases (is_nil (to4 ip))) [
  | inl six ↦ (refl, inr (six, rw six refl))
  | inr four ↦ (refl, inl (four, rw four refl))
]

-- One IP configuration for each text, in order.
abbrev pub Parsed : Parsers → List Text → List IpConfig → Type 0
Parsed parsers [] [] = Unit
Parsed parsers [] (c ∷ cs) = true ≡ false
Parsed parsers (a ∷ addresses) [] = true ≡ false
Parsed parsers (a ∷ addresses) (c ∷ cs) =
    ((p : Ip × IpNet) × (parsers.parse_cidr a ≡ ok p) × IsAddressOf p c)
    × Parsed parsers addresses cs

-- A link that the host has listed, with the hardware address.
abbrev pub IsDevice : Host → Text → Link → Type 0
IsDevice host hardware_addr l =
    (h : History) × (links : List Link) × (host.links h ≡ ok links)
    × Among l links
    × (l.hardware_addr ≡ hardware_addr)

-- The result names the device with the MAC address of the configuration, and has its addresses.
pub record IsAnswer (host : Host) (parsers : Parsers) (conf : NetConf) (r : CniResult)
    : Type 0 where
  pub hardware_addr : Text
  pub mac : parsers.parse_mac conf.mac_address ≡ ok hardware_addr
  pub device : Link
  pub found : IsDevice host hardware_addr device
  pub interfaces : r.interfaces ≡ record { name = device.name; mac = conf.mac_address } ∷ []
  pub ips : Parsed parsers conf.ip_addresses r.ips

find_link-found :
    (mac : Text) (ls : List Link) (l : Link)
    → find_link mac ls ≡ ok l
    → Among l ls × (l.hardware_addr ≡ mac)
unfolding find_link
find_link-found mac [] l e = cc
find_link-found mac (k ∷ ks) l e = elim (Bool-cases (text_eq k.hardware_addr mac)) [
  | inl same ↦
      let it : ok k ≡ ok l = rw same at e in
      let is : l ≡ k = cc in
      (inl is, ap (λ (x : Link). x.hardware_addr) is ∙ (text_eq_iff k.hardware_addr mac).0 same)
  | inr other ↦ let (among, at) = find_link-found mac ks l (rw other at e) in (inr among, at)
]

configs_of-Parsed :
    (parsers : Parsers) (addresses : List Text) (cs : List IpConfig)
    → configs_of parsers addresses ≡ ok cs
    → Parsed parsers addresses cs
unfolding configs_of
configs_of-Parsed parsers [] [] e = tt
configs_of-Parsed parsers [] (c ∷ cs) e = cc
configs_of-Parsed parsers (a ∷ addresses) cs e = elim (Result-cases (parsers.parse_cidr a)) [
  | inr (x, q) ↦ let bad : err x ≡ ok cs = rw (q, configs_of) at e in cc
  | inl (p, q) ↦ elim (Result-cases (configs_of parsers addresses)) [
    | inr (x, r) ↦ let bad : err x ≡ ok cs = rw (q, configs_of, r) at e in cc
    | inl (ds, r) ↦
        let all : ok (config_of p ∷ ds) ≡ ok cs = rw (q, configs_of, r) at e in
        let same : config_of p ∷ ds ≡ cs = cc in
        subst (Parsed parsers (a ∷ addresses)) same
          ((p, q, config_of-IsAddressOf p), configs_of-Parsed parsers addresses ds r)
  ]
]

module _ (host : Host) (parsers : Parsers) where
  get_link_by_hardware_address-IsDevice :
      (mac : Text) → Ensures (IsDevice host mac) (get_link_by_hardware_address host mac)
  unfolding get_link_by_hardware_address
  get_link_by_hardware_address-IsDevice mac =
      Ensures-then (λ ls. (h : History) × (host.links h ≡ ok ls)) (IsDevice host mac)
        (ask link_list host.links) (λ links. lift (find_link mac links))
        (Ensures-ask link_list host.links)
        λ links (h, listed). record {
          ensured = λ h' l e.
              let (among, at) = find_link-found mac links l e in (h, links, listed, among, at);
        }

  same_text : {s t : Text} → ok s ≡ ok t → t ≡ s
  same_text e = cc

  -- The name that GetInterfaceDeviceName gives.
  abbrev IsNameOf : Text → Text → Type 0
  IsNameOf mac name =
      (hardware_addr : Text) × (parsers.parse_mac mac ≡ ok hardware_addr)
      × ((l : Link) × IsDevice host hardware_addr l × (name ≡ l.name))

  get_interface_device_name-IsNameOf :
      (mac : Text) → Ensures (IsNameOf mac) (get_interface_device_name host parsers mac)
  unfolding get_interface_device_name
  get_interface_device_name-IsNameOf mac =
      Ensures-then (λ a. parsers.parse_mac mac ≡ ok a) (IsNameOf mac) _ _
        (Ensures-note (λ a. parsers.parse_mac mac ≡ ok a)
          "getInterfaceDeviceName engine: malformatted mac address specified"
          (lift (parsers.parse_mac mac)) (Ensures-lift (parsers.parse_mac mac)))
        λ (a : Text) parsed.
          Ensures-then (IsDevice host a) (IsNameOf mac) _ (λ l. pure l.name)
            (Ensures-note (IsDevice host a)
              "getInterfaceDeviceName engine: unable to get device with hardware address '%s'"
              (get_link_by_hardware_address host a) (get_link_by_hardware_address-IsDevice a))
            λ (l : Link) device. record {
              ensured = λ h name e. (a, parsed, (l, device, same_text e));
            }

  add_with-Ensures :
      (args : CmdArgs) (conf : NetConf)
      → Ensures (IsAnswer host parsers conf) (add_with host parsers args conf)
  unfolding add_with
  add_with-Ensures args conf =
      Ensures-then (IsNameOf conf.mac_address) (IsAnswer host parsers conf)
        (get_interface_device_name host parsers conf.mac_address) _
        (get_interface_device_name-IsNameOf conf.mac_address)
        λ (name : Text) (a, parsed, (l, device, same)).
          Ensures-then (λ cs. configs_of parsers conf.ip_addresses ≡ ok cs)
            (IsAnswer host parsers conf) (lift (configs_of parsers conf.ip_addresses)) _
            (Ensures-lift (configs_of parsers conf.ip_addresses))
            λ (cs : List IpConfig) q.
              Ensures-any (IsAnswer host parsers conf)
                (setup_container_namespace host args name conf.mac_address conf.ip_addresses
                  conf.gateway_ip_addresses conf.block_imds conf.stay_down conf.mtu)
                _
                λ _. record {
                  ensured = λ h r e. subst (IsAnswer host parsers conf) (same_result e) (record {
                    hardware_addr = a;
                    mac = parsed;
                    device = l;
                    found = device;
                    interfaces = rw same refl;
                    ips = configs_of-Parsed parsers conf.ip_addresses cs q;
                  });
                }
    where
      same_result : {r s : CniResult} → ok r ≡ ok s → r ≡ s
      same_result e = cc

  -- If ADD of the ENI plugin comes to a result, then the configuration's MAC address parses, the
  -- result's one interface has that MAC address and the name of a link that the host has listed
  -- with it, and the result has one address for each text of the configuration, in order: the
  -- address that net.ParseCIDR gives for the text, with the mask of the network that it gives, and
  -- with version 4 if the address has a form of four bytes and version 6 else.
  pub add_with-IsAnswer :
      (args : CmdArgs) (conf : NetConf) (h : History) (r : CniResult)
      → (add_with host parsers args conf h).0 ≡ ok r
      → IsAnswer host parsers conf r
  add_with-IsAnswer args conf h r e = (add_with-Ensures args conf).ensured h r e
