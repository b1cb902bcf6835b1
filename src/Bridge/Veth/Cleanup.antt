-- ===== src/Bridge/Veth/Cleanup.antt =====
-- The clean-up of routes: which routes it deletes.
use amazon_ecs_cni_plugins.Base.{ℕ, ◌≡◌, ◌≢◌, ◌⊎◌, refl, ap, arith, inl, inr, Bool-cases}
use amazon_ecs_cni_plugins.Base.{
  Text, text_eq, text_eq_iff, codes, false, not, some, List, [], ◌∷◌, ◌++◌, map, keep, onto, ok,
}
use amazon_ecs_cni_plugins.Net.{Ip, IpNet, is_nil, to4, shortest}
use amazon_ecs_cni_plugins.Net.Format.{show_net, show_ip, byte_text}
use amazon_ecs_cni_plugins.Cni.{IpConfig}
use amazon_ecs_cni_plugins.Host.{Host, Link, Route, History, route_del}
use amazon_ecs_cni_plugins.Bridge.Veth.{
  MaskSizes, deletes, delete_routes, is_default_route, is_connected_subnet_to_delete, gateway_route,
  is_v4_config,
}

module _ (host : Host) (sizes : MaskSizes) where
  -- A clean-up that succeeds has made one RouteDel for each route that it is to delete, in order.
  pub delete_routes-trace :
      (rs : List Route) (h : History)
      → (delete_routes host sizes rs h).0 ≡ ok tt
      → (delete_routes host sizes rs h).1 ≡ onto (map route_del (keep (deletes sizes) rs)) h
  unfolding delete_routes
  delete_routes-trace [] h e = refl
  delete_routes-trace (r ∷ rs) h e =
      ground (arith, delete_routes-trace rs h, delete_routes-trace rs (route_del r ∷ h))

-- The last byte of a text.
abbrev last : Text → ℕ
last [] = 0
last (c ∷ []) = c
last (c ∷ d ∷ s) = last (d ∷ s)

last-append : (s t : Text) (c : ℕ) → last (s ++ (c ∷ t)) ≡ last (c ∷ t)
last-append [] t c = refl
last-append (b ∷ []) t c = refl
last-append (b ∷ d ∷ s) t c = last-append (d ∷ s) t c

text_eq-last : (s t : Text) → last s ≢ last t → text_eq s t ≡ false
text_eq-last s t h = elim (Bool-cases (text_eq s t)) [
  | inl same ↦ absurd (h (ap last ((text_eq_iff s t).0 same)))
  | inr other ↦ other
]

last-tail :
    (s : Text) (ones : ℕ) → (ones ≡ 32) ⊎ (ones ≡ 128) → last (s ++ (b'/' ∷ byte_text ones)) ≢ 48
unfolding byte_text
last-tail s ones (inl e) = rw (e, last-append) (omega arith)
last-tail s ones (inr e) = rw (e, last-append) (omega arith)

-- The text of a network of one address ends in 2, 8 or ">".
last-show_net :
    (ip : Ip) (bits : ℕ)
    → (bits ≡ 32) ⊎ (bits ≡ 128)
    → last (show_net (record { ip = ip; mask = record { ones = bits; bits = bits } })) ≢ 48
unfolding show_net
last-show_net ip bits (inl e) =
    rw e (ground (arith, last-tail (show_ip (shortest ip)) 32 (inl refl)))
last-show_net ip bits (inr e) = rw e (
    ground (
      arith,
      last-tail (show_ip (shortest ip)) 32 (inl refl),
      last-tail (show_ip (shortest ip)) 128 (inr refl),
    ))

one_address :
    (ip : Ip) (bits : ℕ)
    → (bits ≡ 32) ⊎ (bits ≡ 128)
    → is_default_route (some (record { ip = ip; mask = record { ones = bits; bits = bits } }))
      ≡ false
unfolding is_default_route
one_address ip bits h =
    let dst : IpNet = record { ip = ip; mask = record { ones = bits; bits = bits } } in
    let p = text_eq-last (show_net dst) (codes "0.0.0.0/0") (last-show_net ip bits h) in
    let q = text_eq-last (show_net dst) (codes "::/0") (last-show_net ip bits h) in rw (p, q)

-- If an address's gateway is of the family of the address, the clean-up of routes does not delete
-- the gateway's route of that address, whatever the sizes of the connected subnets are.
pub deletes-gateway_route :
    (link : Link) (c : IpConfig) (sizes : MaskSizes)
    → is_nil (to4 c.gateway) ≡ not (is_v4_config c)
    → deletes sizes (gateway_route link c) ≡ false
unfolding deletes gateway_route is_connected_subnet_to_delete
deletes-gateway_route link c sizes h = elim (Bool-cases (is_v4_config c)) [
  | inl four ↦ ground (arith, one_address c.gateway 32 (inl refl))
  | inr six ↦ ground (arith, one_address c.gateway 128 (inr refl))
]
