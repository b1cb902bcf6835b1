-- ===== src/Bridge/Engine/Ends.antt =====
-- The two ends of the veth pair, as the bridge plugin gets them from the host.
use amazon_ecs_cni_plugins.Base.{ℕ, ◌≡◌, subst, refl, Text, ok}
use amazon_ecs_cni_plugins.Cni.{Interface}
use amazon_ecs_cni_plugins.Host.{
  Host, Link, History, call, ask, with_net_ns_path, enter_ns, link_by_name, setup_veth,
}
use amazon_ecs_cni_plugins.Host.Ensures.{
  Ensures, Ensures-then, Ensures-any, Ensures-note, Ensures-ask,
}
use amazon_ecs_cni_plugins.Bridge.Engine.{create_veth_pair, attach_host_veth_interface_to_bridge}

module _ (host : Host) where
  -- The ends of a veth pair that the host has made, the host's first.
  abbrev pub ArePaired : Text → ℕ → Link → Link → Type 0
  ArePaired if_name mtu host_end container_end =
      (h : History) × (host.ends h if_name mtu ≡ ok (host_end, container_end))

  -- The container's interface and the name of the host's end, as CreateVethPair gives them.
  abbrev pub AreEnds : Text → ℕ → Interface × Text → Type 0
  AreEnds if_name mtu (container_veth, name) =
      (host_end : Link) × (container_end : Link) × ArePaired if_name mtu host_end container_end
      × (container_veth ≡ record { name = container_end.name; mac = container_end.hardware_addr })
      × (name ≡ host_end.name)

  pub create_veth_pair-AreEnds :
      (netns : Text) (mtu : ℕ) (if_name : Text)
      → Ensures (AreEnds if_name mtu) (create_veth_pair host netns mtu if_name)
  unfolding create_veth_pair with_net_ns_path
  create_veth_pair-AreEnds netns mtu if_name =
      Ensures-any (AreEnds if_name mtu) (call host (enter_ns netns)) _ λ _.
        Ensures-then (λ (p : Link × Link). (h : History) × (host.ends h if_name mtu ≡ ok p))
          (AreEnds if_name mtu) _ _
          (Ensures-note (λ (p : Link × Link). (h : History) × (host.ends h if_name mtu ≡ ok p))
            "bridge create veth pair: unable to setup veth pair for interface: %s"
            (ask (setup_veth if_name mtu) (λ h. host.ends h if_name mtu))
            (Ensures-ask (setup_veth if_name mtu) (λ h. host.ends h if_name mtu)))
          λ (host_end, container_end) paired. record {
            ensured = λ h a e.
                subst (AreEnds if_name mtu) (same_value e)
                  (host_end, container_end, paired, refl, refl);
          }
    where
      same_value : {A : Type 0} {a b : A} → ok a ≡ ok b → a ≡ b
      same_value e = cc

  -- The host's end as AttachHostVethInterfaceToBridge gives it.
  abbrev pub IsAttached : Text → Interface → Type 0
  IsAttached name i =
      (l : Link) × ((h : History) × (host.link_of h name ≡ ok l))
      × (i ≡ record { name = name; mac = l.hardware_addr })

  pub attach-IsAttached :
      (name : Text) (bridge : Link)
      → Ensures (IsAttached name) (attach_host_veth_interface_to_bridge host name bridge)
  unfolding attach_host_veth_interface_to_bridge
  attach-IsAttached name bridge =
      Ensures-then (λ l. (h : History) × (host.link_of h name ≡ ok l)) (IsAttached name) _ _
        (Ensures-note (λ l. (h : History) × (host.link_of h name ≡ ok l))
          "bridge create veth pair: unable to look up host veth interface %s"
          (ask (link_by_name name) (λ h. host.link_of h name))
          (Ensures-ask (link_by_name name) (λ h. host.link_of h name)))
        λ (l : Link) found.
          Ensures-any (IsAttached name) _ _
            λ _. record { ensured = λ h i e. (l, found, same_value e) }
    where
      same_value : {A : Type 0} {a b : A} → ok a ≡ ok b → b ≡ a
      same_value e = cc
