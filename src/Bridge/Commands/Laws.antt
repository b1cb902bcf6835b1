-- ===== src/Bridge/Commands/Laws.antt =====
-- What DEL of the bridge plugin does, with and without IPAM configuration.
use amazon_ecs_cni_plugins.Base.{
  ◌≡◌, ◌↔◌, ◌⊎◌, ◌∙◌, ap, sym, refl, inl, inr, Bool-cases, Result-cases, arith, Text, true, Error,
  text_eq, false, none, some, [], ◌∷◌, panic, Result, ok, err,
}
use amazon_ecs_cni_plugins.Cni.{CmdArgs}
use amazon_ecs_cni_plugins.Host.{
  Host, History, Call, exec_del, enter_ns, del_link_by_name_addr, family_v4, family_v6,
  is_err_link_not_found, with_net_ns_path,
}
use amazon_ecs_cni_plugins.Bridge.Engine.{
  delete_veth, delete_link, delete_link_v6, run_ipam_plugin_del,
}
use amazon_ecs_cni_plugins.Bridge.Types.{NetConf, IpamConfig, new_conf}
use amazon_ecs_cni_plugins.Bridge.Commands.{detail_log_msg, log_info, del_ipam, del}

-- If the configuration names a bridge and has no "ipam", DEL of the bridge plugin panics in its
-- first log message and makes no call.
pub del-no_ipam :
    (host : Host) (unmarshal : Text → Result NetConf) (args : CmdArgs) (conf : NetConf)
    → unmarshal args.stdin_data ≡ ok conf
    → text_eq conf.bridge_name [] ≡ false
    → conf.ipam ≡ none
    → del host unmarshal args [] ≡ (err panic, [])
unfolding del new_conf log_info detail_log_msg
del-no_ipam host unmarshal args conf q b n = ground arith

-- Behind the log messages, DEL runs the IPAM plugin and deletes the veth.
del-delete_veth :
    (host : Host) (unmarshal : Text → Result NetConf) (args : CmdArgs) (conf : NetConf)
    (ipam : IpamConfig) (h : History)
    → unmarshal args.stdin_data ≡ ok conf
    → text_eq conf.bridge_name [] ≡ false
    → conf.ipam ≡ some ipam
    → del host unmarshal args h
      ≡ delete_veth host args.netns args.if_name (exec_del ipam.type args.stdin_data ∷ h)
unfolding del new_conf log_info detail_log_msg del_ipam run_ipam_plugin_del
del-delete_veth host unmarshal args conf ipam h q b n = ground arith

-- The deletion of a link succeeded, or there was no such link.
abbrev pub IsGone : Result (Unit {0}) → Type 0
IsGone r = (r ≡ ok tt) ⊎ ((e : Error) × (r ≡ err e) × (is_err_link_not_found e ≡ true))

module _ (host : Host) (netns if_name : Text) where
  abbrev entered : History → History
  entered h = enter_ns netns ∷ h

  abbrev by_v4 : Call
  by_v4 = del_link_by_name_addr if_name family_v4

  abbrev by_v6 : Call
  by_v6 = del_link_by_name_addr if_name family_v6

  -- The calls of a successful deletion in the network namespace, from one history to another: by
  -- IPv4 address, and by IPv6 address if that fails although there is such a link.
  abbrev pub IsDeletion : History → History → Type 0
  IsDeletion h h' =
      (host.done h (enter_ns netns) ≡ ok tt)
      × ((IsGone (host.done (entered h) by_v4) × (h' ≡ by_v4 ∷ entered h))
          ⊎ ((e : Error) × (host.done (entered h) by_v4 ≡ err e)
              × (is_err_link_not_found e ≡ false)
              × IsGone (host.done (by_v4 ∷ entered h) by_v6)
              × (h' ≡ by_v6 ∷ by_v4 ∷ entered h)))

  abbrev Same : Result (Unit {0}) × History → Result (Unit {0}) × History → Type 0
  Same p q = p ≡ q

  second : {a b : Result (Unit {0})} {h h' : History} → Same (a, h) (b, h') → h' ≡ h
  second e = ap (λ r. r.1) (sym e)

  failed : (x : Error) (h h' : History) → Same (err x, h) (ok tt, h') → ⊥
  failed x h h' e = let bad : err x ≡ ok tt = ap (λ r. r.0) e in cc

  delete_veth-IsDeletion :
      (h h' : History) → delete_veth host netns if_name h ≡ (ok tt, h') → IsDeletion h h'
  unfolding delete_veth with_net_ns_path delete_link delete_link_v6
  delete_veth-IsDeletion h h' e = elim (Result-cases (host.done h (enter_ns netns))) [
    | inr (x, q) ↦ absurd (failed x _ h' (rw (delete_veth, q) at e))
    | inl (tt, q) ↦ elim (Result-cases (host.done (entered h) by_v4)) [
      | inl (tt, r) ↦ (q, inl (inl r, second (rw (delete_veth, q, delete_link, r) at e)))
      | inr (x, r) ↦ elim (Bool-cases (is_err_link_not_found x)) [
        | inl gone ↦
            (q, inl (inr (x, r, gone), second (rw (delete_veth, q, delete_link, r, gone) at e)))
        | inr there ↦ elim (Result-cases (host.done (by_v4 ∷ entered h) by_v6)) [
          | inl (tt, t) ↦ (
            q,
            inr (
              x,
              r,
              there,
              inl t,
              second (rw (delete_veth, q, delete_link, r, there, delete_link_v6, t) at e),
            ),
          )
          | inr (y, t) ↦ elim (Bool-cases (is_err_link_not_found y)) [
            | inl gone ↦ (
              q,
              inr (
                x,
                r,
                there,
                inr (y, t, gone),
                second (rw (delete_veth, q, delete_link, r, there, delete_link_v6, t, gone) at e),
              ),
            )
            | inr other ↦ absurd (
                failed _ _ h'
                  (rw (delete_veth, q, delete_link, r, there, delete_link_v6, t, other) at e))
          ]
        ]
      ]
    ]
  ]

  IsDeletion-delete_veth :
      (h h' : History) → IsDeletion h h' → delete_veth host netns if_name h ≡ (ok tt, h')
  unfolding delete_veth with_net_ns_path delete_link delete_link_v6
  IsDeletion-delete_veth h h' (q, inl (inl r, at)) = rw (delete_veth, q, delete_link, r, at) refl
  IsDeletion-delete_veth h h' (q, inl (inr (x, r, gone), at)) =
      rw (delete_veth, q, delete_link, r, gone, at) refl
  IsDeletion-delete_veth h h' (q, inr (x, r, there, inl t, at)) =
      rw (delete_veth, q, delete_link, r, there, delete_link_v6, t, at) refl
  IsDeletion-delete_veth h h' (q, inr (x, r, there, inr (y, t, gone), at)) =
      rw (delete_veth, q, delete_link, r, there, delete_link_v6, t, gone, at) refl

-- If the configuration names a bridge and has "ipam", DEL of the bridge plugin succeeds with a
-- history of calls exactly if that history is made of one DEL of the configured IPAM plugin with
-- the data of the standard input, whatever its answer, then the entry into the container's network
-- namespace, which succeeds, then the deletion of the container's interface by IPv4 address, and
-- then, only if that fails although there is such a link, its deletion by IPv6 address, of which
-- the last one succeeds or finds no such link.
pub del-with_ipam_iff :
    (host : Host) (unmarshal : Text → Result NetConf) (args : CmdArgs) (conf : NetConf)
    (ipam : IpamConfig) (h h' : History)
    → unmarshal args.stdin_data ≡ ok conf
    → text_eq conf.bridge_name [] ≡ false
    → conf.ipam ≡ some ipam
    → (del host unmarshal args h ≡ (ok tt, h'))
      ↔ IsDeletion host args.netns args.if_name (exec_del ipam.type args.stdin_data ∷ h) h'
del-with_ipam_iff host unmarshal args conf ipam h h' q b n =
    let asked = exec_del ipam.type args.stdin_data ∷ h in
    let same = del-delete_veth host unmarshal args conf ipam h q b n in
    (
      λ e. delete_veth-IsDeletion host args.netns args.if_name asked h' (sym same ∙ e),
      λ d. same ∙ IsDeletion-delete_veth host args.netns args.if_name asked h' d,
    )
