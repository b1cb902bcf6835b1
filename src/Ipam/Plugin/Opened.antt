-- ===== src/Ipam/Plugin/Opened.antt =====
-- A run of the IPAM plugin that succeeds, as its command over the database that was opened.
use amazon_ecs_cni_plugins.Base.{ℕ, ◌≡◌, refl, inl, inr, Result-cases, Text, true, ok, err}
use amazon_ecs_cni_plugins.IpStore.Db.{Store}
use amazon_ecs_cni_plugins.IpStore.Manager.{IpManager, new_ip_allocator_dual_stack}
use amazon_ecs_cni_plugins.Cni.{CmdArgs}
use amazon_ecs_cni_plugins.Ipam.Config.{
  IpamConfig, DbConfig, has_ipv4, has_ipv6, load_ipam_config, load_db_config,
}
use amazon_ecs_cni_plugins.Ipam.Commands.{validate_del_configuration, add, del}
use amazon_ecs_cni_plugins.Ipam.Plugin.{Environment, configured, with_manager, run_add, run_del}

module _ (S : Store) where
  -- The manager that a run of the plugin works on.
  abbrev pub opened : IpamConfig → S.State → IpManager S
  opened conf s =
      new_ip_allocator_dual_stack S s (configured (has_ipv4 conf) conf.ipv4_subnet)
        (configured (has_ipv6 conf) conf.ipv6_subnet)

  pub opened-subnet :
      (conf : IpamConfig) (s : S.State)
      → has_ipv4 conf ≡ true
      → (opened conf s).subnet ≡ conf.ipv4_subnet
  unfolding new_ip_allocator_dual_stack
  opened-subnet conf s four = rw four refl

  -- A run that succeeds is the command over the database that was opened.
  module _ (env : Environment) (args : CmdArgs) (conf : IpamConfig) (cni_version : Text)
      (q : load_ipam_config env.next_ip env.unmarshal args.stdin_data
        ≡ ok (conf, cni_version)) where
    abbrev pub IsOpened : Type 0
    IsOpened =
        (db : DbConfig) × (load_db_config env.getenv env.parse_duration ≡ ok db)
        × (env.open_db db ≡ ok tt)

    pub run_add-IsOpened :
        (fuel : ℕ) (s : S.State) → (run_add S env fuel args s).0 ≡ ok tt → IsOpened
    unfolding run_add with_manager
    run_add-IsOpened fuel s h = elim (Result-cases (load_db_config env.getenv env.parse_duration)) [
      | inr (e, r) ↦ let bad : err _ ≡ ok tt = rw (q, run_add, r) at h in cc
      | inl (db, r) ↦ elim (Result-cases (env.open_db db)) [
        | inr (e, o) ↦ let bad : err _ ≡ ok tt = rw (q, run_add, r, with_manager, o) at h in cc
        | inl (tt, o) ↦ (db, r, o)
      ]
    ]

    pub run_add-opened :
        (fuel : ℕ) (s : S.State)
        → IsOpened
        → run_add S env fuel args s ≡ (
          (add S fuel env.print_result conf cni_version (opened conf s)).0,
          (add S fuel env.print_result conf cni_version (opened conf s)).1.client,
        )
    unfolding run_add with_manager
    run_add-opened fuel s (db, r, o) = rw (q, run_add, r, with_manager, o) refl

    pub run_del-opened :
        (s : S.State)
        → validate_del_configuration conf ≡ ok tt
        → IsOpened
        → run_del S env args s
          ≡ ((del S conf (opened conf s)).0, (del S conf (opened conf s)).1.client)
    unfolding run_del with_manager
    run_del-opened s v (db, r, o) = rw (q, run_del, v, r, with_manager, o) refl
