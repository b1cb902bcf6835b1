-- ===== src/Ipam/Plugin.antt =====
-- The commands Add and Del of plugins/ipam/commands/commands.go, from the arguments of the plugin to
-- the database, and a sequence of them. The environment, the decoder of JSON, ip.NextIP of the CNI
-- library, the opening of the database (boltdb.New) and types.PrintResult are parameters.
pub mod Runs
pub mod Opened
pub mod Lifecycle
pub mod Searched
pub mod Returned
pub mod Distinct
use amazon_ecs_cni_plugins.Base.{
  ℕ, if◌then◌else◌, Bool, Text, Option, none, some, List, [], ◌∷◌, Result, ok, err,
}
use amazon_ecs_cni_plugins.Base.Exec.{Exec, lift, ◌>>=◌, ◌>>◌}
use amazon_ecs_cni_plugins.Net.{Ip, IpNet}
use amazon_ecs_cni_plugins.IpStore.Db.{Store}
use amazon_ecs_cni_plugins.IpStore.Manager.{IpManager, new_ip_allocator_dual_stack}
use amazon_ecs_cni_plugins.Cni.{CniResult, CmdArgs}
use amazon_ecs_cni_plugins.Ipam.Config.{
  IpamConfig, Conf, DbConfig, has_ipv4, has_ipv6, load_ipam_config, load_db_config,
}
use amazon_ecs_cni_plugins.Ipam.Commands.{validate_del_configuration, add, del}

-- What a run of the plugin takes from outside.
pub record Environment : Type 0 where
  pub unmarshal : Text → Result Conf
  pub next_ip : Ip → Ip
  pub getenv : Text → Text
  pub parse_duration : Text → Result ℕ
  pub open_db : DbConfig → Result (Unit {0})
  pub print_result : CniResult → Text → Result (Unit {0})

abbrev pub configured : Bool → IpNet → Option IpNet
configured b subnet = if b then some subnet else none

module _ (S : Store) where
  -- NewIPAllocatorDualStack, the command over it, and Close.
  unfoldable pub with_manager :
      Environment → IpamConfig → DbConfig → Exec (IpManager S) (Unit {0}) → Exec S.State (Unit {0})
  with_manager env conf db command s = elim (env.open_db db) [
    | err e ↦ (err e, s)
    | ok _ ↦
        let (r, m) = command (
          new_ip_allocator_dual_stack S s (configured (has_ipv4 conf) conf.ipv4_subnet)
            (configured (has_ipv6 conf) conf.ipv6_subnet)) in
        (r, m.client)
  ]

  -- Add
  unfoldable pub run_add : Environment → ℕ → CmdArgs → Exec S.State (Unit {0})
  run_add env fuel args = do
    (conf, cni_version) ← lift (load_ipam_config env.next_ip env.unmarshal args.stdin_data)
    db ← lift (load_db_config env.getenv env.parse_duration)
    with_manager env conf db (add S fuel env.print_result conf cni_version)

  -- Del
  unfoldable pub run_del : Environment → CmdArgs → Exec S.State (Unit {0})
  run_del env args = do
    (conf, cni_version) ← lift (load_ipam_config env.next_ip env.unmarshal args.stdin_data)
    lift (validate_del_configuration conf)
    db ← lift (load_db_config env.getenv env.parse_duration)
    with_manager env conf db (del S conf)
