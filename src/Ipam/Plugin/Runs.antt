-- ===== src/Ipam/Plugin/Runs.antt =====
-- What runs of the plugin do to the leases in the database.
use amazon_ecs_cni_plugins.Base.{ℕ, ◌≡◌, inl, inr, Result-cases, Text, false, some, List, [], ◌∷◌}
use amazon_ecs_cni_plugins.Base.Exec.{Exec}
use amazon_ecs_cni_plugins.IpStore.Db.{Store, IsLawful}
use amazon_ecs_cni_plugins.IpStore.Manager.{IpManager, new_ip_allocator_dual_stack}
use amazon_ecs_cni_plugins.IpStore.Leases.{Leases, is_mark, Leasing, Freeing, Steps, same}
use amazon_ecs_cni_plugins.IpStore.Leases.Facts.{
  Steps-keep, Leasing-keeps, HasOneKey, Leasing-HasOneKey, Freeing-HasOneKey,
}
use amazon_ecs_cni_plugins.IpStore.Leases.Rules.{Refines}
use amazon_ecs_cni_plugins.Cni.{CmdArgs}
use amazon_ecs_cni_plugins.Ipam.Config.{
  IpamConfig, DbConfig, has_ipv4, has_ipv6, load_ipam_config, load_db_config,
}
use amazon_ecs_cni_plugins.Ipam.Commands.{validate_del_configuration, add, del}
use amazon_ecs_cni_plugins.Ipam.Commands.Refinement.{add-Refines}
use amazon_ecs_cni_plugins.Ipam.Commands.RefinementDel.{del-Refines}
use amazon_ecs_cni_plugins.Ipam.Plugin.{Environment, configured, with_manager, run_add, run_del}

-- A run of the plugin by the container runtime.
pub data Request : Type 0 where
  add_request : Environment → ℕ → CmdArgs → Request
  del_request : Environment → CmdArgs → Request

module _ (S : Store) where
  -- The database after a sequence of runs, each of which may fail.
  unfoldable pub serve : List Request → S.State → S.State
  serve [] s = s
  serve (add_request env fuel args ∷ rest) s = serve rest (run_add S env fuel args s).1
  serve (del_request env args ∷ rest) s = serve rest (run_del S env args s).1

module _ (S : Store) (L : IsLawful S) where
  with_manager-Steps :
      (R : Leases → Leases → Type 0) (env : Environment) (conf : IpamConfig) (db : DbConfig)
      (command : Exec (IpManager S) (Unit {0})) (s : S.State)
      → Refines S L R command
      → Steps R (L.at s) (L.at (with_manager S env conf db command s).1)
  unfolding with_manager new_ip_allocator_dual_stack
  with_manager-Steps R env conf db command s refines = elim (Result-cases (env.open_db db)) [
    | inr (e, q) ↦ rw (q, with_manager) same
    | inl (u, q) ↦
        rw (q, with_manager)
          (refines (
            new_ip_allocator_dual_stack S s (configured (has_ipv4 conf) conf.ipv4_subnet)
              (configured (has_ipv6 conf) conf.ipv6_subnet)))
  ]

  -- On a lawful store, a run of ADD of the IPAM plugin, whether it succeeds or fails, changes the
  -- database only by steps of two kinds: a key that has no value gets an id, which under IPPrefix
  -- is the empty one or no value of another key there, and a mark of a last known address is set.
  pub run_add-Steps :
      (env : Environment) (fuel : ℕ) (args : CmdArgs) (s : S.State)
      → Steps Leasing (L.at s) (L.at (run_add S env fuel args s).1)
  unfolding run_add
  run_add-Steps env fuel args s =
      elim (Result-cases (load_ipam_config env.next_ip env.unmarshal args.stdin_data)) [
        | inr (e, q) ↦ rw (q, run_add) same
        | inl ((conf, cni_version), q) ↦
            elim (Result-cases (load_db_config env.getenv env.parse_duration)) [
              | inr (e, r) ↦ rw (q, run_add, r) same
              | inl (db, r) ↦
                  rw (q, run_add, r)
                    (with_manager-Steps Leasing env conf db
                      (add S fuel env.print_result conf cni_version) s
                      (add-Refines S L fuel conf env.print_result cni_version))
            ]
      ]

  -- On a lawful store, a run of DEL of the IPAM plugin, whether it succeeds or fails, changes the
  -- database only by steps of two kinds: a key that has a value loses it, and a mark of a last
  -- known address is set.
  pub run_del-Steps :
      (env : Environment) (args : CmdArgs) (s : S.State)
      → Steps Freeing (L.at s) (L.at (run_del S env args s).1)
  unfolding run_del
  run_del-Steps env args s =
      elim (Result-cases (load_ipam_config env.next_ip env.unmarshal args.stdin_data)) [
        | inr (e, q) ↦ rw (q, run_del) same
        | inl ((conf, cni_version), q) ↦ elim (Result-cases (validate_del_configuration conf)) [
          | inr (e, v) ↦ rw (q, run_del, v) same
          | inl (u, v) ↦ elim (Result-cases (load_db_config env.getenv env.parse_duration)) [
            | inr (e, r) ↦ rw (q, run_del, v, r) same
            | inl (db, r) ↦
                rw (q, run_del, v, r)
                  (with_manager-Steps Freeing env conf db (del S conf) s (del-Refines S L conf))
          ]
        ]
      ]

  -- On a lawful store, whatever id holds a key that is not a mark of a last known address holds it
  -- after a run of ADD of the IPAM plugin too, whether the run succeeds or fails.
  pub run_add-keeps :
      (env : Environment) (fuel : ℕ) (args : CmdArgs) (s : S.State) (key id : Text)
      → is_mark key ≡ false
      → L.at s key ≡ some id
      → L.at (run_add S env fuel args s).1 key ≡ some id
  run_add-keeps env fuel args s key id n held =
      Steps-keep (λ f. f key ≡ some id) (Leasing-keeps key id n) (run_add-Steps env fuel args s)
        held

  -- On a lawful store, if under IPPrefix no id but the empty one is the value of two keys, then
  -- the same holds after any sequence of runs of ADD and DEL of the IPAM plugin, of which each may
  -- have an environment, a configuration and a fuel of its own, and may fail.
  pub serve-HasOneKey :
      (requests : List Request) (s : S.State)
      → HasOneKey (L.at s)
      → HasOneKey (L.at (serve S requests s))
  unfolding serve
  serve-HasOneKey [] s one = one
  serve-HasOneKey (add_request env fuel args ∷ rest) s one =
      serve-HasOneKey rest (run_add S env fuel args s).1
        (Steps-keep HasOneKey Leasing-HasOneKey (run_add-Steps env fuel args s) one)
  serve-HasOneKey (del_request env args ∷ rest) s one =
      serve-HasOneKey rest (run_del S env args s).1
        (Steps-keep HasOneKey Freeing-HasOneKey (run_del-Steps env args s) one)
