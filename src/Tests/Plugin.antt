-- ===== src/Tests/Plugin.antt =====
-- The theorems on runs of the IPAM plugin at 10.0.0.0/30 and the store in memory.
use amazon_ecs_cni_plugins.Base.{
  ◌≡◌, refl, codes, text_eq, has_prefix, false, some, List, [], ◌∷◌, ok,
}
use amazon_ecs_cni_plugins.Net.{v4, nil}
use amazon_ecs_cni_plugins.IpStore.Db.{lookup}
use amazon_ecs_cni_plugins.IpStore.Db.Memory.{memory, memory-IsLawful}
use amazon_ecs_cni_plugins.IpStore.Leases.{is_mark, Leasing, Freeing, Steps}
use amazon_ecs_cni_plugins.IpStore.Leases.Facts.{HasOneKey}
use amazon_ecs_cni_plugins.Cni.{CmdArgs}
use amazon_ecs_cni_plugins.Ipam.Config.{IpamConfig}
use amazon_ecs_cni_plugins.Ipam.Plugin.{Environment, run_add, run_del}
use amazon_ecs_cni_plugins.Ipam.Plugin.Runs.{
  Request, add_request, del_request, serve, run_add-Steps, run_del-Steps, run_add-keeps,
  serve-HasOneKey,
}
use amazon_ecs_cni_plugins.Tests.Fixtures.{unnamed, small, one, half, half-HasOneKey}

-- Any address of 10.0.0.0/30 for the container "b".
abbrev pub any_address : IpamConfig
any_address = record {
  type = codes "ecs-ipam";
  ipv4_subnet = small;
  ipv4_address = unnamed;
  ipv4_gateway = v4 0x0a000001;
  ipv4_routes = [];
  ipv6_subnet = unnamed;
  ipv6_address = unnamed;
  ipv6_gateway = nil;
  ipv6_routes = [];
  id = codes "b";
}

abbrev pub environment : Environment
environment = record {
  unmarshal = λ text.
      ok (record { name = codes "net"; cni_version = codes "0.3.0"; ipam = some any_address });
  next_ip = λ ip. ip;
  getenv = λ name. [];
  parse_duration = λ text. ok 1;
  open_db = λ db. ok tt;
  print_result = λ result version. ok tt;
}

abbrev pub args : CmdArgs
args = record {
  container_id = codes "b";
  netns = codes "ns";
  if_name = codes "eth0";
  stdin_data = [];
}

run_add-Steps_example :
    Steps Leasing
      (memory-IsLawful.at half)
      (memory-IsLawful.at (run_add memory environment 4 args half).1)
run_add-Steps_example = run_add-Steps memory memory-IsLawful environment 4 args half

run_del-Steps_example :
    Steps Freeing
      (memory-IsLawful.at half)
      (memory-IsLawful.at (run_del memory environment args half).1)
run_del-Steps_example = run_del-Steps memory memory-IsLawful environment args half

one-unmarked : is_mark one ≡ false
unfolding has_prefix
one-unmarked = refl

one-held : memory-IsLawful.at half one ≡ some (codes "a")
unfolding memory-IsLawful lookup text_eq
one-held = refl

run_add-keeps_example :
    memory-IsLawful.at (run_add memory environment 4 args half).1 one ≡ some (codes "a")
run_add-keeps_example =
    run_add-keeps memory memory-IsLawful environment 4 args half one (codes "a") one-unmarked
      one-held

abbrev requests : List Request
requests = add_request environment 4 args ∷ del_request environment args ∷ []

serve-HasOneKey_example : HasOneKey (memory-IsLawful.at (serve memory requests half))
serve-HasOneKey_example = serve-HasOneKey memory memory-IsLawful requests half half-HasOneKey
