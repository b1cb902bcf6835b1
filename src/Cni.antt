-- ===== src/Cni.antt =====
-- The data types of the CNI library (types and types/current) that the plugins build and pass on.
use amazon_ecs_cni_plugins.Base.{ℕ, Text, List}
use amazon_ecs_cni_plugins.Net.{Ip, IpNet}

-- types.Route
pub record Route : Type 0 where
  pub dst : IpNet
  pub gw : Ip

-- current.Interface
pub record Interface : Type 0 where
  pub name : Text
  pub mac : Text

-- current.IPConfig
pub record IpConfig : Type 0 where
  pub version : Text
  pub interface : ℕ
  pub address : IpNet
  pub gateway : Ip

-- current.Result
pub record CniResult : Type 0 where
  pub interfaces : List Interface
  pub ips : List IpConfig
  pub routes : List Route

-- skel.CmdArgs
pub record CmdArgs : Type 0 where
  pub container_id : Text
  pub netns : Text
  pub if_name : Text
  pub stdin_data : Text
