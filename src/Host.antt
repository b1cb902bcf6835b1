-- ===== src/Host.antt =====
-- What the plugins call of the host: the interfaces NetLink, NS, IP and IPAM of pkg/netlinkwrapper,
-- pkg/cninswrapper, pkg/cniipwrapper and pkg/cniipamwrapper, and of pkg/ec2metadata. Their code is
-- third-party, so an answer may depend in any way on all the calls made before: the host is a
-- function from the history of calls to answers. A method of an engine extends the history.
pub mod Trace
pub mod Ensures
pub mod IpamCalls
use amazon_ecs_cni_plugins.Base.{
  ℕ, ◌==◌, if◌then◌else◌, Text, codes, is_infix, Bool, true, false, ◌||◌,
}
use amazon_ecs_cni_plugins.Base.{Option, none, some, List, [], ◌∷◌}
use amazon_ecs_cni_plugins.Base.{
  Error, errno, external, link_not_found, err_link_not_found, wrap, message, Result, ok, err,
}
use amazon_ecs_cni_plugins.Base.Exec.{Exec, ◌>>=◌, ◌>>◌}
use amazon_ecs_cni_plugins.Net.{Ip, IpNet}
use amazon_ecs_cni_plugins.Cni.{CniResult}

-- netlink.Link with its attributes; `is_bridge` says that it is a *netlink.Bridge.
pub record Link : Type 0 where
  pub name : Text
  pub index : ℕ
  pub hardware_addr : Text
  pub mtu : ℕ
  pub is_bridge : Bool

pub data Family : Type 0 where
  family_v4 family_v6 family_all : Family

pub data Scope : Type 0 where
  universe_scope link_scope : Scope

pub data RouteType : Type 0 where
  unicast blackhole : RouteType

-- netlink.Route
pub record Route : Type 0 where
  pub link_index : ℕ
  pub dst : Option IpNet
  pub src : Ip
  pub gw : Ip
  pub scope : Scope
  pub type : RouteType

pub data Call : Type 0 where
  link_by_name : Text → Call
  link_set_ns_fd : Link → Text → Call
  parse_addr : Text → Call
  addr_add : Link → IpNet → Call
  addr_list : Link → Family → Call
  link_add : Text → ℕ → Call
  link_set_master : Link → Link → Call
  link_set_name : Link → Text → Call
  link_set_up : Link → Call
  link_set_hardware_addr : Text → List ℕ → Call
  link_set_mtu : Link → ℕ → Call
  link_list : Call
  route_list : Link → Family → Call
  route_add : Route → Call
  route_del : Route → Call
  get_ns : Text → Call
  enter_ns : Text → Call
  exec_add : Text → Text → Call
  exec_del : Text → Text → Call
  configure_iface : Text → CniResult → Call
  setup_veth : Text → ℕ → Call
  set_hw_addr_by_ip : Text → Ip → Ip → Call
  del_link_by_name_addr : Text → Family → Call
  rand_read : Call
  get_metadata : Text → Call

-- The calls so far, the latest first.
abbrev pub History : Type 0
History = List Call

-- The two ends of a veth pair, by name and hardware address.
abbrev pub Ends : Type 0
Ends = Link × Link

pub record Host : Type 0 where
  pub done : History → Call → Result (Unit {0})
  pub link_of : History → Text → Result Link
  pub links : History → Result (List Link)
  pub addresses : History → Link → Family → Result (List IpNet)
  pub address_of : History → Text → Result IpNet
  pub routes : History → Link → Family → Result (List Route)
  pub added : History → Text → Text → Result CniResult
  pub ends : History → Text → ℕ → Result Ends
  pub random : History → Result (List ℕ)
  pub metadata : History → Text → Result Text

abbrev pub Action : Type 0 → Type 0
Action A = Exec History A

-- A call with its answer.
abbrev pub ask : {A : Type 0} → Call → (History → Result A) → Action A
ask c answer h = (answer h, c ∷ h)

-- A call that only succeeds or fails.
abbrev pub call : Host → Call → Action (Unit {0})
call host c = ask c (λ h. host.done h c)

-- WithNetNSPath: an error of the function that runs in the namespace is passed on.
unfoldable pub with_net_ns_path : {A : Type 0} → Host → Text → Action A → Action A
with_net_ns_path host path run = do call host (enter_ns path); run

-- os.IsExist: EEXIST or ENOTEMPTY, not below a wrapper.
abbrev pub is_exist : Error → Bool
is_exist (errno n) = (n == 17) || (n == 39)
is_exist _ = false

-- isRouteExistsError and the test for syscall.ENOENT
abbrev pub is_errno : ℕ → Error → Bool
is_errno k (errno n) = n == k
is_errno k _ = false

abbrev pub is_link_not_found : Error → Bool
is_link_not_found link_not_found = true
is_link_not_found _ = false

abbrev pub is_err_link_not_found : Error → Bool
is_err_link_not_found err_link_not_found = true
is_err_link_not_found _ = false

-- strings.Contains(err.Error(), "file exists"): no constant text of the plugins has it.
unfoldable pub says_file_exists : Error → Bool
says_file_exists (errno n) = n == 17
says_file_exists (external text) = is_infix (codes "file exists") text
says_file_exists (wrap e note) = says_file_exists e
says_file_exists _ = false

-- A call whose error does not count if it passes the test.
abbrev pub tolerate : (Error → Bool) → Result (Unit {0}) → Result (Unit {0})
tolerate test (ok u) = ok u
tolerate test (err e) = if test e then ok tt else err e
