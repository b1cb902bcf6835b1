-- ===== src/Lib.antt =====
-- The Amazon ECS CNI plugins: three executables that the container runtime calls with ADD and DEL.
--
-- The IPAM plugin (plugins/ipam) hands out the addresses of a subnet. Its configuration
-- (config/config.go) is read and checked by Ipam.Config; its commands (commands/commands.go) are
-- Ipam.Commands behind the opened database, and Ipam.Plugin from the arguments of the plugin on; the
-- assignments are in a key-value database behind package ipstore (ipstore/ipstore.go), which is
-- IpStore: Db is the interface of libkv, Manager the methods of IPManager, Next the functions NextIP
-- and NextIPv6, Allocate the searches for a free address and ReleaseByID. Assign takes a key and an
-- id; the key is the text of the address, with the prefix "6" for IPv6 where the plugin puts it.
-- IpStore.Leases is the abstract view of the database: a function from keys to ids, and the steps that
-- ADD and DEL may make on it. A run holds the lock of the database file from its opening to its end, so
-- Ipam.Plugin.Runs takes the runs of the plugin one after the other; Lifecycle and Returned are about a
-- run of ADD and then one of DEL, Distinct about two runs of ADD.
--
-- The bridge plugin (plugins/ecs-bridge) makes a bridge, a veth pair, runs the IPAM plugin and
-- configures both ends. Bridge.Types is types/types.go, Bridge.Commands is commands/commands.go,
-- Bridge.Engine, Bridge.Addresses and Bridge.Veth are engine/*.go: Addresses is ConfigureBridge, Veth
-- is configureveth.go, Engine the rest.
--
-- The ENI plugin (plugins/eni) moves a network interface into the container's namespace. Eni.Types is
-- types/types.go, Eni.Commands is commands/commands.go, Eni.Metadata and Eni.Namespace are
-- engine/engine.go and engine/nsclosure.go. Utils.Gateway is pkg/utils/gateway.go; Utils.Retry is
-- pkg/utils/errors.go and the retry loop of pkg/utils/utils.go, which no plugin calls, and Utils.Backoff
-- is pkg/utils/backoff.go, its pauses.
--
-- The executables. Cli is what the three functions main do before they hand over to the CNI library:
-- Cli.Logger is pkg/logger, Cli.Version is pkg/version and pkg/capabilities with the encoding of JSON
-- in Cli.Json, Cli.Flags is the flag package for the two flags, and Cli.Main is plugins/*/main.go. What
-- main does to the outside is a sequence of events and how the process ends.
--
-- How the code is modelled. A Go error is a value of Base's Error: the constant text of a message, the
-- wrapper around an error, the sentinel errors, a panic. A method of IPManager takes the manager and
-- gives the result and the new manager. What the bridge and the ENI plugin ask of the kernel, of the
-- CNI library, of the metadata service and of other plugins is a call to a Host: the host answers from
-- the history of calls, and each operation gives its result and the longer history, the latest call
-- first. So a theorem on the history states which calls are made in which order. Net has what the
-- plugins use of Go's package net; Cni has the data types of the CNI library.
--
-- Fuel and bounds. NextIP and NextIPv6 loop at most twice; they have fuel for four rounds. The loops of
-- GetAvailableIP and GetAvailableIPv6 have no bound in the source: they take fuel as an argument, and
-- running out of it is an error of its own. The retry loop of pkg/utils takes fuel too, and gives
-- `running` behind it. The retries of the ENI engine have the source's bounds.
--
-- The hypotheses on a store. IsLawful says what Get, Put, Delete, Exists and List mean; IsHealthy says
-- that none of them fails, but for Get and List where a key is missing. A database of boltdb whose
-- bucket does not exist yet is not healthy: Exists and Delete fail there with the error that the key is
-- not found. What needs IsHealthy leaves that case out.
--
-- Not modelled: decoding of JSON, printing of results, net.ParseCIDR and net.ParseMAC, the environment,
-- the library seelog, skel.PluginMain and the opening of the database (parameters); float64 and
-- math/rand (parameters of Utils.Backoff); the pauses between the attempts of the ENI engine;
-- pkg/licenses (a generated constant); ZeroOrNil of pkg/utils, which asks reflect about a value of any
-- type; the one-line wrappers in the other packages of pkg (the calls of Host stand for them).
pub mod Base
pub mod Net
pub mod IpStore
pub mod Cli
pub mod Cni
pub mod Ipam
pub mod Host
pub mod Bridge
pub mod Eni
pub mod Utils
pub mod Tests
