-- ===== src/Tests.antt =====
-- The theorems at concrete data: the store in memory, subnets of four addresses, and a host that
-- answers every call.
mod Fixtures
mod IpStore
mod Ipam
mod Config
mod Bridge
mod Eni
mod Plugin
mod IpStoreV6
mod FullV6
mod Retry
mod BridgeAdd
mod Released
mod Lifecycle
mod Distinct
mod EniAdd
mod Cli
mod Backoff
mod Assigned
