-- ===== src/IpStore.antt =====
-- plugins/ipam/ipstore/ipstore.go: the IP manager over a key/value store.
pub mod Next
pub mod Db
pub mod Manager
pub mod Allocate
pub mod Leases
