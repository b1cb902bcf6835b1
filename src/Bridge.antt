-- ===== src/Bridge.antt =====
-- The bridge plugin: its configuration, its engine and its commands.
pub mod Types
pub mod Engine
pub mod Addresses
pub mod Veth
pub mod Commands
