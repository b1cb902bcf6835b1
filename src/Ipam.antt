-- ===== src/Ipam.antt =====
-- The IPAM plugin: its configuration and its commands.
pub mod Config
pub mod Commands
pub mod Plugin
