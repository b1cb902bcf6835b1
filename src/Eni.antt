-- ===== src/Eni.antt =====
-- The ENI plugin: its configuration, its engine and its commands.
pub mod Types
pub mod Metadata
pub mod Namespace
pub mod Commands
