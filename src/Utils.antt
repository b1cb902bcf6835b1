-- ===== src/Utils.antt =====
-- pkg/utils: the gateway of a subnet, the retry loop, and its pauses.
pub mod Gateway
pub mod Retry
pub mod Backoff
