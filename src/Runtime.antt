-- ===== src/Runtime.antt =====
-- The runtime's resources: Lib/Runtime.
pub mod Quota
pub mod Memory
pub mod ObjectGc
pub mod Linker
