-- ===== src/Abi.antt =====
-- libs/dbsos-abi: the types and constants that the kernel shares with its servers.
pub mod Cap
pub mod Ipc
