-- ===== src/Tests.antt =====
-- Runs of the code at fixed inputs.
pub mod Discovery
pub mod Downloads
pub mod Merged
pub mod Vpn
pub mod Games
pub mod Integrations
pub mod Ipc
pub mod Media
pub mod Metadata
pub mod Torrent
pub mod Security
