-- ===== src/Vpn.antt =====
-- src/services/vpn and src/app/vpnwiring.cpp: the VPN in the application.
pub mod Manager
pub mod Profiles
pub mod Retry
pub mod Quiet
pub mod Wiring
pub mod Userspace
