-- ===== src/Firewall.antt =====
-- The runtime firewall, internal/firewall/firewall.go.
pub mod Errors
pub mod Window
pub mod Kills
pub mod State
pub mod Local
pub mod Enter
pub mod Tickets
