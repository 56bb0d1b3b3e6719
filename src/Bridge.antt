-- ===== src/Bridge.antt =====
-- The Go package internal/bridge.
pub mod Ports
pub mod State
pub mod Leg
pub mod Call
pub mod Manager
pub mod Media
