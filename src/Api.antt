-- ===== src/Api.antt =====
-- The Go package internal/api.
pub mod MidCall
pub mod Page
pub mod Calls
pub mod Guard
pub mod Examples
