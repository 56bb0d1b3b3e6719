-- ===== src/Sip.antt =====
-- The Go package internal/sip.
pub mod Guardrails
pub mod Registrar
pub mod Sdp
pub mod Forwarder
pub mod Handler
