-- ===== src/Twiml.antt =====
-- The Go package internal/twiml.
pub mod Xml
pub mod Events
pub mod Verbs
pub mod Parse
pub mod Dispatch
pub mod Examples
