-- ===== src/Sip/Forwarder.antt =====
-- go/internal/sip/forwarder.go: the outbound leg of a <Dial>. Telephone numbers and what is scanned
-- are texts, names and labels strings.
pub mod CallerId
pub mod Emit
pub mod Invite
pub mod Dial
pub mod Examples
