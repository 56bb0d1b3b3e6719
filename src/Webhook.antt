-- ===== src/Webhook.antt =====
-- go/internal/webhook: the client that posts status callbacks, and what guards it.
pub mod Event
pub mod Subscription
pub mod Ssrf
pub mod Status
pub mod Fetch
pub mod Signer
pub mod Voice
pub mod Examples
