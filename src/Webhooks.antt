-- ===== src/Webhooks.antt =====
-- internal/webhooks: the admission webhooks.
pub mod Keys
pub mod Manager
pub mod Validate
pub mod Gateways
pub mod Handlers
mod Tests
