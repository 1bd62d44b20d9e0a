-- ===== src/Event.antt =====
-- The events of backend/core/events/: their models, the dispatcher and the delivery worker.
pub mod Models
pub mod Url
pub mod Redirect
pub mod Subscriptions
pub mod Matching
pub mod Dispatcher
pub mod Delivery
