-- ===== src/Subscription.antt =====
-- internal/subscription: the registry of event subscriptions, and the fan-out of events.
pub mod Registry
pub mod History
pub mod Accounting
pub mod Index
pub mod Closing
pub mod Scoped
pub mod Indexed
mod Tests
pub mod Handles
