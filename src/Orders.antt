-- ===== src/Orders.antt =====
-- engine/execution_manager.py and models/live_trade.py: the orders of live trades at the broker.
pub mod Types
pub mod Webhook
pub mod Retry
pub mod History
pub mod Fade
pub mod Stale
pub mod Close
pub mod Reconcile
mod Tests
