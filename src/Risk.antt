-- ===== src/Risk.antt =====
-- engine/risk_engine.py: the fail-fast chain of risk rules, and what it guarantees.
pub mod Sectors
pub mod Types
pub mod Alerts
pub mod Rules
pub mod Engine
pub mod Chain
pub mod StockCap
pub mod Restart
pub mod AlertGap
pub mod Limit
pub mod Limits
pub mod Size
pub mod Inert
mod Tests
