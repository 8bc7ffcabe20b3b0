-- ===== src/Backtest.antt =====
-- engine/backtest_engine.py: the simulation of a strategy over past candles.
pub mod Types
pub mod Trade
pub mod Engine
pub mod Balance
pub mod Halt
pub mod Metrics
pub mod WalkForward
mod Tests
