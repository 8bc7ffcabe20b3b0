-- ===== src/Execution.antt =====
-- engine/: where a signal goes after its risk check, and which worker handles a symbol.
pub mod Mode
pub mod Sharding
mod Tests
