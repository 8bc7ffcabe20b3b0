-- ===== src/Feed.antt =====
-- ingestion/websocket_manager.py: the market data of the websocket: volumes, the cache of prices and
-- quotes, the messages that fill it, and the supervisor of the connection.
mod Volume
mod Cache
mod Message
mod Supervisor
pub mod Totals
pub mod Fresh
pub mod Nearest
pub mod Attempts
mod Tests
