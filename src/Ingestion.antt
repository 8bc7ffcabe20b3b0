-- ===== src/Ingestion.antt =====
-- backend/app/ingestion: ticks, candles and the health of the feed.
pub mod Candles
pub mod Health
pub mod Frames
