-- ===== src/Ingestion/Candles/Builder.antt =====
-- ingestion/candle_aggregator.py: `CandleBuilder`, and what its candle says of the ticks.
use quant_dss.Base.{ℕ, ◌+◌, String, ◌==◌, if◌then◌else◌}
use quant_dss.Base.Int.{ℤ, pos_part}
use quant_dss.Base.Float.{Float, nought, min, max}

pub record CandleBuilder (W : Type 0) : Type 0 where
  pub symbol : String
  pub minute_start : ℕ
  pub open_price : W
  pub high : W
  pub low : W
  pub close : W
  pub volume : ℕ
  pub tick_count : ℕ

-- The dict of `to_dict`; `time` is the minute whose text it holds.
pub record Candle (W : Type 0) : Type 0 where
  pub symbol : String
  pub time : ℕ
  pub open_price : W
  pub high : W
  pub low : W
  pub close : W
  pub volume : ℕ

module _ {W : Type 0} ⦃f : Float W⦄ where
  -- `CandleBuilder(symbol=…, minute_start=…)`
  abbrev pub new_builder : String → ℕ → CandleBuilder W
  new_builder symbol minute = record {
    symbol = symbol;
    minute_start = minute;
    open_price = nought;
    high = nought;
    low = f.infinity;
    close = nought;
    volume = 0;
    tick_count = 0;
  }

  -- `add_tick`; `max(0, volume)` is the positive part.
  unfoldable pub add_tick : W → ℤ → CandleBuilder W → CandleBuilder W
  add_tick price volume b =
      let first = b.tick_count == 0 in
      record b {
        open_price = if first then price else b.open_price;
        high = if first then price else max b.high price;
        low = if first then price else min b.low price;
        close = price;
        volume = b.volume + pos_part volume;
        tick_count = b.tick_count + 1;
      }

  unfoldable pub to_dict : CandleBuilder W → Candle W
  to_dict b = record {
    symbol = b.symbol;
    time = b.minute_start;
    open_price = b.open_price;
    high = b.high;
    low = if f.eq b.low f.infinity then b.open_price else b.low;
    close = b.close;
    volume = b.volume;
  }
