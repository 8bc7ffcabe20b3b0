-- ===== src/Ingestion/Candles.antt =====
-- ingestion/candle_aggregator.py: ticks of many symbols become candles of one minute each.
pub mod Builder
pub mod Summary
pub mod Pending
mod Tests
use quant_dss.Base.{
  ℕ, ◌-◌, ◌%◌, Bool, true, false, ◌&&◌, Option, some, none, List, [], ◌∷◌, ◌++◌, String, ltb, ◌==◌,
  or_default, any, take, if◌then◌else◌,
}
use quant_dss.Base.Int.{ℤ, eqb_ℤ}
use quant_dss.Base.Dict.{Dict, string_key, lookup, insert}
use quant_dss.Base.Float.{Float}
use quant_dss.Signal.{Stamp, as_utc}
use Builder.{Candle, CandleBuilder, new_builder, add_tick, to_dict}
use text.Mathlib.Text.{◌==◌ as str_eq}

-- The keys that `process_tick` reads. `timestamp` is the parsed time, `none` for a value that is
-- neither a text nor a `datetime`; `instrument_key` is "" where the tick has none.
pub record Tick (W : Type 0) : Type 0 where
  pub symbol : String
  pub ltp : W
  pub volume : ℤ
  pub timestamp : Option Stamp
  pub instrument_key : String
  pub is_replay : Bool
  pub replay_session_id : String

-- Where a completed candle went, with the session of a replay.
pub data Message (W : Type 0) : Type 0 where
  stream : Candle W → Option String → Message W
  channel : Candle W → Message W

-- Whether Redis takes a call of `xadd` and one of `publish`.
pub record Transport : Type 0 where
  pub stream_up : Bool
  pub channel_up : Bool

-- The fields of the aggregator, what it has published, last one first, and the instruments whose
-- volume it has reset in the market data cache.
pub record Aggregator (W : Type 0) : Type 0 where
  pub builders : Dict String (CandleBuilder W)
  pub last_tick_ts : Dict String ℕ
  pub recent_ticks : Dict String (List (ℕ × W × ℤ))
  pub published : List (Message W)
  pub resets : List String

-- `_floor_to_minute`. India's offset is a whole number of minutes, so instants have the minutes of
-- the wall clock.
abbrev pub floor_to_minute : ℕ → ℕ
floor_to_minute t = t - t % 60_000_000

-- `max(last_ts or ts_ist, ts_ist)`
abbrev pub later_of : Option ℕ → ℕ → ℕ
later_of none ts = ts
later_of (some last) ts = if ltb last ts then ts else last

module _ {W : Type 0} where
  abbrev pub empty : Aggregator W
  empty = record {
    builders = [];
    last_tick_ts = [];
    recent_ticks = [];
    published = [];
    resets = [];
  }

  abbrev replay_session : Tick W → Option String
  replay_session t = if t.is_replay then some t.replay_session_id else none

  -- `xadd`, else `publish`, else a log line.
  abbrev publish : Transport → Tick W → Candle W → List (Message W) → List (Message W)
  publish net t candle sent =
      if net.stream_up
      then stream candle (replay_session t) ∷ sent
      else if net.channel_up
      then channel candle ∷ sent
      else sent

  abbrev reset_volume : Tick W → List String → List String
  reset_volume t resets = if str_eq t.instrument_key "" then resets else t.instrument_key ∷ resets

module _ {W : Type 0} ⦃f : Float W⦄ where
  -- `a == b` on the tuples of time, price and volume.
  abbrev pub same_tick : ℕ × W × ℤ → ℕ × W × ℤ → Bool
  same_tick (t, p, v) (t', p', v') = t == t' && (f.eq p p' && eqb_ℤ v v')

  abbrev pub recent_of : Tick W → Aggregator W → List (ℕ × W × ℤ)
  recent_of t s = or_default [] (lookup t.symbol s.recent_ticks)

  -- The candle boundary: the builder for the tick, and the candle that it closes.
  unfoldable pub roll :
      Transport → Tick W → (minute : ℕ) → Aggregator W → Option (Candle W) × Aggregator W
  roll net t minute s = elim (lookup t.symbol s.builders) [
    | none ↦ (
      none,
      record s {
        builders =
            insert t.symbol (add_tick t.ltp t.volume (new_builder t.symbol minute)) s.builders;
      },
    )
    | some b ↦
        if b.minute_start == minute
        then (none, record s { builders = insert t.symbol (add_tick t.ltp t.volume b) s.builders })
        else (
          some (to_dict b),
          record s {
            builders =
                insert t.symbol (add_tick t.ltp t.volume (new_builder t.symbol minute)) s.builders;
            published = publish net t (to_dict b) s.published;
            resets = reset_volume t s.resets;
          },
        )
  ]

  -- The tick is not a repeated one: the check of the order, then the candle.
  unfoldable pub accept :
      Transport → Tick W → (ts : ℕ) → Aggregator W → Option (Candle W) × Aggregator W
  accept net t ts s =
      let last = lookup t.symbol s.last_tick_ts in
      let s' = record s { last_tick_ts = insert t.symbol (later_of last ts) s.last_tick_ts } in
      let rolled = roll net t (floor_to_minute ts) s' in
      elim last [ none ↦ rolled | some l ↦ if ltb ts l then (none, s) else rolled ]

  abbrev pub remember : Tick W → List (ℕ × W × ℤ) → Aggregator W → Aggregator W
  remember t recent s = record s { recent_ticks = insert t.symbol recent s.recent_ticks }

  -- `process_tick`. A symbol without recent ticks gets its queue with its first tick.
  unfoldable pub process_tick : Transport → Tick W → Aggregator W → Option (Candle W) × Aggregator W
  process_tick net t s = elim t.timestamp [
    | none ↦ (none, s)
    | some stamp ↦
        let ts = as_utc stamp in
        let recent = recent_of t s in
        if any (same_tick (ts, t.ltp, t.volume)) recent
        then (none, s)
        else accept net t ts (remember t (take 20 ((ts, t.ltp, t.volume) ∷ recent)) s)
  ]

  -- `get_pending_candle`
  unfoldable pub get_pending_candle : String → Aggregator W → Option (Candle W)
  get_pending_candle symbol s = elim (lookup symbol s.builders) [
    | none ↦ none
    | some b ↦ some (to_dict b)
  ]

  -- `reset_session`, with the instruments that the market data cache holds volumes of.
  unfoldable pub reset_session : (volumes : List String) → Aggregator W → Aggregator W
  reset_session volumes s = record s {
    builders = [];
    last_tick_ts = [];
    recent_ticks = [];
    resets = volumes ++ s.resets;
  }
