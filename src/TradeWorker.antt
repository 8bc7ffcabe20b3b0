-- ===== src/TradeWorker.antt =====
-- workers/autotrader_worker.py: the worker that trades the signals that have passed the risk engine.
mod Paper
mod Handle
pub mod Opens
pub mod Release
pub mod Single
mod Tests
use quant_dss.Base.{
  ℕ, ◌+◌, Bool, true, false, not, ◌&&◌, ◌||◌, Option, none, some, List, String, ltb, leb, count_if,
  if◌then◌else◌,
}
use quant_dss.Base.Int.{ℤ}
use quant_dss.Base.Exec.{Result, ok, raised, type_error}
use quant_dss.Pipeline.Gates.{time_in_india, clock}
use text.Mathlib.Text.{◌==◌ as str_eq}

-- `candle_time`: no text, one that `fromisoformat` refuses, and a time without or with a zone.
pub data Stamp : Type 0 where
  no_time malformed naive : Stamp
  aware : (time : ℕ) → Stamp

-- The fields that are converted to numbers: `int(float(...))` for the quantity.
pub record Numbers (W : Type 0) : Type 0 where
  pub entry_price : W
  pub stop_loss : W
  pub target_price : W
  pub quantity : ℤ

-- A message, whose missing texts are empty. `numbers` raises where a conversion does; `is_replay` and
-- `is_scanner` say whether the text in lower case is true, 1 or yes; `key` is the text of the
-- idempotency key, `reservation` that of the key of the risk reservation, where there is a trace id.
pub record Message (W : Type 0) : Type 0 where
  pub symbol : String
  pub signal_type : String
  pub numbers : Result (Numbers W)
  pub candle_time : Stamp
  pub is_replay : Bool
  pub is_scanner : Bool
  pub key : String
  pub reservation : Option String

-- The columns of AutoTradeConfig that the worker reads.
pub record Config (W : Type 0) : Type 0 where
  pub enabled : Bool
  pub mode : String
  pub max_open_positions : ℤ
  pub capital_per_trade : W

-- A row of PaperTrade, as far as the worker writes and reads it.
pub record Row (W : Type 0) : Type 0 where
  pub symbol : String
  pub direction : String
  pub entry_price : W
  pub stop_loss : W
  pub target_price : W
  pub quantity : ℤ
  pub is_open : Bool

-- A call of the execution manager's `place_order`, and a message of an executed signal.
pub record Order (W : Type 0) : Type 0 where
  pub symbol : String
  pub direction : String
  pub quantity : ℤ
  pub signal_price : W
  pub stop_loss : W
  pub target_price : W

pub record Executed (W : Type 0) : Type 0 where
  pub symbol : String
  pub signal_type : String
  pub entry_price : W
  pub quantity : ℤ
  pub mode : String

-- Redis, the database, and what went out, last one first. `live_count` counts the open live trades;
-- `balance` is `paper_balance`, where there is a row.
pub record World (W S : Type 0) : Type 0 where
  pub store : S
  pub cfg : Option (Config W)
  pub paper : List (Row W)
  pub live_count : ℕ
  pub balance : Option W
  pub orders : List (Order W)
  pub published : List (Executed W)

-- How the handler returns.
pub data Outcome : Type 0 where
  invalid stale repeated halted out_of_hours disabled bad_price full executed : Outcome

-- `_is_market_hours`
unfoldable pub is_market_hours : (now : ℕ) → Bool
is_market_hours now = leb (clock 9 15) (time_in_india now) && leb (time_in_india now) (clock 15 15)

-- Whether the candle is more than 60 seconds old. A time without a zone cannot be subtracted.
abbrev pub older : (now : ℕ) → Stamp → Result Bool
older now no_time = ok false
older now malformed = ok false
older now naive = raised type_error
older now (aware t) = ok (ltb (t + 60_000_000) now)

module _ {W : Type 0} where
  unfoldable pub is_stale : (now : ℕ) → Message W → Result Bool
  is_stale now m = if not m.is_replay && not m.is_scanner then older now m.candle_time else ok false

  -- `not symbol_name or not signal_type`
  abbrev pub is_invalid : Message W → Bool
  is_invalid m = str_eq m.symbol "" || str_eq m.signal_type ""

  -- The two counts of open trades.
  abbrev pub active_positions : {S : Type 0} → World W S → ℕ
  active_positions w = count_if (λ t. t.is_open) w.paper + w.live_count

  -- An open trade of the symbol and the direction.
  abbrev pub is_same : Message W → Row W → Bool
  is_same m t = (str_eq t.symbol m.symbol && t.is_open) && str_eq t.direction m.signal_type
