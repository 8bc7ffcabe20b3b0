-- ===== src/AutoTrader.antt =====
-- engine/auto_trader_engine.py: scanned signals that are traded without a person. The tables that a
-- batch reads and writes, its log, and the sizing.
mod Trades
mod Entry
mod Batch
pub mod Queue
mod Cases
mod Sound
pub mod Limit
pub mod Single
pub mod Schedule
mod Tests
use quant_dss.Base.{
  ℕ, ◌+◌, Bool, true, false, ◌&&◌, Option, some, none, List, [], ◌∷◌, String, ltb, leb,
  if◌then◌else◌, count_if, or_default, filter, map, ◌++◌, length,
}
use quant_dss.Risk.Types.{Portfolio}
use quant_dss.Base.Int.{ℤ, pos, leb_ℤ}
use quant_dss.Base.Float.{Float, nought}
use quant_dss.Base.Exec.{Result, ok, raised, multiple_rows, not_finite}
use quant_dss.Execution.Mode.{AutoTradeConfig, TradingMode}
use quant_dss.Paper.{Direction, buy, sell}
use text.Mathlib.Text.{◌==◌ as str_eq}

-- `other` stands for the statuses of a live trade that the engine never asks for.
pub data Status : Type 0 where
  opened closed other : Status

-- The columns of PaperTrade and LiveTrade that the engine reads or writes; it treats both tables
-- alike. `strategy_id` is missing for paper trades, which do not have it.
pub record Position (W : Type 0) : Type 0 where
  pub id : ℕ
  pub symbol : String
  pub direction : Direction
  pub quantity : ℤ
  pub entry_price : W
  pub stop_loss : W
  pub target_price : W
  pub status : Status
  pub exit_price : Option W
  pub realized_pnl : W
  pub closed_at : Option ℕ
  pub strategy_id : Option ℕ
  pub risk_amount : Option W

pub data Sizing : Type 0 where
  by_capital by_quantity : Sizing

-- The columns of AutoTradeConfig, with those that say the mode in `trading`.
pub record Settings (W : Type 0) : Type 0 where
  pub trading : AutoTradeConfig
  pub sizing_mode : Sizing
  pub capital_per_trade : W
  pub qty_per_trade : ℤ
  pub max_open_positions : ℤ

-- A result of the scanner. `signal` is `none` for a text that is neither BUY nor SELL.
pub record Scan (W : Type 0) : Type 0 where
  pub symbol : String
  pub signal : Option Direction
  pub entry_price : W
  pub stop_loss : W
  pub target_price : W
  pub risk_reward : W

-- What an AutoTradeLog says: its action and its reason.
pub data Event (W : Type 0) : Type 0 where
  signal_exit disabled_drop invalid_entry exceeds_capital already_open : Event W
  insufficient_balance : (margin : W) → Event W
  from_scanner : (quantity : ℤ) → Event W
  max_positions : (open_count : ℕ) → (limit : ℤ) → Event W

pub record LogRow (W : Type 0) : Type 0 where
  pub symbol : String
  pub signal : Direction
  pub mode : Option TradingMode
  pub event : Event W
  pub trade_id : Option ℕ

-- The row of DailyRiskState of the day.
pub record Day (W : Type 0) : Type 0 where
  pub is_halted : Bool
  pub realised_pnl : Option W

-- The database, as the session sees it: `balance` is `paper_balance`, where there is a row.
pub record Book (W : Type 0) : Type 0 where
  pub paper : List (Position W)
  pub live : List (Position W)
  pub next_id : ℕ
  pub balance : Option W
  pub day : Option (Day W)
  pub log : List (LogRow W)

-- What the engine calls of Redis for its own keys.
pub record Cache (K : Type 0) : Type 0 where
  pub exists : (key : String) → K → Bool
  pub setex : (key : String) → (seconds : ℕ) → K → K

-- The database in the session and as it was last committed, the keys in Redis, and the outcomes sent
-- to the strategy health monitor.
pub record Desk (W K : Type 0) : Type 0 where
  pub book : Book W
  pub saved : Book W
  pub keys : K
  pub outcomes : List (ℕ × W)

abbrev pub is_opened : Status → Bool
is_opened opened = true
is_opened closed = false
is_opened other = false

abbrev pub is_direction : Direction → Direction → Bool
is_direction buy buy = true
is_direction sell sell = true
is_direction buy sell = false
is_direction sell buy = false

abbrev pub opposite : Direction → Direction
opposite buy = sell
opposite sell = buy

-- `result.scalar_one_or_none()`
abbrev pub one_or_none : {A : Type 0} → List A → Result (Option A)
one_or_none [] = ok none
one_or_none (x ∷ []) = ok (some x)
one_or_none (x ∷ y ∷ l) = raised multiple_rows

module _ {W : Type 0} where
  abbrev pub is_held : Position W → Bool
  is_held t = is_opened t.status

  abbrev pub is_open_of : String → Position W → Bool
  is_open_of symbol t = str_eq t.symbol symbol && is_opened t.status

  abbrev pub is_reversed : String → Direction → Position W → Bool
  is_reversed symbol d t =
      (str_eq t.symbol symbol && is_opened t.status) && is_direction t.direction d

  -- `_count_open_trades`
  unfoldable pub count_open_trades : Book W → ℕ
  count_open_trades b = count_if is_held b.paper + count_if is_held b.live

  abbrev pub add_log : LogRow W → Book W → Book W
  add_log row b = record b { log = row ∷ b.log }

  abbrev pub set_book : {K : Type 0} → Book W → Desk W K → Desk W K
  set_book b d = record d { book = b }

module _ {W : Type 0} ⦃f : Float W⦄ where
  -- The fallback of `_calc_qty`, which divides by a price that is positive.
  abbrev pub sized : Settings W → W → Result ℤ
  sized cfg entry_price = elim cfg.sizing_mode [
    | by_quantity ↦ ok cfg.qty_per_trade
    | by_capital ↦
        if f.le entry_price nought
        then ok (pos 0)
        else elim (f.floor (f.floor_div cfg.capital_per_trade entry_price)) [
          | none ↦ raised not_finite
          | some n ↦ ok n
        ]
  ]

  -- `_calc_qty`
  unfoldable pub calc_qty : Settings W → W → (risk_engine_qty : Option ℤ) → Result ℤ
  calc_qty cfg entry_price none = sized cfg entry_price
  calc_qty cfg entry_price (some q) = if leb_ℤ q (pos 0) then sized cfg entry_price else ok q

module _ {W : Type 0} ⦃f : Float W⦄ where
  -- `sum(...)`, from the left.
  abbrev total : W → List W → W
  total acc [] = acc
  total acc (x ∷ l) = total (f.add acc x) l

  -- `_load_portfolio`, with `paper_balance` where a configuration is given.
  unfoldable pub load_portfolio : Option W → Book W → Portfolio W
  load_portfolio paper_balance b =
      let balance = or_default (f.lit 100_000 0) paper_balance in
      let all_open = filter is_held b.paper ++ filter is_held b.live in
      record {
        current_balance = balance;
        peak_balance = balance;
        open_positions = length all_open;
        open_symbols = map (λ t. t.symbol) all_open;
        weekly_realised_pnl = nought;
        open_position_values = map (λ t. f.mul t.entry_price (f.of_int t.quantity)) all_open;
        committed_risk = total nought (map (λ t. or_default nought t.risk_amount) all_open);
      }

  -- `_load_weekly_pnl`, on the profits of the rows of the last seven days, `none` for a null, or when
  -- the query fails.
  unfoldable pub load_weekly_pnl : Option (List (Option W)) → W
  load_weekly_pnl none = nought
  load_weekly_pnl (some rows) = total nought (map (or_default nought) rows)
