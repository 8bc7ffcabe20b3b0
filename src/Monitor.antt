-- ===== src/Monitor.antt =====
-- workers/trade_monitor_worker.py: the worker that watches open paper and live trades.
pub mod Stops
pub mod Book
pub mod Live
pub mod Once
mod Tests
use quant_dss.Base.{
  ℕ, ◌/◌, ◌%◌, Bool, true, false, not, ◌&&◌, ◌||◌, Option, some, none, List, [], ◌∷◌, String, leb,
  if◌then◌else◌,
}
use quant_dss.Base.Int.{ℤ, pos, eqb_ℤ}
use quant_dss.Base.Float.{Float, nought}
use quant_dss.Leases.{Redis}
use quant_dss.Leases.Lock.{micros}
use quant_dss.Paper.{Direction, buy, sell, PaperTrade, opened, closed}
use quant_dss.Pipeline.Gates.{time_in_india}
use text.Mathlib.Text.{◌==◌ as str_eq}

-- `_is_eod`: it tests the hour and the minute each by itself.
unfoldable pub is_eod : (now : ℕ) → Bool
is_eod now =
    leb 15 (time_in_india now / 3_600_000_000) && leb 15 (time_in_india now / 60_000_000 % 60)

-- `get_trading_state`, from what Redis has.
unfoldable pub get_trading_state : Option String → String
get_trading_state none = "ENABLED"
get_trading_state (some s) = if str_eq s "" then "ENABLED" else s

abbrev pub is_flatten : Option String → Bool
is_flatten state = str_eq (get_trading_state state) "EMERGENCY_FLATTEN"

-- One run: its time, what Redis has as the trading state, whether there is a token for the broker,
-- and the text of the key of a square-off lock, which names the reason, the trade and the day.
pub record Round : Type 0 where
  pub now : ℕ
  pub state : Option String
  pub token : Bool
  pub lock_key : (is_eod : Bool) → (trade_id : ℕ) → String

abbrev pub is_square_off : Round → Bool
is_square_off r = is_eod r.now || is_flatten r.state

module _ {W : Type 0} ⦃f : Float W⦄ where
  -- `if ltp and ltp > 0`
  abbrev pub positive : Option W → Option W
  positive none = none
  positive (some x) = if f.lt nought x then some x else none

  abbrev pub or_price : Option W → Option W → Option W
  or_price none y = y
  or_price (some x) y = some x

  -- `_get_ltp`, from the answers of its sources; `none` for none and for an exception.
  unfoldable pub get_ltp : (has_key : Bool) → (cached upstox angel yahoo : Option W) → Option W
  get_ltp has_key cached upstox angel yahoo =
      or_price cached
        (or_price (if has_key then positive upstox else none) (or_price (positive angel) yahoo))

  -- `float(trade.quantity or 1)`
  abbrev pub quantity_of : ℤ → W
  quantity_of q = if eqb_ℤ q (pos 0) then f.of_int (pos 1) else f.of_int q

  -- `_calc_pnl`
  unfoldable pub calc_pnl : (is_buy : Bool) → (entry : W) → ℤ → (exit : W) → W
  calc_pnl is_buy entry q exit =
      let moved = if is_buy then f.sub exit entry else f.sub entry exit in
      let gross = f.round 2 (f.mul moved (quantity_of q)) in
      let cost = f.add (f.lit 40 0) (f.mul (f.mul entry (quantity_of q)) (f.lit 5 4)) in
      f.round 2 (f.sub gross cost)

  -- `_add_to_daily_pnl`, where the day has a row.
  unfoldable pub add_to_daily_pnl : W → Option W → Option W
  add_to_daily_pnl pnl none = none
  add_to_daily_pnl pnl (some p) = some (f.round 2 (f.add p pnl))

  -- `proposed_sl` of `_update_trailing_stop`.
  abbrev pub proposed_stop : (is_buy : Bool) → (entry stop ltp : W) → W
  proposed_stop is_buy entry stop ltp =
      let risk = f.mul (f.abs (f.sub entry stop)) (f.lit 10 1) in
      if is_buy then f.sub ltp risk else f.add ltp risk

  -- Whether `new_sl` is set.
  unfoldable pub trails : (is_buy : Bool) → (entry stop ltp : W) → Bool
  trails is_buy entry stop ltp =
      let risk = f.abs (f.sub entry stop) in
      let profit = if is_buy then f.sub ltp entry else f.sub entry ltp in
      let proposed = proposed_stop is_buy entry stop ltp in
      not (f.le risk nought)
      && (f.le (f.mul risk (f.lit 10 1)) profit
          && (if is_buy then f.lt stop proposed else f.lt proposed stop))

  -- `_update_trailing_stop` as far as the stop: the stop after it.
  unfoldable pub trailed_stop : (is_buy : Bool) → (entry stop ltp : W) → W
  trailed_stop is_buy entry stop ltp =
      if trails is_buy entry stop ltp then f.round 2 (proposed_stop is_buy entry stop ltp) else stop

  -- The price has reached the stop, or the target.
  abbrev pub is_stopped : (is_buy : Bool) → (stop ltp : W) → Bool
  is_stopped is_buy stop ltp = if is_buy then f.le ltp stop else f.le stop ltp

  abbrev pub is_reached : (is_buy : Bool) → (target ltp : W) → Bool
  is_reached is_buy target ltp = if is_buy then f.le target ltp else f.le ltp target

abbrev pub is_buy : Direction → Bool
is_buy buy = true
is_buy sell = false

-- `SET NX` of the lock of a square-off for an hour.
abbrev pub lock_trade : {S : Type 0} ⦃r : Redis S⦄ → Round → ℕ → S → Bool × S
lock_trade ⦃r⦄ round id s =
    r.set_nx round.now (round.lock_key (is_eod round.now) id) "1" (micros 3600) s

-- What a run changes beside the trades: Redis, and the profit of the day where it has a row.
pub record Till (W S : Type 0) : Type 0 where
  pub store : S
  pub day_pnl : Option W

module _ {W : Type 0} ⦃f : Float W⦄ {S : Type 0} ⦃r : Redis S⦄ where
  -- A close at a price. The attributes exit_time, exit_reason and realised_pnl, which the code sets
  -- too, are no columns of the table.
  abbrev pub close_at : W → PaperTrade W → Till W S → PaperTrade W × Till W S
  close_at exit t w = (
    record t { status = closed; exit_price = some exit },
    record w {
      day_pnl =
          add_to_daily_pnl (calc_pnl (is_buy t.direction) t.entry_price t.quantity exit) w.day_pnl;
    },
  )

  unfoldable pub square_off : Round → W → PaperTrade W → Till W S → PaperTrade W × Till W S
  square_off round ltp t w =
      let (taken, store) = lock_trade round t.id w.store in
      let w' = record w { store = store } in if taken then close_at ltp t w' else (t, w')

  -- The body of the loop for a trade with a price.
  unfoldable pub watch_paper : Round → W → PaperTrade W → Till W S → PaperTrade W × Till W S
  watch_paper round ltp t w =
      let buy_side = is_buy t.direction in
      if is_square_off round
      then square_off round ltp t w
      else if is_stopped buy_side t.stop_loss ltp
      then close_at t.stop_loss t w
      else if is_reached buy_side t.target_price ltp
      then close_at t.target_price t w
      else (record t { stop_loss = trailed_stop buy_side t.entry_price t.stop_loss ltp }, w)

  -- A trade that is open and has a price is watched.
  unfoldable pub visit_paper :
      Round → (price : PaperTrade W → Option W) → PaperTrade W → Till W S → PaperTrade W × Till W S
  visit_paper round price t w = elim t.status [
    | closed ↦ (t, w)
    | opened ↦ elim (price t) [ none ↦ (t, w) | some ltp ↦ watch_paper round ltp t w ]
  ]

  -- `_check_paper_trades`
  abbrev pub check_paper_trades :
      Round
      → (price : PaperTrade W → Option W) → List (PaperTrade W)
      → Till W S
      → List (PaperTrade W) × Till W S
  check_paper_trades round price [] w = ([], w)
  check_paper_trades round price (t ∷ ts) w =
      let (t', w') = visit_paper round price t w in
      let (ts', w'') = check_paper_trades round price ts w' in (t' ∷ ts', w'')
