-- ===== src/Backtest/Trade.antt =====
-- engine/backtest_engine.py: one trade of a backtest: entry, trailing stop, exit.
use quant_dss.Base.{ℕ, Bool, true, false, ◌&&◌, Option, none, some, if◌then◌else◌}
use quant_dss.Base.Int.{ℤ}
use quant_dss.Base.Float.{Float, nought}
use quant_dss.Signal.{CandidateSignal}
use quant_dss.Backtest.Types.{
  Bar, ExitReason, BacktestTrade, BacktestEngine, unset, target_hit, stop_hit, trailing_stop,
}
use text.Mathlib.Text.{◌==◌ as str_eq}

module _ {W : Type 0} ⦃f : Float W⦄ where
  abbrev pub is_buy : BacktestTrade W → Bool
  is_buy t = str_eq t.signal_type "BUY"

  abbrev pub moved : W → BacktestTrade W → BacktestTrade W
  moved stop t = record t { stop_loss = stop; trailing_activated = true }

  abbrev pub stop_reason : BacktestTrade W → ExitReason
  stop_reason t = if t.trailing_activated then trailing_stop else stop_hit

  -- The price of an exit, with the last close for one that is forced.
  abbrev pub exit_price_of : (close : W) → ExitReason → BacktestTrade W → W
  exit_price_of close target_hit t = t.target_price
  exit_price_of close stop_hit t = t.stop_loss
  exit_price_of close trailing_stop t = t.stop_loss
  exit_price_of close r t = close

  abbrev pub gross_pnl : (exit : W) → BacktestTrade W → W
  gross_pnl exit t =
      if is_buy t
      then f.mul (f.sub exit t.entry_price) (f.of_int t.quantity)
      else f.mul (f.sub t.entry_price exit) (f.of_int t.quantity)

  -- The trade as it leaves the market.
  abbrev pub left : (exit : W) → (time : ℕ) → ExitReason → BacktestTrade W → BacktestTrade W
  left exit time reason t = record t {
    exit_price = exit;
    exit_time = some time;
    exit_reason = reason;
    pnl = gross_pnl exit t;
  }

module _ {W X : Type 0} ⦃f : Float W⦄ where
  -- A trade that is filled at the open of the bar.
  abbrev pub entered : Bar W X → CandidateSignal W → ℤ → BacktestTrade W
  entered b s q = record {
    entry_time = b.time;
    exit_time = none;
    signal_type = s.signal_type;
    entry_price = b.open_price;
    exit_price = nought;
    stop_loss = s.stop_loss;
    target_price = s.target_price;
    quantity = q;
    pnl = nought;
    exit_reason = unset;
    trailing_activated = false;
  }

  -- Why a bar closes a trade: the stop is tested before the target.
  unfoldable pub exit_of : Bar W X → BacktestTrade W → Option ExitReason
  exit_of b t =
      if is_buy t
      then if f.le b.low t.stop_loss
        then some (stop_reason t)
        else if f.le t.target_price b.high
        then some target_hit
        else none
      else if f.le t.stop_loss b.high
      then some (stop_reason t)
      else if f.le b.low t.target_price
      then some target_hit
      else none

module _ {W X E : Type 0} ⦃f : Float W⦄ where
  unfoldable pub trailed :
      BacktestEngine W X E → (current_atr : W) → Bar W X → BacktestTrade W → BacktestTrade W
  trailed e atr b t =
      let needed = f.mul e.trailing_atr_trigger atr in
      let room = f.mul e.trailing_atr_distance atr in
      let up = f.sub b.high room in
      let down = f.add b.low room in
      if e.enable_trailing_stop && f.lt nought atr
      then if is_buy t
        then if f.le needed (f.sub b.high t.entry_price) && f.lt t.stop_loss up
          then moved up t
          else t
        else if f.le needed (f.sub t.entry_price b.low) && f.lt down t.stop_loss
        then moved down t
        else t
      else t
