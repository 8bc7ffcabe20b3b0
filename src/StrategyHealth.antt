-- ===== src/StrategyHealth.antt =====
-- engine/strategy_health.py: strategies that lose are paused or disabled.
pub mod Streak
mod Tests
use quant_dss.Base.{
  ℕ, ◌+◌, Bool, true, false, not, ◌&&◌, Option, some, none, List, [], ◌∷◌, ltb, leb, length, take,
  filter, or_default, if◌then◌else◌,
}
use quant_dss.Base.Int.{pos}
use quant_dss.Base.Dict.{Dict, nat_key, lookup, insert, erase}
use quant_dss.Base.Float.{Float, nought}

pub data Reason : Type 0 where
  consecutive_losses : ℕ → Reason
  win_rate_too_low profit_factor_too_low : Reason

-- `_StrategyState`, with the last trade first. Times are instants in microseconds.
pub record StrategyState (W : Type 0) : Type 0 where
  pub trades : List W
  pub losses : ℕ
  pub is_disabled : Bool
  pub disable_reason : Option Reason
  pub paused_until : Option ℕ

abbrev pub pf_lookback : ℕ
pf_lookback = 30

abbrev pub win_rate_lookback : ℕ
win_rate_lookback = 20

abbrev pub max_consecutive_losses : ℕ
max_consecutive_losses = 5

abbrev pub day : ℕ
day = 86_400_000_000

abbrev pub fresh : {W : Type 0} → StrategyState W
fresh = record {
  trades = [];
  losses = 0;
  is_disabled = false;
  disable_reason = none;
  paused_until = none;
}

abbrev pub stamped : {W : Type 0} → ℕ → List W → List (ℕ × W)
stamped now [] = []
stamped now (p ∷ l) = (now, p) ∷ stamped now l

-- Redis, as far as the monitor uses it: the states that are stored under its keys.
abbrev pub Store : Type 0 → Type 0
Store W = Dict ℕ (StrategyState W)

-- `_get_state`
abbrev pub get_state : {W : Type 0} → ℕ → Store W → StrategyState W
get_state id store = or_default fresh (lookup id store)

-- A reason with the word CONSECUTIVE pauses for 24 hours.
abbrev pub pause_of : (now : ℕ) → Reason → Option ℕ → Option ℕ
pause_of now (consecutive_losses n) p = some (now + day)
pause_of now win_rate_too_low p = p
pause_of now profit_factor_too_low p = p

-- Whether a pause is over.
abbrev pub is_past : (now : ℕ) → Option ℕ → Bool
is_past now none = false
is_past now (some until) = ltb until now

module _ {W : Type 0} where
  abbrev pub enabled : StrategyState W → StrategyState W
  enabled s = record s { is_disabled = false; disable_reason = none; paused_until = none }

module _ {W : Type 0} ⦃f : Float W⦄ where
  -- `sum(…)` in the order of the trades.
  abbrev pub sum : List W → W
  sum [] = nought
  sum (x ∷ l) = f.add (sum l) x

  abbrev pub is_win : W → Bool
  is_win p = f.lt nought p

  abbrev pub is_loss : W → Bool
  is_loss p = f.lt p nought

  -- Rule 2, on the last trades.
  unfoldable pub win_rate_crash : List W → Bool
  win_rate_crash trades =
      let last = take win_rate_lookback trades in
      let share =
        f.quotient (f.of_int (pos (length (filter is_win last)))) (f.of_int (pos (length last))) in
      leb win_rate_lookback (length last) && f.lt (f.mul share (f.lit 100 0)) (f.lit 350 1)

  -- Rule 3.
  unfoldable pub profit_factor_collapse : List W → Bool
  profit_factor_collapse trades =
      let last = take pf_lookback trades in
      let loss = f.abs (sum (filter is_loss last)) in
      leb pf_lookback (length last)
      && (f.lt nought loss && f.lt (f.quotient (sum (filter is_win last)) loss) (f.lit 10 1))

  -- `_should_disable`
  unfoldable pub should_disable : StrategyState W → Option Reason
  should_disable s =
      if leb max_consecutive_losses s.losses
      then some (consecutive_losses s.losses)
      else if win_rate_crash s.trades
      then some win_rate_too_low
      else if profit_factor_collapse s.trades
      then some profit_factor_too_low
      else none

  -- The state with a trade counted.
  abbrev pub counted : W → StrategyState W → StrategyState W
  counted pnl s = record s {
    trades = take pf_lookback (pnl ∷ s.trades);
    losses = if is_loss pnl then s.losses + 1 else 0;
  }

  abbrev pub judged : (now : ℕ) → StrategyState W → StrategyState W
  judged now s = elim (should_disable s) [
    | none ↦ s
    | some reason ↦ if s.is_disabled then s else record s {
      is_disabled = true;
      disable_reason = some reason;
      paused_until = pause_of now reason s.paused_until;
    }
  ]

  -- `record_trade`
  unfoldable pub record_trade : (now id : ℕ) → W → Store W → Store W
  record_trade now id pnl store = insert id (judged now (counted pnl (get_state id store))) store

  -- `is_disabled`
  unfoldable pub check_disabled : (now id : ℕ) → Store W → Bool × Store W
  check_disabled now id store =
      let s = get_state id store in
      if not s.is_disabled
      then (false, store)
      else if is_past now s.paused_until
      then (false, insert id (enabled s) store)
      else (true, store)

  -- `re_enable`
  unfoldable pub re_enable : (id : ℕ) → Store W → Store W
  re_enable id store = insert id (enabled (get_state id store)) store

  -- Trades recorded one after the other, the last one first in the list, each at its time.
  abbrev pub replay : (id : ℕ) → List (ℕ × W) → Store W → Store W
  replay id [] store = store
  replay id ((now, pnl) ∷ l) store = record_trade now id pnl (replay id l store)

  -- `hydrate_from_db` for one strategy: its rows, the last one first, at the time of the start. A row
  -- is the profit as the column gives it back, of two decimal places.
  unfoldable pub hydrate : (now id : ℕ) → (rows : List W) → Store W → Store W
  hydrate now id rows store = replay id (stamped now (take pf_lookback rows)) (erase id store)
