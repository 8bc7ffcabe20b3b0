-- ===== src/Paper.antt =====
-- engine/paper_monitor.py and models/paper_trade.py: open paper trades against the last prices.
pub mod Stops
pub mod EndOfDay
mod Tests
use quant_dss.Base.{
  ℕ, suc, Bool, true, false, ◌&&◌, Option, some, none, List, [], ◌∷◌, String, ltb, leb,
  if◌then◌else◌,
}
use quant_dss.Base.Int.{ℤ, pos, negsuc}
use quant_dss.Base.Dict.{Dict, string_key, lookup}
use quant_dss.Base.Float.{Float, nought}
use quant_dss.Pipeline.Gates.{clock, time_in_india}
use text.Mathlib.Text.{◌==◌ as str_eq}

pub data Direction : Type 0 where
  buy sell : Direction

pub data Status : Type 0 where
  opened closed : Status

-- The columns that the monitor reads or writes.
pub record PaperTrade (W : Type 0) : Type 0 where
  pub id : ℕ
  pub symbol : String
  pub direction : Direction
  pub quantity : ℤ
  pub entry_price : W
  pub stop_loss : W
  pub target_price : W
  pub status : Status
  pub exit_price : Option W
  pub realized_pnl : W
  pub closed_at : Option ℕ

pub data Reason : Type 0 where
  eod_force_close stop_loss_hit target_hit : Reason

-- The `AutoTradeLog` of a close.
pub record CloseLog (W : Type 0) : Type 0 where
  pub trade_id : ℕ
  pub symbol : String
  pub signal : Direction
  pub reason : Reason
  pub entry_price : W
  pub stop_loss : W
  pub target_price : W

-- `paper_balance` of the configuration, where there is a row, and the log, last close first.
pub record Account (W : Type 0) : Type 0 where
  pub balance : Option W
  pub log : List (CloseLog W)

-- `_is_eod` at an instant.
abbrev pub is_eod : (now : ℕ) → Bool
is_eod now = leb (clock 15 15) (time_in_india now)

abbrev multiplier : Direction → ℤ
multiplier buy = pos 1
multiplier sell = negsuc 0

module _ {W : Type 0} ⦃f : Float W⦄ where
  abbrev one : W
  one = f.lit 10 1

  -- The trailing stop: `trade.stop_loss` after it.
  unfoldable pub trailed : W → PaperTrade W → W
  trailed ltp t = elim t.direction [
    | buy ↦
        let risk_unit = f.sub t.entry_price t.stop_loss in
        let new_sl = f.sub ltp (f.mul one risk_unit) in
        if f.lt nought risk_unit && f.lt (f.add t.entry_price (f.mul one risk_unit)) ltp
        then if f.lt t.stop_loss new_sl then new_sl else t.stop_loss
        else t.stop_loss
    | sell ↦
        let risk_unit = f.sub t.stop_loss t.entry_price in
        let new_sl = f.add ltp (f.mul one risk_unit) in
        if f.lt nought risk_unit && f.lt ltp (f.sub t.entry_price (f.mul one risk_unit))
        then if f.lt new_sl t.stop_loss then new_sl else t.stop_loss
        else t.stop_loss
  ]

  -- `close_reason` of a trade with its stop trailed, when it is not the end of the day.
  unfoldable pub close_reason : W → PaperTrade W → Option Reason
  close_reason ltp t = elim t.direction [
    | buy ↦
        if f.le ltp t.stop_loss
        then some stop_loss_hit
        else if f.le t.target_price ltp
        then some target_hit
        else none
    | sell ↦
        if f.le t.stop_loss ltp
        then some stop_loss_hit
        else if f.le ltp t.target_price
        then some target_hit
        else none
  ]

  abbrev pnl : W → PaperTrade W → W
  pnl ltp t =
      f.mul (f.mul (f.sub ltp t.entry_price) (f.of_int t.quantity))
        (f.of_int (multiplier t.direction))

  -- The close of a trade and what it does to the account.
  unfoldable pub close_trade :
      (now : ℕ) → W → Reason → PaperTrade W → Account W → PaperTrade W × Account W
  close_trade now ltp reason t a = (
    record t {
      status = closed;
      exit_price = some ltp;
      closed_at = some now;
      realized_pnl = pnl ltp t;
    },
    record a {
      balance = elim a.balance [
        | none ↦ none
        | some b ↦
            let margin = f.quotient (f.mul (f.of_int t.quantity) t.entry_price) (f.lit 5 0) in
            some (f.add (f.add b margin) (pnl ltp t))
      ];
      log =
          record {
            trade_id = t.id;
            symbol = t.symbol;
            signal = t.direction;
            reason = reason;
            entry_price = t.entry_price;
            stop_loss = t.stop_loss;
            target_price = t.target_price;
          }
          ∷ a.log;
    },
  )

  -- The body of the loop for an open trade with a price.
  unfoldable pub check_trade :
      (now : ℕ) → (eod : Bool) → W → PaperTrade W → Account W → PaperTrade W × Account W
  check_trade now eod ltp t a =
      let t' = record t { stop_loss = trailed ltp t } in
      if eod then close_trade now ltp eod_force_close t a else elim (close_reason ltp t') [
        | none ↦ (t', a)
        | some reason ↦ close_trade now ltp reason t' a
      ]

  -- Trades that are not open are not selected, those without a price are passed over.
  unfoldable pub visit :
      (now : ℕ) → Dict String W → PaperTrade W → Account W → PaperTrade W × Account W
  visit now ltps t a = elim t.status [
    | closed ↦ (t, a)
    | opened ↦ elim (lookup t.symbol ltps) [
      | none ↦ (t, a)
      | some ltp ↦ check_trade now (is_eod now) ltp t a
    ]
  ]

  -- `check_paper_trades` on the table of the trades, with the prices that were fetched.
  abbrev pub check_paper_trades :
      (now : ℕ) → Dict String W → List (PaperTrade W) → Account W → List (PaperTrade W) × Account W
  check_paper_trades now ltps [] a = ([], a)
  check_paper_trades now ltps (t ∷ ts) a =
      let (t', a') = visit now ltps t a in
      let (ts', a'') = check_paper_trades now ltps ts a' in (t' ∷ ts', a'')
