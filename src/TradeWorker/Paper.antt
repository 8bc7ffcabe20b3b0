-- ===== src/TradeWorker/Paper.antt =====
-- workers/autotrader_worker.py: the execution of a signal on paper.
use quant_dss.Base.{
  Bool, true, false, ◌||◌, Option, none, some, [], ◌∷◌, ◌++◌, String, any, if◌then◌else◌,
}
use quant_dss.Base.Int.{ℤ, pos, leb_ℤ, max_ℤ}
use quant_dss.Base.Float.{Float, nought}
use quant_dss.Base.Exec.{Result, ok, raised, not_finite, database_error, Exec}
use quant_dss.TradeWorker.{Numbers, Message, Config, Row, World, is_same}
use text.Mathlib.Text.{◌==◌ as str_eq}

-- The values of the column `direction`; a query with another text raises.
abbrev pub is_known : String → Bool
is_known s = str_eq s "BUY" || str_eq s "SELL"

module _ {W : Type 0} ⦃f : Float W⦄ where
  -- `capital_per_trade or 10000.0`
  abbrev pub capital_of : Config W → W
  capital_of cfg =
      if f.eq cfg.capital_per_trade nought then f.lit 10_000 0 else cfg.capital_per_trade

  -- The quantity, at a price that is not zero: `int` drops the fraction, which `max(1, ...)` makes
  -- the same as the floor.
  unfoldable pub quantity_for : Config W → Numbers W → Result ℤ
  quantity_for cfg n =
      if leb_ℤ n.quantity (pos 0)
      then elim (f.floor (f.quotient (capital_of cfg) n.entry_price)) [
        | none ↦ raised not_finite
        | some k ↦ ok (max_ℤ (pos 1) k)
      ]
      else ok n.quantity

  abbrev pub margin_req : ℤ → W → W
  margin_req quantity price = f.quotient (f.mul (f.of_int quantity) price) (f.lit 5 0)

  abbrev pub is_short : W → Option W → Bool
  is_short margin none = false
  is_short margin (some b) = f.lt b margin

  abbrev pub debited : W → Option W → Option W
  debited margin none = none
  debited margin (some b) = some (f.sub b margin)

  abbrev pub new_row : Message W → Numbers W → ℤ → Row W
  new_row m n quantity = record {
    symbol = m.symbol;
    direction = m.signal_type;
    entry_price = n.entry_price;
    stop_loss = n.stop_loss;
    target_price = n.target_price;
    quantity = quantity;
    is_open = true;
  }

  module _ {S : Type 0} where
    -- The margin and the new row.
    abbrev pub book : Message W → Numbers W → ℤ → World W S → World W S
    book m n quantity w = record w {
      paper = w.paper ++ new_row m n quantity ∷ [];
      balance = debited (margin_req quantity n.entry_price) w.balance;
    }

    -- From the quantity on.
    unfoldable pub book_sized : Message W → Numbers W → ℤ → World W S → World W S
    book_sized m n quantity w =
        if is_short (margin_req quantity n.entry_price) w.balance then w else book m n quantity w

    -- `_execute_paper_trade`
    unfoldable pub execute_paper_trade : Config W → Message W → Numbers W → Exec (World W S) Unit
    execute_paper_trade cfg m n w =
        if is_known m.signal_type
        then if any (is_same m) w.paper then (ok tt, w) else elim (quantity_for cfg n) [
          | raised e ↦ (raised e, w)
          | ok quantity ↦ (ok tt, book_sized m n quantity w)
        ]
        else (raised database_error, w)
