-- ===== src/Paper/Tests.antt =====
-- Runs of the paper monitor on fixed-point numbers, and its theorems at concrete inputs.
use quant_dss.Base.{ℕ, ◌≡◌, refl, none, some, [], ◌∷◌, String, All}
use quant_dss.Base.Int.{ℤ, pos}
use quant_dss.Base.Dict.{string_key}
use quant_dss.Base.Fixed.{fixed_float, fixed-IsOrdered}
use quant_dss.Paper.{
  PaperTrade, Account, buy, opened, trailed, close_reason, close_trade, check_trade, visit,
  check_paper_trades,
}
use quant_dss.Paper.Stops.{Tightens, watch, watch-Tightens}
use quant_dss.Paper.EndOfDay.{IsSettled, check_paper_trades-IsSettled}

abbrev long : String → PaperTrade ℤ
long symbol = record {
  id = 1;
  symbol = symbol;
  direction = buy;
  quantity = pos 10;
  entry_price = pos 1000000;
  stop_loss = pos 950000;
  target_price = pos 1200000;
  status = opened;
  exit_price = none;
  realized_pnl = pos 0;
  closed_at = none;
}

abbrev purse : Account ℤ
purse = record { balance = some (pos 100000000); log = [] }

abbrev noon : ℕ
noon = 23_400_000_000

-- At 110 the stop is trailed to 105. At 115 it would go to 110, but the risk unit is taken from the
-- trailed stop, which is above the entry, so the stop stays.
trails_once :
    (watch
      ((noon, ("TCS", pos 1100000) ∷ []) ∷ (noon, ("TCS", pos 1150000) ∷ []) ∷ [])
      (long "TCS")
      purse).0.stop_loss
    ≡ pos 1050000
unfolding visit check_trade close_trade close_reason trailed
trails_once = refl

-- A stop of 95 that the price jumps over is closed at the price of 90, not at the stop.
closes_at_price :
    (watch ((noon, ("TCS", pos 900000) ∷ []) ∷ []) (long "TCS") purse).0.exit_price
    ≡ some (pos 900000)
unfolding visit check_trade close_trade close_reason trailed
closes_at_price = refl

watch-Tightens_example :
    Tightens buy
      (pos 950000)
      (watch ((noon, ("TCS", pos 1100000) ∷ []) ∷ []) (long "TCS") purse).0.stop_loss
watch-Tightens_example =
    watch-Tightens fixed-IsOrdered ((noon, ("TCS", pos 1100000) ∷ []) ∷ []) (long "TCS") purse refl

check_paper_trades-IsSettled_example :
    All
      (IsSettled (("TCS", pos 1000000) ∷ []))
      (check_paper_trades 36_000_000_000
        (("TCS", pos 1000000) ∷ [])
        (long "TCS" ∷ long "INFY" ∷ [])
        purse).0
check_paper_trades-IsSettled_example =
    check_paper_trades-IsSettled 36_000_000_000 (("TCS", pos 1000000) ∷ [])
      (long "TCS" ∷ long "INFY" ∷ []) purse refl
