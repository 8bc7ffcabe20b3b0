-- ===== src/Paper/EndOfDay.antt =====
-- engine/paper_monitor.py: nothing with a price stays open at the end of the day.
use quant_dss.Base.{ℕ, ◌⊎◌, ◌≡◌, true, none, List, [], ◌∷◌, String, arith, All}
use quant_dss.Base.Dict.{Dict, string_key, lookup}
use quant_dss.Base.Float.{Float}
use quant_dss.Paper.{
  PaperTrade, Account, closed, is_eod, close_trade, check_trade, visit, check_paper_trades,
}

module _ {W : Type 0} ⦃f : Float W⦄ where
  -- The trade is closed, or there is no price of its symbol.
  abbrev pub IsSettled : Dict String W → PaperTrade W → Type 0
  IsSettled ltps t = (t.status ≡ closed) ⊎ (lookup t.symbol ltps ≡ none)

  visit-IsSettled :
      (now : ℕ) (ltps : Dict String W) (t : PaperTrade W) (a : Account W)
      → is_eod now ≡ true
      → IsSettled ltps (visit now ltps t a).0
  unfolding visit check_trade close_trade
  visit-IsSettled now ltps t a e = ground arith

  -- After a run of the monitor at or after 15:15 in India, of whatever trades, each is
  -- closed or of a symbol that the run had no price of.
  pub check_paper_trades-IsSettled :
      (now : ℕ) (ltps : Dict String W) (ts : List (PaperTrade W)) (a : Account W)
      → is_eod now ≡ true
      → All (IsSettled ltps) (check_paper_trades now ltps ts a).0
  check_paper_trades-IsSettled now ltps [] a e = tt
  check_paper_trades-IsSettled now ltps (t ∷ ts) a e = (
    visit-IsSettled now ltps t a e,
    check_paper_trades-IsSettled now ltps ts (visit now ltps t a).1 e,
  )
