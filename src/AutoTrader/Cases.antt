-- ===== src/AutoTrader/Cases.antt =====
-- engine/auto_trader_engine.py: the ways in which a close and an entry end.
use quant_dss.Base.{
  ℕ, ◌≡◌, refl, Bool, true, false, Option, some, none, List, [], ◌∷◌, String, elim_if, elim_option,
  filter,
}
use quant_dss.Base.Int.{ℤ, pos, ltb_ℤ}
use quant_dss.Base.Float.{Float, nought}
use quant_dss.Base.Exec.{Exn, Result, ok, raised, type_error, elim_result}
use quant_dss.Execution.Mode.{TradingMode, Route, to_paper, to_broker, route_execution, get_mode}
use quant_dss.Paper.{Direction}
use quant_dss.AutoTrader.{
  Position, Settings, Scan, Event, Desk, is_open_of, is_reversed, opposite, one_or_none,
  disabled_drop, invalid_entry, exceeds_capital, already_open, insufficient_balance, calc_qty,
}
use quant_dss.AutoTrader.Trades.{table, net_pnl, settle, close_trade}
use quant_dss.AutoTrader.Entry.{
  skip, margin_req, add_position, enter, open_sized, open_routed, open_trade,
}

elim_row {ℓ κ} :
    {A : Type 0} {B : Type ℓ} (P : B → Type κ) (r : Result (Option A)) (x : Exn → B) (y : B)
    (g : A → B)
    → ((e : Exn) → r ≡ raised e → P (x e))
    → (r ≡ ok none → P y)
    → ((a : A) → r ≡ ok (some a) → P (g a))
    → P (elim r [ raised e ↦ x e | ok none ↦ y | ok (some a) ↦ g a ])
elim_row P (raised e) x y g h i k = h e refl
elim_row P (ok none) x y g h i k = i refl
elim_row P (ok (some a)) x y g h i k = k a refl

pub row_none : {A : Type 0} (l : List A) → one_or_none l ≡ ok none → l ≡ []
row_none [] h = refl
row_none (x ∷ []) h = absurd (cc h)
row_none (x ∷ y ∷ l) h = absurd (cc h)

module _ {W : Type 0} ⦃f : Float W⦄ {K : Type 0} where
  pub close_trade_cases :
      (P : Result (Option W) × Desk W K → Type 0) (now : ℕ) (lock : Bool) (cfg : Settings W)
      (symbol : String) (signal : Direction) (price : W) (d : Desk W K)
      → let route = route_execution lock (some cfg.trading) none in
        let found = filter (is_reversed symbol (opposite signal)) (table route d.book) in
        ((e : Exn) → one_or_none found ≡ raised e → P (raised e, d))
        → P (ok none, d)
        → ((t : Position W)
            → one_or_none found ≡ ok (some t)
            → P (
              ok (some (net_pnl price t)),
              settle now route (get_mode lock (some cfg.trading)) signal price t d,
            ))
        → P (close_trade now lock cfg symbol signal price d)
  unfolding close_trade
  close_trade_cases P now lock cfg symbol signal price d h i k =
      elim_row P _ _ _ _ h (λ e. i) (λ t e. elim_if P (f.le price nought) _ _ (λ z. i) (λ z. k t e))

  module _ (P : Result Bool × Desk W K → Type 0) (scan : Scan W) (d : Desk W K)
      (skipped : (mode : TradingMode) (signal : Direction) (event : Event W)
        → P (skip mode scan signal event d))
      (ambiguous : (route : Route) (e : Exn)
        → one_or_none (filter (is_open_of scan.symbol) (table (some route) d.book)) ≡ raised e
        → P (raised e, d))
      (refused : P (raised type_error, d))
      (entered : (mode : TradingMode) (qty : ℤ) (signal : Direction)
        → filter (is_open_of scan.symbol) d.book.paper ≡ []
        → P (ok true, add_position mode qty scan signal d)) where
    enter_cases :
        (route : Route) (mode : TradingMode) (qty : ℤ) (signal : Direction)
        → filter (is_open_of scan.symbol) (table (some route) d.book) ≡ []
        → P (enter route mode qty scan signal d)
    unfolding enter
    enter_cases to_broker mode qty signal h = refused
    enter_cases to_paper mode qty signal h =
        elim_if P _ _ _ (λ short. skipped mode signal (insufficient_balance (margin_req qty scan)))
          (λ e. entered mode qty signal h)

    open_sized_cases :
        (route : Route) (mode : TradingMode) (qty : ℤ) (signal : Direction)
        → P (open_sized route mode qty scan signal d)
    unfolding open_sized
    open_sized_cases route mode qty signal =
        elim_row P _ _ _ _ (ambiguous route) (λ e. enter_cases route mode qty signal (row_none _ e))
          (λ t e. skipped mode signal already_open)

  -- The end of an entry: nothing, a log, an exception, or a new paper trade.
  pub open_trade_cases :
      (P : Result Bool × Desk W K → Type 0) (lock : Bool) (cfg : Settings W) (scan : Scan W)
      (d : Desk W K)
      → P (ok false, d)
      → ((mode : TradingMode) (signal : Direction) (event : Event W)
          → P (skip mode scan signal event d))
      → ((e : Exn) → calc_qty cfg scan.entry_price none ≡ raised e → P (raised e, d))
      → ((route : Route) (e : Exn)
          → one_or_none (filter (is_open_of scan.symbol) (table (some route) d.book)) ≡ raised e
          → P (raised e, d))
      → P (raised type_error, d)
      → ((mode : TradingMode) (qty : ℤ) (signal : Direction)
          → filter (is_open_of scan.symbol) d.book.paper ≡ []
          → P (ok true, add_position mode qty scan signal d))
      → P (open_trade lock cfg scan d)
  unfolding open_trade open_routed
  open_trade_cases P lock cfg scan d nothing skipped unsized ambiguous refused entered =
      let mode = get_mode lock (some cfg.trading) in
      elim_option P scan.signal _ _ (λ e. nothing)
        (λ signal e.
          elim_option P (route_execution lock (some cfg.trading) none) _ _
            (λ off. skipped mode signal disabled_drop)
            (λ route on.
              elim_if P (f.le scan.entry_price nought) _ _ (λ z. skipped mode signal invalid_entry)
                (λ z. elim_result P (calc_qty cfg scan.entry_price none) _ _ unsized (λ qty q.
                  elim_if P (ltb_ℤ qty (pos 1)) _ _ (λ few. skipped mode signal exceeds_capital)
                    (λ many.
                      open_sized_cases P scan d skipped ambiguous refused entered route mode qty
                        signal)))))
