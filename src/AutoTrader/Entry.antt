-- ===== src/AutoTrader/Entry.antt =====
-- engine/auto_trader_engine.py: `_open_trade`, with its checks in their order.
use quant_dss.Base.{
  ℕ, suc, Bool, true, false, Option, some, none, [], ◌∷◌, ◌++◌, if◌then◌else◌, filter,
}
use quant_dss.Base.Int.{ℤ, pos, ltb_ℤ}
use quant_dss.Base.Float.{Float, nought}
use quant_dss.Base.Exec.{ok, raised, type_error, Exec}
use quant_dss.Execution.Mode.{TradingMode, Route, to_paper, to_broker, route_execution, get_mode}
use quant_dss.Paper.{Direction}
use quant_dss.AutoTrader.{
  Position, Settings, Scan, Event, Desk, opened, is_open_of, one_or_none, disabled_drop,
  invalid_entry, exceeds_capital, already_open, insufficient_balance, from_scanner, add_log,
  set_book, calc_qty,
}
use quant_dss.AutoTrader.Trades.{table, log_row}

module _ {W K : Type 0} where
  -- `_add_log` and the return of False.
  abbrev pub skip : TradingMode → Scan W → Direction → Event W → Exec (Desk W K) Bool
  skip mode scan signal event d =
      (ok false, set_book (add_log (log_row mode scan.symbol signal event none) d.book) d)

module _ {W : Type 0} ⦃f : Float W⦄ where
  abbrev pub margin_req : ℤ → Scan W → W
  margin_req qty scan = f.quotient (f.mul (f.of_int qty) scan.entry_price) (f.lit 5 0)

  abbrev pub new_position : ℕ → ℤ → Scan W → Direction → Position W
  new_position id qty scan signal = record {
    id = id;
    symbol = scan.symbol;
    direction = signal;
    quantity = qty;
    entry_price = scan.entry_price;
    stop_loss = scan.stop_loss;
    target_price = scan.target_price;
    status = opened;
    exit_price = none;
    realized_pnl = nought;
    closed_at = none;
    strategy_id = none;
    risk_amount = none;
  }

  -- `risk_cfg_model and float(risk_cfg_model.paper_balance) < margin_req`
  abbrev pub is_short : Option W → W → Bool
  is_short none margin = false
  is_short (some b) margin = f.lt b margin

  abbrev pub debited : W → Option W → Option W
  debited margin none = none
  debited margin (some b) = some (f.sub b margin)

  module _ {K : Type 0} where
    -- The new row, its log and the balance.
    abbrev pub add_position : TradingMode → ℤ → Scan W → Direction → Desk W K → Desk W K
    add_position mode qty scan signal d =
        let row = log_row mode scan.symbol signal (from_scanner qty) (some (d.book.next_id)) in
        set_book
          (add_log row (record (d.book) {
            paper = d.book.paper ++ new_position d.book.next_id qty scan signal ∷ [];
            next_id = suc d.book.next_id;
            balance = debited (margin_req qty scan) d.book.balance;
          }))
          d

    -- The entry itself. For the broker, `place_order` gets an argument `signal_id` that it does not
    -- have, which is a TypeError.
    unfoldable pub enter : Route → TradingMode → ℤ → Scan W → Direction → Exec (Desk W K) Bool
    enter to_broker mode qty scan signal d = (raised type_error, d)
    enter to_paper mode qty scan signal d =
        if is_short d.book.balance (margin_req qty scan)
        then skip mode scan signal (insufficient_balance (margin_req qty scan)) d
        else (ok true, add_position mode qty scan signal d)

    -- From the duplicate check on.
    unfoldable pub open_sized : Route → TradingMode → ℤ → Scan W → Direction → Exec (Desk W K) Bool
    open_sized route mode qty scan signal d =
        elim (one_or_none (filter (is_open_of scan.symbol) (table (some route) d.book))) [
          | raised e ↦ (raised e, d)
          | ok (some t) ↦ skip mode scan signal already_open d
          | ok none ↦ enter route mode qty scan signal d
        ]

    -- From the check of the price on.
    unfoldable pub open_routed :
        Route → TradingMode → Settings W → Scan W → Direction → Exec (Desk W K) Bool
    open_routed route mode cfg scan signal d =
        if f.le scan.entry_price nought
        then skip mode scan signal invalid_entry d
        else elim (calc_qty cfg scan.entry_price none) [
          | raised e ↦ (raised e, d)
          | ok qty ↦
              if ltb_ℤ qty (pos 1)
              then skip mode scan signal exceeds_capital d
              else open_sized route mode qty scan signal d
        ]

    -- `_open_trade`, which a batch calls without a quantity of the risk engine.
    unfoldable pub open_trade : (lock : Bool) → Settings W → Scan W → Exec (Desk W K) Bool
    open_trade lock cfg scan d =
        let mode = get_mode lock (some cfg.trading) in
        elim scan.signal [
          | none ↦ (ok false, d)
          | some signal ↦ elim (route_execution lock (some cfg.trading) none) [
            | none ↦ skip mode scan signal disabled_drop d
            | some route ↦ open_routed route mode cfg scan signal d
          ]
        ]
