-- ===== src/AutoTrader/Trades.antt =====
-- engine/auto_trader_engine.py: the close of a position by a reverse signal, and the entry.
use quant_dss.Base.{ℕ, Bool, Option, some, none, List, ◌∷◌, map, String, if◌then◌else◌, filter}
use quant_dss.Base.Int.{ℤ, pos, negsuc}
use quant_dss.Base.Float.{Float, nought}
use quant_dss.Base.Exec.{ok, raised, Exec}
use quant_dss.Execution.Mode.{TradingMode, Route, to_paper, to_broker, route_execution, get_mode}
use quant_dss.Paper.{Direction, buy, sell}
use quant_dss.AutoTrader.{
  Position, Settings, Event, LogRow, Book, Desk, closed, is_reversed, opposite, one_or_none,
  signal_exit, add_log,
}

abbrev multiplier : Direction → ℤ
multiplier buy = pos 1
multiplier sell = negsuc 0

module _ {W : Type 0} where
  -- `LiveTrade if route == "live" else PaperTrade`
  abbrev pub table : Option Route → Book W → List (Position W)
  table none b = b.paper
  table (some to_paper) b = b.paper
  table (some to_broker) b = b.live

  abbrev pub set_table : Option Route → List (Position W) → Book W → Book W
  set_table none l b = record b { paper = l }
  set_table (some to_paper) l b = record b { paper = l }
  set_table (some to_broker) l b = record b { live = l }

  abbrev pub log_row : TradingMode → String → Direction → Event W → Option ℕ → LogRow W
  log_row mode symbol signal event trade_id = record {
    symbol = symbol;
    signal = signal;
    mode = some mode;
    event = event;
    trade_id = trade_id;
  }

module _ {W : Type 0} ⦃f : Float W⦄ where
  abbrev amount : Position W → W
  amount t = f.mul (f.of_int t.quantity) t.entry_price

  -- The profit of a close, less the estimated costs.
  unfoldable pub net_pnl : W → Position W → W
  net_pnl exit_price t =
      let gross =
        f.mul (f.mul (f.sub exit_price t.entry_price) (f.of_int t.quantity))
          (f.of_int (multiplier t.direction)) in
      let cost =
        f.add (f.lit 40 0) (f.mul (f.mul t.entry_price (f.of_int t.quantity)) (f.lit 5 4)) in
      f.sub gross cost

  abbrev pub close_position : (now : ℕ) → W → Position W → Position W
  close_position now exit_price t = record t {
    status = closed;
    exit_price = some exit_price;
    closed_at = some now;
    realized_pnl = net_pnl exit_price t;
  }

  -- The margin and the profit go back to the balance on paper only.
  abbrev credited : Option Route → W → Position W → Option W → Option W
  credited none pnl t balance = balance
  credited (some to_broker) pnl t balance = balance
  credited (some to_paper) pnl t none = none
  credited (some to_paper) pnl t (some b) =
      some (f.add (f.add b (f.quotient (amount t) (f.lit 5 0))) pnl)

  -- The writes of a close of the trade `t` that was found.
  unfoldable pub settle :
      {K : Type 0}
      → (now : ℕ) → Option Route
      → TradingMode
      → Direction
      → W
      → Position W
      → Desk W K
      → Desk W K
  settle now route mode signal exit_price t d =
      let pnl = net_pnl exit_price t in
      let found = is_reversed t.symbol (opposite signal) in
      let rows =
        map (λ s. if found s then close_position now exit_price s else s) (table route d.book) in
      record d {
        book = add_log (log_row mode t.symbol signal signal_exit (some t.id)) (
            set_table route rows
              (record (d.book) { balance = credited route pnl t d.book.balance }));
        outcomes = elim t.strategy_id [ none ↦ d.outcomes | some i ↦ (i, pnl) ∷ d.outcomes ];
      }

  -- `_close_trade`: the profit, if a trade was closed.
  unfoldable pub close_trade :
      {K : Type 0}
      → (now : ℕ) → (lock : Bool) → Settings W
      → (symbol : String) → Direction
      → W
      → Exec (Desk W K) (Option W)
  close_trade now lock cfg symbol signal exit_price d =
      let route = route_execution lock (some cfg.trading) none in
      let found = filter (is_reversed symbol (opposite signal)) (table route d.book) in
      elim (one_or_none found) [
        | raised e ↦ (raised e, d)
        | ok none ↦ (ok none, d)
        | ok (some t) ↦ if f.le exit_price nought then (ok none, d) else (
          ok (some (net_pnl exit_price t)),
          settle now route (get_mode lock (some cfg.trading)) signal exit_price t d,
        )
      ]
