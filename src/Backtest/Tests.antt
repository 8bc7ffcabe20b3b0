-- ===== src/Backtest/Tests.antt =====
-- Backtests on fixed-point numbers, and their theorems at concrete inputs.
use quant_dss.Base.{
  ℕ, zero, suc, ◌+◌, ◌*◌, ◌≡◌, refl, true, false, none, some, List, [], ◌∷◌, arith,
}
use quant_dss.Base.Int.{ℤ, pos, negsuc}
use quant_dss.Base.Fixed.{fixed_float}
use quant_dss.Signal.{CandidateSignal, naive}
use quant_dss.Risk.Types.{plain, refused, approved, blocked, daily_loss_limit_reached}
use quant_dss.Backtest.Types.{Bar, BacktestTrade, BacktestEngine, Simulation, stop_hit, target_hit}
use quant_dss.Backtest.Trade.{trailed, exit_of}
use quant_dss.Backtest.Engine.{step, simulate, start, run}
use quant_dss.Backtest.Balance.{IsBooked, run-IsBooked}
use quant_dss.Backtest.Halt.{idle, run_halted-idle}
use quant_dss.Backtest.Metrics.{compute_metrics, longest_run, max_losing_streak-longest_run}
use quant_dss.Backtest.WalkForward.{Answer, walk_forward_test, walk_forward_test-ends}

-- A signal to buy, with the stop at 95 and the target at 110.
abbrev long : CandidateSignal ℤ
long = record {
  symbol_id = 1;
  strategy_id = 7;
  strategy_name = "ema";
  signal_type = "BUY";
  entry_price = pos 1000000;
  stop_loss = pos 950000;
  target_price = pos 1100000;
  atr_value = pos 20000;
  candle_time = naive 0;
  confidence_score = pos 0;
  symbol_name = "TCS";
  strategies = [];
  base_strategy = "";
  indicator_snapshot = [];
  volume_ratio = pos 10000;
  spread = pos 0;
  relative_strength = pos 0;
  market_regime = none;
  metadata = [];
  strategy = none;
  instrument_key = none;
}

-- Every bar gives a signal; the first one is approved with ten shares, the next ones hit the limit
-- of the day.
abbrev engine : BacktestEngine ℤ ℕ ℕ
engine = record {
  evaluate = λ window. some long;
  min_candles_required = 1;
  validate = λ signal state portfolio asked. elim asked [
    | zero ↦ (record (plain approved) { quantity = some (pos 10) }, 1)
    | suc n ↦ (refused blocked daily_loss_limit_reached, suc (suc n))
  ];
  initial_balance = pos 1000000000;
  enable_trailing_stop = true;
  trailing_atr_trigger = pos 10000;
  trailing_atr_distance = pos 10000;
}

abbrev bar : (time date : ℕ) → (o h l c : ℕ) → Bar ℤ ℕ
bar time date o h l c = record {
  time = time;
  date = some date;
  open_price = pos (o * 10000);
  high = pos (h * 10000);
  low = pos (l * 10000);
  close = pos (c * 10000);
  columns = 0;
}

-- The signal of the second bar is filled at the open of the third one, whose low reaches the stop,
-- and the signal that follows halts the day.
abbrev past : List (Bar ℤ ℕ)
past = bar 1 1 100 101 99 100 ∷ bar 2 1 100 101 99 100 ∷ bar 3 1 101 102 94 96 ∷ []

stop_is_hit :
    (run engine past 0).trades
    ≡ (record {
      entry_time = 3;
      exit_time = some 3;
      signal_type = "BUY";
      entry_price = pos 1010000;
      exit_price = pos 950000;
      stop_loss = pos 950000;
      target_price = pos 1100000;
      quantity = pos 10;
      pnl = negsuc 599999;
      exit_reason = stop_hit;
      trailing_activated = false;
    })
      ∷ []
unfolding run simulate step trailed exit_of
stop_is_hit = refl

-- A long trade that opens at 90, below its stop of 95, is booked at the price of the stop, which
-- the bar never reached, with a profit of 50.
gap_is_a_profit :
    (run engine
      (bar 1 1 100 101 99 100 ∷ bar 2 1 100 101 99 100 ∷ bar 3 1 90 91 89 90 ∷ [])
      0).balance
    ≡ pos 1000500000
unfolding run simulate step trailed exit_of
gap_is_a_profit = refl

run-IsBooked_example : IsBooked (pos 1000000000) (run engine past 0)
run-IsBooked_example = run-IsBooked engine past 0

abbrev halted : Simulation ℤ ℕ
halted = (simulate engine [] past (start engine 0)).1

run_halted-idle_example :
    let more = bar 4 1 97 98 90 91 ∷ bar 5 1 91 92 90 91 ∷ [] in
    ((simulate engine (simulate engine [] past (start engine 0)).0 more halted).1
      ≡ idle more halted)
    × (halted.open_trade ≡ none)
    × (halted.pending ≡ none)
unfolding simulate step trailed exit_of
run_halted-idle_example =
    run_halted-idle engine 0 [] past (bar 4 1 97 98 90 91 ∷ bar 5 1 91 92 90 91 ∷ []) refl
      (refl, (refl, tt))

abbrev closed_with : ℤ → BacktestTrade ℤ
closed_with pnl = record {
  entry_time = 1;
  exit_time = some 2;
  signal_type = "BUY";
  entry_price = pos 1000000;
  exit_price = pos 1000000;
  stop_loss = pos 950000;
  target_price = pos 1100000;
  quantity = pos 10;
  pnl = pnl;
  exit_reason = target_hit;
  trailing_activated = false;
}

max_losing_streak-longest_run_example :
    let trades =
      closed_with (negsuc 0)
      ∷ closed_with (pos 1)
      ∷ closed_with (negsuc 4)
      ∷ closed_with (negsuc 1)
      ∷ [] in
    (compute_metrics (pos 10) (pos 10) trades (pos 10 ∷ [])).max_losing_streak ≡ longest_run trades
max_losing_streak-longest_run_example =
    max_losing_streak-longest_run (pos 10) (pos 10)
      (closed_with (negsuc 0)
        ∷ closed_with (pos 1)
        ∷ closed_with (negsuc 4)
        ∷ closed_with (negsuc 1)
        ∷ [])
      (pos 10 ∷ [])

-- Candles of one price, five ticks apart.
abbrev flat : (n time : ℕ) → List (Bar ℤ ℕ)
flat zero t = []
flat (suc n) t = bar t 1 100 101 99 100 ∷ flat n (t + 5)

-- Months of thirty days of ten ticks each.
abbrev months : ℕ → ℕ → ℕ
months n t = t + n * 300

walk_forward_test-ends_example :
    (a : Answer ℤ) × (walk_forward_test months 701 engine (flat 120 10) 0 1 0 ≡ some a)
walk_forward_test-ends_example =
    walk_forward_test-ends months 700 engine (flat 120 10) 0 1 0 (λ t. omega arith)
      (λ t. omega arith) (omega arith)
