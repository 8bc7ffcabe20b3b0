-- ===== src/AutoTrader/Tests.antt =====
-- Batches of the auto trader on fixed-point numbers, and its theorems at concrete inputs.
use quant_dss.Base.{
  ℕ, ◌≤◌, ◌≡◌, refl, Bool, true, false, some, none, List, [], ◌∷◌, ◌++◌, String, arith, any, length,
  map,
}
use quant_dss.Base.Int.{ℤ, pos, ◌≤ℤ◌, ◌-ℤ◌, ◌+ℤ◌}
use quant_dss.Base.Fixed.{fixed_float}
use quant_dss.Base.Exec.{raised, type_error}
use quant_dss.Execution.Mode.{route_execution, should_execute, get_mode, parse_mode}
use quant_dss.Paper.{Direction, buy, sell}
use quant_dss.AutoTrader.{Settings, Scan, Cache, Desk, by_capital, count_open_trades, calc_qty}
use quant_dss.AutoTrader.Trades.{net_pnl, settle, close_trade}
use quant_dss.AutoTrader.Entry.{enter, open_sized, open_routed, open_trade}
use quant_dss.AutoTrader.Batch.{Setting, Turn, try_open, take_slot, consider, process_batch}
use quant_dss.AutoTrader.Queue.{enqueue_all, newest, maxsize, enqueue_all-newest}
use quant_dss.AutoTrader.Sound.{Sound}
use quant_dss.AutoTrader.Limit.{process_batch-AtMost}
use quant_dss.AutoTrader.Single.{AreSingle, IsOther, process_batch-AreSingle}
use quant_dss.AutoTrader.Schedule.{Run, is_market_hours, candidate, feed, run_auto_trader}
use quant_dss.Leases.{Redis}
use quant_dss.Leases.Dedup.{is_duplicate}
use quant_dss.SignalPool.{new_pool, add_signal}
use text.Mathlib.Text.{◌==◌ as str_eq}

instance abbrev listed : Cache (List String)
listed = record { exists = λ k l. any (str_eq k) l; setex = λ k n l. k ∷ l }

abbrev setting : (lock : Bool) → Setting ℤ
setting lock = record {
  now = 7;
  lock = lock;
  strategy = "ema_crossover";
  timeframe = "5min";
  signal_id = λ symbol d s t price. symbol;
}

abbrev settings : (mode : String) → Settings ℤ
settings mode = record {
  trading = record { enabled = true; mode = some mode };
  sizing_mode = by_capital;
  capital_per_trade = pos 100000000;
  qty_per_trade = pos 1;
  max_open_positions = pos 1;
}

abbrev scan : String → Direction → ℤ → Scan ℤ
scan symbol d price = record {
  symbol = symbol;
  signal = some d;
  entry_price = price;
  stop_loss = price;
  target_price = price;
  risk_reward = pos 20000;
}

abbrev desk : Desk ℤ (List String)
desk = record {
  book = record {
    paper = [];
    live = [];
    next_id = 1;
    balance = some (pos 1000000000);
    day = none;
    log = [];
  };
  saved = record {
    paper = [];
    live = [];
    next_id = 1;
    balance = some (pos 1000000000);
    day = none;
    log = [];
  };
  keys = [];
  outcomes = [];
}

abbrev results : List (Turn ℤ)
results =
    (scan "TCS" buy (pos 1000000), true)
    ∷ (scan "INFY" buy (pos 1000000), true)
    ∷ (scan "TCS" sell (pos 1100000), true)
    ∷ []

-- The first signal is traded, the second one finds no slot, and the third one closes the first. The
-- fixed id of the test is then known, so it opens nothing.
trades_and_closes :
    (process_batch (setting false) (some (settings "paper")) results desk).1.book.balance
    ≡ some (pos 1009550000)
unfolding process_batch consider take_slot try_open close_trade open_trade open_routed open_sized
    enter settle net_pnl calc_qty count_open_trades route_execution should_execute get_mode
    parse_mode ◌-ℤ◌ ◌+ℤ◌
trades_and_closes = refl

-- For the broker, the first signal that passes the checks ends the batch.
raises_for_broker :
    (process_batch (setting true) (some (settings "live")) results desk).0 ≡ raised type_error
unfolding process_batch consider take_slot try_open close_trade open_trade open_routed open_sized
    enter settle net_pnl calc_qty count_open_trades route_execution should_execute get_mode
    parse_mode ◌-ℤ◌ ◌+ℤ◌
raises_for_broker = refl

process_batch-AtMost_example :
    pos (
      count_open_trades
        (process_batch (setting false) (some (settings "paper")) results desk).1.book)
    ≤ℤ pos 1
unfolding count_open_trades
process_batch-AtMost_example =
    process_batch-AtMost (setting false) (settings "paper") results desk refl

process_batch-AreSingle_example :
    Sound AreSingle IsOther (process_batch (setting false) (some (settings "paper")) results desk)
process_batch-AreSingle_example =
    process_batch-AreSingle (setting false) (settings "paper") results desk
      (λ s. omega arith, λ s. omega arith) (λ s. omega arith, λ s. omega arith)

abbrev history : List ℕ
history = 3 ∷ []

abbrev more : List ℕ
more = 1 ∷ 2 ∷ []

enqueue_all-newest_example :
    (enqueue_all more (newest history) ≡ newest (history ++ more))
    × (length (enqueue_all more (newest history)) ≤ maxsize)
enqueue_all-newest_example = enqueue_all-newest more history

-- A Redis without any key, which takes each key as new.
instance abbrev forgetful : Redis Unit
forgetful = record {
  get = λ now k s. none;
  set_nx = λ now k v ttl s. (true, s);
  del = λ now k s. s;
}

abbrev run : Run ℤ
run = record {
  strategy = "ema_crossover";
  trace_id = "t";
  scan_one = λ symbol. some (scan symbol buy (pos 1000000));
  make_key = λ a b t. "key";
  ttl = 600;
}

abbrev watchlist : List (ℕ × String)
watchlist = (1, "TCS") ∷ (2, "INFY") ∷ []

-- Of two symbols with a signal, the last one is left.
keeps_the_last :
    map
      (λ x. map (λ y. y.1.metadata) x.1)
      (run_auto_trader 1 10 0
        (some (record { enabled = true; mode = none }))
        false
        run
        watchlist
        (tt, new_pool 2)).1.pool
    ≡ ((("symbol_name", "INFY") ∷ ("source", "scheduled_auto_trader") ∷ ("trace_id", "t") ∷ [])
        ∷ [])
      ∷ []
unfolding run_auto_trader is_market_hours feed candidate is_duplicate add_signal
keeps_the_last = refl
