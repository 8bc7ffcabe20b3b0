-- ===== src/Monitor/Tests.antt =====
-- Runs of the trade monitor on fixed-point numbers, and its theorems at concrete inputs.
use quant_dss.Base.{ℕ, ◌+◌, ◌≡◌, refl, true, false, some, none, List, [], ◌∷◌, arith}
use quant_dss.Base.Int.{ℤ, pos}
use quant_dss.Base.Fixed.{fixed_float, fixed-IsOrdered}
use quant_dss.Leases.Keys.{Keys, keys_redis, keys-IsRedis}
use quant_dss.Paper.{PaperTrade, buy, opened}
use quant_dss.Monitor.{
  Round, Till, is_eod, get_trading_state, calc_pnl, add_to_daily_pnl, watch_paper, visit_paper,
  check_paper_trades,
}
use quant_dss.Monitor.Stops.{Run, IsKept, IsRounding, watch_all, watch_all-IsKept}
use quant_dss.Monitor.Once.{square_off-once}
use quant_dss.Monitor.Live.{Room, watch_live, visit_live}
use quant_dss.Orders.Types.{LiveTrade, pending}
use quant_dss.Orders.Types
use quant_dss.Orders.Close.{place_market_close_order}
use quant_dss.Monitor.Book.{booked, check_paper_trades-booked}

fixed-IsRounding : IsRounding ℤ
fixed-IsRounding = record { round_le = λ x y h. h; round_round = λ x. refl }

abbrev long : PaperTrade ℤ
long = record {
  id = 1;
  symbol = "TCS";
  direction = buy;
  quantity = pos 10;
  entry_price = pos 1000000;
  stop_loss = pos 950000;
  target_price = pos 1200000;
  status = opened;
  exit_price = none;
  realized_pnl = pos 0;
  closed_at = none;
}

abbrev till : Till ℤ Keys
till = record { store = []; day_pnl = some (pos 0) }

abbrev round_at : (now : ℕ) → Round
round_at now = record { now = now; state = none; token = true; lock_key = λ b id. "lock" }

abbrev noon : ℕ
noon = 23_400_000_000

-- At 15:20 it is the end of the day, at 16:05 it is not.
end_of_day : (is_eod 35_400_000_000 ≡ true) × (is_eod 38_100_000_000 ≡ false)
unfolding is_eod
end_of_day = (refl, refl)

-- A stop of 95 that the price jumps over is booked at the stop.
books_at_stop :
    (check_paper_trades (round_at noon) (λ t. some (pos 900000)) (long ∷ []) till).1.day_pnl
    ≡ add_to_daily_pnl (calc_pnl true (pos 1000000) (pos 10) (pos 950000)) (some (pos 0))
unfolding visit_paper watch_paper is_eod get_trading_state
books_at_stop = refl

abbrev runs : List (Run ℤ)
runs = (round_at noon, λ t. some (pos 1100000)) ∷ (round_at noon, λ t. some (pos 1080000)) ∷ []

watch_all-IsKept_example : IsKept true (pos 950000) (watch_all runs long till).0.stop_loss
watch_all-IsKept_example =
    watch_all-IsKept fixed-IsOrdered fixed-IsRounding runs long till refl refl

check_paper_trades-booked_example :
    (check_paper_trades (round_at noon) (λ t. some (pos 900000)) (long ∷ []) till).1.day_pnl
    ≡ booked
        (long ∷ [])
        (check_paper_trades (round_at noon) (λ t. some (pos 900000)) (long ∷ []) till).0
        (some (pos 0))
check_paper_trades-booked_example =
    check_paper_trades-booked (round_at noon) (λ t. some (pos 900000)) (long ∷ []) till

abbrev held : LiveTrade ℤ
held = record {
  id = 1;
  direction = Types.buy;
  quantity = pos 10;
  entry_price = pos 1000000;
  stop_loss = pos 950000;
  target_price = pos 1200000;
  strategy_id = none;
  broker_order_id = some "E";
  filled_quantity = pos 10;
  average_price = pos 1000000;
  sl_order_id = some "S";
  target_order_id = some "T";
  risk_amount = none;
  status = Types.opened;
  exit_price = none;
  realised_pnl = none;
  close_reason = "";
  closed_at = none;
}

abbrev room : Room ℤ Keys
room = record {
  store = [];
  floor = record {
    desk = record {
      cancels = [];
      retries = [];
      outcomes = [];
      day_pnl = none;
      replies = some "M" ∷ some "N" ∷ [];
    };
    closes = [];
  };
}

abbrev evening : ℕ
evening = 35_400_000_000

square_off-once_example :
    let x = watch_live (round_at evening) true (pos 1000000) held room in
    let y =
      visit_live (round_at (evening + 15_000_000)) (λ t. true) (λ t. some (pos 1000000)) x.0 x.1 in
    (y.0 ≡ x.0) × (y.1.floor ≡ x.1.floor)
unfolding is_eod get_trading_state place_market_close_order
square_off-once_example =
    square_off-once keys-IsRedis (round_at evening) (round_at (evening + 15_000_000)) held room
      (λ t. true) (λ t. some (pos 1000000)) (pos 1000000) refl refl refl (omega arith) (omega arith)
      refl refl
