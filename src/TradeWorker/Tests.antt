-- ===== src/TradeWorker/Tests.antt =====
-- Signals that the worker takes, on fixed-point numbers, and its theorems at concrete inputs.
use quant_dss.Base.{ℕ, ◌+◌, ◌≡◌, ◌⊎◌, refl, true, false, some, none, [], ◌∷◌, arith}
use quant_dss.Base.Int.{ℤ, pos}
use quant_dss.Base.Fixed.{fixed_float}
use quant_dss.Base.Exec.{ok}
use quant_dss.Leases.Keys.{Keys, keys_redis, keys-IsRedis}
use quant_dss.Monitor.{get_trading_state}
use quant_dss.TradeWorker.{
  Numbers, Message, Config, World, aware, repeated, executed, is_market_hours, is_stale,
}
use quant_dss.TradeWorker.Paper.{execute_paper_trade, quantity_for, book_sized, new_row}
use quant_dss.TradeWorker.Handle.{
  is_trading_enabled, execute, check_config, check_halts, claim, handle_signal,
}
use quant_dss.TradeWorker.Opens.{Opens, handle_signal-Opens}
use quant_dss.TradeWorker.Release.{handle_signal-released}
use quant_dss.TradeWorker.Single.{IsSingle, handle_all, handle_all-IsSingle}

abbrev numbers : Numbers ℤ
numbers = record {
  entry_price = pos 1000000;
  stop_loss = pos 950000;
  target_price = pos 1200000;
  quantity = pos 0;
}

abbrev noon : ℕ
noon = 23_400_000_000

abbrev message : Message ℤ
message = record {
  symbol = "TCS";
  signal_type = "BUY";
  numbers = ok numbers;
  candle_time = aware noon;
  is_replay = false;
  is_scanner = false;
  key = "executed_signal:TCS_BUY_[]_";
  reservation = some "risk_reservation:7";
}

abbrev world_in : Config ℤ → World ℤ Keys
world_in cfg = record {
  store = [];
  cfg = some cfg;
  paper = [];
  live_count = 0;
  balance = some (pos 1000000000);
  orders = [];
  published = [];
}

abbrev on_paper : Config ℤ
on_paper = record {
  enabled = true;
  mode = "paper";
  max_open_positions = pos 3;
  capital_per_trade = pos 100000000;
}

abbrev world : World ℤ Keys
world = world_in on_paper

-- The quantity is the capital over the price; the message that goes out has the one of the signal.
opens_once :
    ((handle_signal noon message world).0 ≡ ok executed)
    × ((handle_signal noon message world).1.paper ≡ new_row message numbers (pos 100) ∷ [])
    × ((handle_signal (noon + 1) message (handle_signal noon message world).1).0 ≡ ok repeated)
unfolding handle_signal claim check_halts check_config execute is_stale is_market_hours
    execute_paper_trade quantity_for book_sized is_trading_enabled get_trading_state
opens_once = (refl, refl, refl)

handle_signal-Opens_example :
    ((handle_signal noon message world).1.paper ≡ world.paper)
    ⊎ Opens noon message world (handle_signal noon message world).1
handle_signal-Opens_example = handle_signal-Opens noon message world

handle_signal-released_example :
    keys_redis.get noon "risk_reservation:7" (handle_signal noon message world).1.store ≡ none
unfolding is_stale
handle_signal-released_example =
    handle_signal-released keys-IsRedis noon message numbers "risk_reservation:7" world refl refl
      refl refl refl noon (omega arith)

handle_all-IsSingle_example :
    IsSingle (handle_all ((noon, message) ∷ (noon + 1, message) ∷ []) world).paper
handle_all-IsSingle_example =
    handle_all-IsSingle ((noon, message) ∷ (noon + 1, message) ∷ []) world
      (λ symbol direction. omega arith)
