-- ===== src/SignalPool/Tests.antt =====
-- Runs of the signal pool, and its theorems at concrete inputs.
use quant_dss.Base.{ℕ, ◌≡◌, refl, true, none, some, Option, List, [], ◌∷◌, String}
use quant_dss.Base.Int.{ℤ, pos}
use quant_dss.Base.Dict.{nat_key, string_key}
use quant_dss.Signal.{CandidateSignal, naive}
use quant_dss.SignalPool.{SignalPool, new_pool, add_signal, flush_items, check_and_flush}
use quant_dss.SignalPool.Waiting.{IsKept, check_and_flush-IsKept}
use quant_dss.SignalPool.Window.{calls}

abbrev signal : ℕ → String → CandidateSignal ℤ
signal sid name = record {
  symbol_id = sid;
  strategy_id = 7;
  strategy_name = name;
  signal_type = "BUY";
  entry_price = pos 1000000;
  stop_loss = pos 950000;
  target_price = pos 1100000;
  atr_value = pos 20000;
  candle_time = naive 0;
  confidence_score = pos 0;
  symbol_name = "TCS";
  strategies = [];
  base_strategy = "";
  indicator_snapshot = [];
  volume_ratio = pos 10000;
  spread = pos 0;
  relative_strength = pos 0;
  market_regime = none;
  metadata = [];
  strategy = none;
  instrument_key = none;
}

-- Two strategies on one symbol, and one on another that comes 1.5 seconds later.
abbrev events : List (ℕ × Option (CandidateSignal ℤ))
events =
    (0, some (signal 1 "ema"))
    ∷ (500_000, some (signal 1 "rsi"))
    ∷ (600_000, none)
    ∷ (1_500_000, some (signal 2 "ema"))
    ∷ []

abbrev waiting : SignalPool ℤ
waiting = calls events (new_pool 2)

first_symbol_is_flushed :
    (check_and_flush true 2_000_000 waiting).1 ≡ ((signal 1 "ema" ∷ signal 1 "rsi" ∷ []) ∷ [])
unfolding check_and_flush flush_items add_signal
first_symbol_is_flushed = refl

check_and_flush-IsKept_example :
    IsKept 1
      (("ema", signal 1 "ema") ∷ ("rsi", signal 1 "rsi") ∷ [])
      (check_and_flush true 2_000_000 waiting)
unfolding check_and_flush flush_items add_signal
check_and_flush-IsKept_example =
    check_and_flush-IsKept 2_000_000 waiting 1 "ema" (signal 1 "ema") (("rsi", signal 1 "rsi") ∷ [])
      refl
