-- ===== src/Strategies/Tests.antt =====
-- The strategies on fixed-point numbers, and their theorems at concrete inputs.
use quant_dss.Base.{ℕ, zero, suc, ◌≡◌, ◌≢◌, refl, some, List, [], ◌∷◌, inl, inr}
use quant_dss.Base.Int.{ℤ, pos}
use quant_dss.Base.Fixed.{fixed_float, fixed-IsOrdered}
use quant_dss.Base.Exec.{ok, raised, type_error}
use quant_dss.Signal.{CandidateSignal, naive}
use quant_dss.Strategies.{Bar, Setup, signal}
use quant_dss.Strategies.Crossover.{evaluate_crossover, crossover, crossover_score}
use quant_dss.Strategies.Reclaim.{evaluate_reclaim, reclaim, reclaimed}
use quant_dss.Strategies.Registry.{ema_crossover, vwap_reclaim, evaluate}
use quant_dss.Strategies.Score.{IsScaled, IsFair, evaluate-IsFair}
use quant_dss.Strategies.Silent.{evaluate-never}

abbrev setup : Setup ℤ
setup = record { strategy_id = 7; symbol_id = 1; params = []; periods = [] }

-- A bar with averages and a close.
abbrev bar : (fast slow close : ℕ) → Bar ℤ
bar fast slow close = record {
  time = naive 0;
  price_open = pos 1000000;
  high = pos close;
  low = pos 980000;
  close = pos close;
  volume = pos 20000000;
  ema_fast = pos fast;
  ema_slow = pos slow;
  ema_trend = pos slow;
  ema_9 = pos fast;
  ema_21 = pos slow;
  ema_50 = pos slow;
  rsi = pos 500000;
  atr = pos 20000;
  volume_ma = pos 10000000;
  vwap = pos 1005000;
  or_high = pos 1010000;
  or_low = pos 990000;
}

abbrev repeat : ℕ → Bar ℤ → List (Bar ℤ)
repeat zero b = []
repeat (suc n) b = b ∷ repeat n b

abbrev current : Bar ℤ
current = bar 1010000 1000000 1020000

abbrev past : List (Bar ℤ)
past = repeat 30 (bar 990000 1000000 995000)

-- Twice the usual volume, a gap of 1% and a rising average: 50, 15, 5 and 10.
abbrev golden : CandidateSignal ℤ
golden =
    signal setup "ema_crossover" "BUY" current (pos 1020000) (pos 990000) (pos 1080000) (pos 800000)

gives_golden : evaluate ema_crossover setup (current ∷ past) ≡ ok (some golden)
unfolding evaluate_crossover crossover crossover_score signal
gives_golden = refl

-- The close crosses the VWAP with volume, and the signal raises.
raises_at_reclaim : evaluate vwap_reclaim setup (current ∷ past) ≡ raised type_error
unfolding evaluate_reclaim reclaim reclaimed
raises_at_reclaim = refl

fixed-IsScaled : IsScaled ℤ
fixed-IsScaled = record { zero_zero = refl; zero_hundred = refl; hundred_hundred = refl }

evaluate-IsFair_example : IsFair current golden
evaluate-IsFair_example =
    evaluate-IsFair fixed-IsOrdered fixed-IsScaled ema_crossover setup current past golden
      gives_golden

evaluate-never_example : evaluate vwap_reclaim setup (current ∷ past) ≢ ok (some golden)
evaluate-never_example = evaluate-never vwap_reclaim setup (current ∷ past) golden (inr (inl refl))
