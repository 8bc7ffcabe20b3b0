-- ===== src/Pipeline/Tests.antt =====
-- Runs of the layers on fixed-point numbers, and their theorems at concrete inputs.

use quant_dss.Base.{ℕ, ◌*◌, ◌+◌, ◌≡◌, refl, true, ◌==◌, Option, none, some, List, [], ◌∷◌, String}
use quant_dss.Base.Int.{ℤ, pos}
use quant_dss.Base.Fixed.{fixed_float}
use quant_dss.Base.Text.{codes}
use quant_dss.Signal.{CandidateSignal, aware, is_scanner}
use quant_dss.Pipeline.Consolidation.{
  ConsolidatedSignal, merge, merge_all, consolidated, process_signal_group,
}
use quant_dss.Pipeline.Merged.{Consolidates, process_signal_group-Consolidates}
use quant_dss.Pipeline.Meta.{is_strategy_allowed, filter_signal}
use quant_dss.Pipeline.Confirmation.{verify_confirmation}
use quant_dss.Pipeline.Quality.{
  strategy_score, volume_score, trend_score, vwap_score, strength_score, spread_score, score_of,
  score_signal,
}
use quant_dss.Pipeline.Gates.{evaluate_regime, evaluate_time, evaluate_liquidity}
use quant_dss.Pipeline.Front.{chain, front, Vetted, front-Vetted}

-- A signal of a strategy at a minute after 09:30 in India.
abbrev candidate : (name type : String) → (minute entry stop : ℕ) → CandidateSignal ℤ
candidate name type minute entry stop = record {
  symbol_id = 1;
  strategy_id = 7;
  strategy_name = name;
  signal_type = type;
  entry_price = pos (entry * 10000);
  stop_loss = pos (stop * 10000);
  target_price = pos (130 * 10000);
  atr_value = pos 20000;
  candle_time = aware (14_400_000_000 + minute * 60_000_000);
  confidence_score = pos 0;
  symbol_name = "TCS";
  strategies = name ∷ [];
  base_strategy = name;
  indicator_snapshot = ("ema_50", pos 900000) ∷ ("ema_200", pos 800000) ∷ ("vwap", pos 950000) ∷ [];
  volume_ratio = pos 25000;
  spread = pos 0;
  relative_strength = pos 5000;
  market_regime = none;
  metadata = [];
  strategy = none;
  instrument_key = none;
}

abbrev group : List (CandidateSignal ℤ)
group =
    candidate "Trend Continuation" "BUY" 2 110 108
    ∷ candidate "ORB VWAP" "BUY" 0 100 95
    ∷ candidate "ORB VWAP" "BUY" 1 101 96
    ∷ []

-- The earliest signal is the primary one, and its stop of 95 gives way to the one of 108, which is
-- nearer to another entry and above the entry of 100.
abbrev summary : Option (ConsolidatedSignal ℤ) → List ℤ
summary none = []
summary (some c) = c.entry_price ∷ c.stop_loss ∷ c.target_price ∷ []

stop_above_entry :
    summary (process_signal_group group) ≡ pos 1000000 ∷ pos 1080000 ∷ pos 1300000 ∷ []
unfolding process_signal_group merge
stop_above_entry = refl

conflict_drops : summary (process_signal_group (candidate "ORB VWAP" "SELL" 3 100 105 ∷ group)) ≡ []
unfolding process_signal_group
conflict_drops = refl

-- A strategy that the table of the regime of low liquidity does not list stays allowed.
low_liquidity_allows : is_strategy_allowed (codes "trend_pullback") "LOW_LIQUIDITY" ≡ true
unfolding is_strategy_allowed
low_liquidity_allows = refl

abbrev merged : ConsolidatedSignal ℤ
merged =
    merge_all
      (candidate "ORB VWAP" "BUY" 1 101 96 ∷ candidate "Trend Continuation" "BUY" 2 110 108 ∷ [])
      (consolidated (candidate "ORB VWAP" "BUY" 0 100 95))

abbrev vetted : ConsolidatedSignal ℤ
vetted = record merged {
  total_confirmation_weight = some (pos 27000);
  quality_score = some (pos 920000);
}

-- At 09:30 the time filter lets it through, and the liquidity filter as well.
time_passes : chain (evaluate_time vetted) (evaluate_liquidity (pos 5000) (pos 50)) ≡ some vetted
unfolding evaluate_time evaluate_liquidity merge
time_passes = refl

process_signal_group-Consolidates_example : Consolidates group merged
unfolding process_signal_group
process_signal_group-Consolidates_example = process_signal_group-Consolidates group merged refl

front-Vetted_example : Vetted (λ i. i == 9) (some "TREND") (some "HIGH_VOLATILITY") group vetted
unfolding front process_signal_group filter_signal verify_confirmation score_signal evaluate_regime
    is_scanner merge score_of strategy_score volume_score trend_score vwap_score strength_score
    spread_score is_strategy_allowed
front-Vetted_example =
    front-Vetted (λ i. i == 9) (some "TREND") (some "HIGH_VOLATILITY") group vetted refl

abbrev scored_at : (ts score : ℕ) → ConsolidatedSignal ℤ
scored_at ts score = record vetted {
  first_timestamp = aware ts;
  quality_score = some (pos (score * 10000));
}

-- A score of 70 passes at 11:00 in India and not at 14:00.
limited_drops : evaluate_time (scored_at 30_600_000_000 70) ≡ none
unfolding evaluate_time merge
limited_drops = refl
