-- ===== src/Strategies/Registry.antt =====
-- engine/strategies/__init__.py and engine/base_strategy.py: the strategies behind one method.
use quant_dss.Base.{Option, List}
use quant_dss.Base.Float.{Float}
use quant_dss.Base.Exec.{Result, ok}
use quant_dss.Signal.{CandidateSignal}
use quant_dss.Strategies.{Bar, Setup}
use quant_dss.Strategies.Crossover.{evaluate_crossover}
use quant_dss.Strategies.Reversion.{evaluate_reversion}
use quant_dss.Strategies.Range.{evaluate_range}
use quant_dss.Strategies.Volume.{evaluate_expansion}
use quant_dss.Strategies.Trend.{evaluate_trend}
use quant_dss.Strategies.Breakout.{evaluate_breakout}
use quant_dss.Strategies.Reclaim.{evaluate_reclaim}
use quant_dss.Strategies.Pullback.{evaluate_pullback}
use quant_dss.Strategies.Relative.{evaluate_relative}

-- The classes of the package.
pub data Strategy : Type 0 where
  ema_crossover rsi_mean_reversion orb_vwap volume_expansion trend_continuation : Strategy
  failed_breakout vwap_reclaim trend_pullback relative_strength : Strategy

module _ {W : Type 0} ⦃f : Float W⦄ where
  -- `BaseStrategy.evaluate`, on a frame with the indicators of the strategy.
  abbrev pub evaluate : Strategy → Setup W → List (Bar W) → Result (Option (CandidateSignal W))
  evaluate ema_crossover s bars = ok (evaluate_crossover s bars)
  evaluate rsi_mean_reversion s bars = ok (evaluate_reversion s bars)
  evaluate orb_vwap s bars = ok (evaluate_range s bars)
  evaluate volume_expansion s bars = ok (evaluate_expansion s bars)
  evaluate trend_continuation s bars = ok (evaluate_trend s bars)
  evaluate failed_breakout s bars = evaluate_breakout s bars
  evaluate vwap_reclaim s bars = evaluate_reclaim s bars
  evaluate trend_pullback s bars = evaluate_pullback s bars
  evaluate relative_strength s bars = evaluate_relative s bars
