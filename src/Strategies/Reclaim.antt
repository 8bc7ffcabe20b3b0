-- ===== src/Strategies/Reclaim.antt =====
-- engine/strategies/vwap_reclaim.py
use quant_dss.Base.{◌&&◌, Option, none, List, [], ◌∷◌, String, ltb, if◌then◌else◌, length}
use quant_dss.Base.Float.{Float, nought, min, max}
use quant_dss.Base.Exec.{Result, ok, divide, then_ok}
use quant_dss.Signal.{CandidateSignal}
use quant_dss.Strategies.{Bar, Setup, param, ratio, clamped, raw_signal}
use quant_dss.Strategies.Crossover.{min_candles}
use quant_dss.Strategies.Range.{is_ready}

module _ {W : Type 0} ⦃f : Float W⦄ where
  abbrev pub rel_vol : Bar W → W
  rel_vol b = ratio b.volume b.volume_ma

  -- The score, from the gap of the averages and the strength of the cross.
  abbrev reclaim_score : (gap strength : W) → Bar W → W
  reclaim_score gap strength b =
      let gap_pct =
        if f.lt nought b.ema_slow
        then f.mul (f.quotient gap b.ema_slow) (f.lit 100 0)
        else nought in
      clamped (
        f.add
          (f.add
            (f.add (f.lit 500 1)
              (min (f.lit 150 1) (f.mul (f.sub (rel_vol b) (f.lit 10 1)) (f.lit 10 0))))
            (min (f.lit 150 1) (f.mul gap_pct (f.lit 200 0))))
          (min (f.lit 150 1) strength))

  -- From the test of the distance of the stop on.
  unfoldable pub reclaimed :
      (type : String)
      → (distance stop target gap cross : W) → Bar W
      → Result (Option (CandidateSignal W))
  reclaimed type distance stop target gap cross b =
      if f.le distance nought
      then ok none
      else then_ok (divide cross b.atr)
          λ q. raw_signal type b.close stop target (reclaim_score gap (f.mul q (f.lit 10 0)) b)

  -- From the tests of the indicators on.
  unfoldable pub reclaim : Setup W → (curr prev : Bar W) → Result (Option (CandidateSignal W))
  reclaim s curr prev =
      let threshold = param s "rel_vol_threshold" (f.lit 13 1) in
      let stop_gap = f.mul (param s "atr_multiplier_sl" (f.lit 15 1)) curr.atr in
      let target_gap = f.mul (param s "atr_multiplier_target" (f.lit 20 1)) curr.atr in
      let below = max (f.sub curr.close stop_gap) prev.low in
      let above = min (f.add curr.close stop_gap) prev.high in
      if (f.lt prev.close curr.vwap && f.lt curr.vwap curr.close)
        && (f.le threshold (rel_vol curr) && f.lt curr.ema_slow curr.ema_fast)
      then reclaimed "BUY" (f.sub curr.close below) below (f.add curr.close target_gap)
          (f.sub curr.ema_fast curr.ema_slow) (f.sub curr.close curr.vwap) curr
      else if (f.lt curr.vwap prev.close && f.lt curr.close curr.vwap)
          && (f.le threshold (rel_vol curr) && f.lt curr.ema_fast curr.ema_slow)
      then reclaimed "SELL" (f.sub above curr.close) above (f.sub curr.close target_gap)
          (f.sub curr.ema_slow curr.ema_fast) (f.sub curr.vwap curr.close) curr
      else ok none

  -- `VWAPReclaimStrategy.evaluate`; it asks for as many candles as the crossover.
  unfoldable pub evaluate_reclaim : Setup W → List (Bar W) → Result (Option (CandidateSignal W))
  evaluate_reclaim s [] = ok none
  evaluate_reclaim s (curr ∷ []) = ok none
  evaluate_reclaim s (curr ∷ prev ∷ rest) =
      if ltb (length (curr ∷ prev ∷ rest)) (min_candles s)
      then ok none
      else if is_ready curr
      then reclaim s curr prev
      else ok none
