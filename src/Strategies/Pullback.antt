-- ===== src/Strategies/Pullback.antt =====
-- engine/strategies/trend_pullback.py
use quant_dss.Base.{
  ℕ, ◌+◌, Bool, not, ◌&&◌, ◌||◌, Option, none, List, [], ◌∷◌, String, ltb, if◌then◌else◌, length,
}
use quant_dss.Base.Float.{Float, nought, min, max}
use quant_dss.Base.Exec.{Result, ok, divide, then_ok}
use quant_dss.Signal.{CandidateSignal}
use quant_dss.Strategies.{Bar, Setup, max_ℕ, period, param, is_na, or_na, clamped, raw_signal}

module _ {W : Type 0} where
  -- `min_candles_required`
  abbrev pub min_candles : Setup W → ℕ
  min_candles s =
      max_ℕ (max_ℕ (period s "ema_slow" 50) (period s "rsi_period" 14)) (period s "atr_period" 14)
      + 10

module _ {W : Type 0} ⦃f : Float W⦄ where
  abbrev pub is_neutral : Setup W → Bar W → Bool
  is_neutral s b =
      f.le (param s "rsi_low" (f.lit 40 0)) b.rsi && f.le b.rsi (param s "rsi_high" (f.lit 60 0))

  abbrev pullback_score : (gap depth : W) → Bar W → W
  pullback_score gap depth b =
      let rsi_score = f.sub (f.lit 150 1) (f.mul (f.abs (f.sub b.rsi (f.lit 50 0))) (f.lit 5 1)) in
      clamped (
        f.add
          (f.add (f.add (f.lit 450 1) (min (f.lit 200 1) (f.mul gap (f.lit 1000 0))))
            (max nought rsi_score))
          (min (f.lit 150 1) (f.mul depth (f.lit 10 0))))

  -- From the test of the distance of the stop on.
  unfoldable pub resumed :
      (type : String)
      → (distance stop target depth : W) → Bar W
      → Result (Option (CandidateSignal W))
  resumed type distance stop target depth b =
      if f.le distance nought
      then ok none
      else then_ok (divide (f.abs (f.sub b.ema_9 b.ema_50)) b.ema_50) λ gap.
        then_ok (divide depth b.atr)
          λ q. raw_signal type b.close stop target (pullback_score gap q b)

  -- From the tests of the indicators on.
  unfoldable pub pullback : Setup W → (curr prev : Bar W) → Result (Option (CandidateSignal W))
  pullback s curr prev =
      let ema21_prev = or_na curr.ema_21 prev.ema_21 in
      let stop_gap = f.mul (param s "atr_multiplier_sl" (f.lit 10 1)) curr.atr in
      let target_gap = f.mul (param s "atr_multiplier_target" (f.lit 30 1)) curr.atr in
      let below = f.sub curr.ema_21 stop_gap in
      let above = f.add curr.ema_21 stop_gap in
      if (f.lt curr.ema_21 curr.ema_9 && f.lt curr.ema_50 curr.ema_21)
        && (f.le prev.low ema21_prev && (f.lt curr.ema_21 curr.close && is_neutral s curr))
      then resumed "BUY" (f.sub curr.close below) below (f.add curr.close target_gap)
          (f.sub ema21_prev prev.low) curr
      else if (f.lt curr.ema_9 curr.ema_21 && f.lt curr.ema_21 curr.ema_50)
          && (f.le ema21_prev prev.high && (f.lt curr.close curr.ema_21 && is_neutral s curr))
      then resumed "SELL" (f.sub above curr.close) above (f.sub curr.close target_gap)
          (f.sub prev.high ema21_prev) curr
      else ok none

  abbrev pub is_stacked : Bar W → Bool
  is_stacked b =
      not (is_na b.ema_9 || (is_na b.ema_21 || (is_na b.ema_50 || (is_na b.rsi || is_na b.atr))))

  -- `TrendPullbackStrategy.evaluate`
  unfoldable pub evaluate_pullback : Setup W → List (Bar W) → Result (Option (CandidateSignal W))
  evaluate_pullback s [] = ok none
  evaluate_pullback s (curr ∷ []) = ok none
  evaluate_pullback s (curr ∷ prev ∷ rest) =
      if ltb (length (curr ∷ prev ∷ rest)) (min_candles s)
      then ok none
      else if is_stacked curr
      then pullback s curr prev
      else ok none
