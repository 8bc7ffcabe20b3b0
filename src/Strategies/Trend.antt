-- ===== src/Strategies/Trend.antt =====
-- engine/strategies/trend_continuation.py
use quant_dss.Base.{
  ℕ, ◌+◌, Bool, ◌&&◌, ◌||◌, Option, some, none, List, [], ◌∷◌, ltb, if◌then◌else◌, length,
}
use quant_dss.Base.Float.{Float, nought, min}
use quant_dss.Signal.{CandidateSignal}
use quant_dss.Strategies.{Bar, Setup, max_ℕ, period, param, is_na, clamped, signal}

module _ {W : Type 0} where
  -- `min_candles_required`
  abbrev pub min_candles : Setup W → ℕ
  min_candles s = max_ℕ (period s "ema_slow" 50) (period s "atr_period" 14) + 10

module _ {W : Type 0} ⦃f : Float W⦄ where
  -- `abs(a - b) / b * 100 if b > 0 else 0`
  abbrev percent_gap : W → W → W
  percent_gap a b =
      if f.lt nought b then f.mul (f.quotient (f.abs (f.sub a b)) b) (f.lit 100 0) else nought

  -- `triple_gap_score`
  abbrev pub triple_gap_score : (e9 e21 e50 : W) → W
  triple_gap_score e9 e21 e50 =
      min (f.lit 300 1) (f.mul (f.add (percent_gap e9 e21) (percent_gap e21 e50)) (f.lit 30 1))

  -- The distance from the VWAP in units of the ATR.
  abbrev pub vwap_distance : Bar W → W
  vwap_distance b =
      if f.lt nought b.atr then f.quotient (f.abs (f.sub b.close b.vwap)) b.atr else f.lit 9990 1

  unfoldable pub trend_score : Bar W → W
  trend_score b = clamped (
      f.add (f.add (f.lit 450 1) (triple_gap_score b.ema_9 b.ema_21 b.ema_50))
        (if f.lt (vwap_distance b) (f.lit 15 2) then f.lit 150 1 else f.lit 50 1))

  abbrev pub is_pullback : Setup W → Bar W → Bool
  is_pullback s b = f.le (vwap_distance b) (param s "vwap_tolerance_atr" (f.lit 3 1))

  -- From the tests of the indicators on.
  unfoldable pub trend : Setup W → Bar W → Option (CandidateSignal W)
  trend s b =
      let offset = f.mul (param s "atr_multiplier_sl" (f.lit 10 1)) b.atr in
      let rr = param s "risk_reward" (f.lit 20 1) in
      let below = f.sub b.vwap offset in
      let above = f.add b.vwap offset in
      if is_na b.ema_50 || (is_na b.vwap || is_na b.atr)
      then none
      else if (f.lt b.ema_21 b.ema_9 && f.lt b.ema_50 b.ema_21)
          && (is_pullback s b && f.lt b.price_open b.close)
      then if f.le (f.sub b.close below) nought
        then none
        else some (
            signal s "trend_continuation" "BUY" b b.close below
              (f.add b.close (f.mul (f.sub b.close below) rr)) (trend_score b))
      else if (f.lt b.ema_9 b.ema_21 && f.lt b.ema_21 b.ema_50)
          && (is_pullback s b && f.lt b.close b.price_open)
      then if f.le (f.sub above b.close) nought
        then none
        else some (
            signal s "trend_continuation" "SELL" b b.close above
              (f.sub b.close (f.mul (f.sub above b.close) rr)) (trend_score b))
      else none

  -- `TrendContinuationStrategy.evaluate`
  unfoldable pub evaluate_trend : Setup W → List (Bar W) → Option (CandidateSignal W)
  evaluate_trend s [] = none
  evaluate_trend s (curr ∷ rest) =
      if ltb (length (curr ∷ rest)) (min_candles s) then none else trend s curr
