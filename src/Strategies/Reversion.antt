-- ===== src/Strategies/Reversion.antt =====
-- engine/strategies/rsi_mean_reversion.py
use quant_dss.Base.{
  ℕ, ◌+◌, Bool, ◌&&◌, ◌||◌, Option, some, none, List, [], ◌∷◌, ltb, if◌then◌else◌, length,
}
use quant_dss.Base.Float.{Float, nought, min, max}
use quant_dss.Signal.{CandidateSignal}
use quant_dss.Strategies.{Bar, Setup, max_ℕ, period, param, is_na, ratio, clamped, signal}

module _ {W : Type 0} where
  -- `min_candles_required`
  abbrev pub min_candles : Setup W → ℕ
  min_candles s =
      max_ℕ (max_ℕ (period s "ema_trend" 50) (period s "rsi_period" 14)) (period s "atr_period" 14)
      + 5

module _ {W : Type 0} ⦃f : Float W⦄ where
  abbrev pub oversold : Setup W → W
  oversold s = param s "rsi_oversold" (f.lit 35 0)

  abbrev pub overbought : Setup W → W
  overbought s = param s "rsi_overbought" (f.lit 65 0)

  -- The score, from the depth of the RSI, the distance to the trend and a bonus.
  unfoldable pub reversion_score : (depth distance : W) → (has_bonus : Bool) → Bar W → W
  reversion_score depth distance has_bonus curr =
      let base =
        f.add (f.add (f.lit 400 1) (min (f.lit 300 1) (f.mul (max nought depth) (f.lit 20 1))))
          (min (f.lit 200 1) (f.mul (ratio distance curr.ema_trend) (f.lit 500 0))) in
      clamped (f.add base (if has_bonus then f.lit 100 1 else nought))

  abbrev pub stop_gap : Setup W → Bar W → W
  stop_gap s curr = f.mul (param s "atr_multiplier_sl" (f.lit 10 1)) curr.atr

  abbrev pub reward : Setup W → W → W
  reward s distance = f.mul distance (param s "risk_reward" (f.lit 20 1))

  abbrev pub is_bounce : Setup W → (curr prev : Bar W) → Bool
  is_bounce s curr prev =
      f.lt curr.ema_trend curr.close && (f.lt prev.rsi (oversold s) && f.lt (oversold s) curr.rsi)

  abbrev pub is_rejection : Setup W → (curr prev : Bar W) → Bool
  is_rejection s curr prev =
      f.lt curr.close curr.ema_trend
      && (f.lt (overbought s) prev.rsi && f.lt curr.rsi (overbought s))

  -- From the tests of the indicators on.
  unfoldable pub reversion : Setup W → (curr prev : Bar W) → Option (CandidateSignal W)
  reversion s curr prev =
      let below = f.sub curr.close (stop_gap s curr) in
      let above = f.add curr.close (stop_gap s curr) in
      if is_na curr.rsi || (is_na curr.ema_trend || is_na curr.atr)
      then none
      else if is_bounce s curr prev
      then some (
          signal s "rsi_mean_reversion" "BUY" curr curr.close below
            (f.add curr.close (reward s (f.sub curr.close below)))
            (reversion_score (f.sub (oversold s) prev.rsi) (f.sub curr.close curr.ema_trend)
              (f.lt curr.rsi (oversold s)) curr))
      else if is_rejection s curr prev
      then some (
          signal s "rsi_mean_reversion" "SELL" curr curr.close above
            (f.sub curr.close (reward s (f.sub above curr.close)))
            (reversion_score (f.sub prev.rsi (overbought s)) (f.sub curr.ema_trend curr.close)
              (f.lt (overbought s) curr.rsi) curr))
      else none

  -- `RSIMeanReversionStrategy.evaluate`
  unfoldable pub evaluate_reversion : Setup W → List (Bar W) → Option (CandidateSignal W)
  evaluate_reversion s [] = none
  evaluate_reversion s (curr ∷ []) = none
  evaluate_reversion s (curr ∷ prev ∷ rest) =
      if ltb (length (curr ∷ prev ∷ rest)) (min_candles s) then none else reversion s curr prev
