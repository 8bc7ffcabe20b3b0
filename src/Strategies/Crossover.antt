-- ===== src/Strategies/Crossover.antt =====
-- engine/strategies/ema_crossover.py
use quant_dss.Base.{
  ℕ, ◌+◌, Bool, ◌&&◌, ◌||◌, Option, some, none, List, [], ◌∷◌, ltb, if◌then◌else◌, length,
}
use quant_dss.Base.Float.{Float, nought, min}
use quant_dss.Signal.{CandidateSignal}
use quant_dss.Strategies.{Bar, Setup, max_ℕ, period, param, is_na, or_na, ratio, clamped, signal}

module _ {W : Type 0} where
  -- `min_candles_required`
  abbrev pub min_candles : Setup W → ℕ
  min_candles s =
      max_ℕ (max_ℕ (period s "ema_slow" 21) (period s "volume_ma_period" 20))
        (period s "atr_period" 14)
      + 5

module _ {W : Type 0} ⦃f : Float W⦄ where
  -- The third bar's fast average, or the current one's where there are two bars.
  abbrev third_fast : Bar W → List (Bar W) → W
  third_fast curr [] = curr.ema_fast
  third_fast curr (third ∷ l) = third.ema_fast

  abbrev volume_score : Bar W → W
  volume_score curr =
      let ma = or_na nought curr.volume_ma in
      if f.lt nought ma
      then if f.le (f.lit 20 1) (f.quotient curr.volume ma)
        then f.add (f.lit 50 0) (f.lit 15 0)
        else if f.le (f.lit 15 1) (f.quotient curr.volume ma)
        then f.add (f.lit 50 0) (f.lit 8 0)
        else f.lit 50 0
      else f.lit 50 0

  -- The score, from the gap between the averages and whether the fast one moves with the signal.
  unfoldable pub crossover_score : (gap : W) → (is_sloped : Bool) → (curr prev : Bar W) → W
  crossover_score gap is_sloped curr prev =
      let gapped =
        f.add (volume_score curr)
          (min (f.lit 15 0) (f.mul (ratio gap curr.ema_slow) (f.lit 500 0))) in
      let sloped = if is_sloped then f.add gapped (f.lit 10 0) else gapped in
      let expanding = f.lt (or_na curr.atr prev.atr) curr.atr in
      clamped (if expanding then f.add sloped (f.lit 10 0) else sloped)

  abbrev pub is_golden : (curr prev : Bar W) → Bool
  is_golden curr prev =
      f.lt prev.ema_fast prev.ema_slow
      && (f.lt curr.ema_slow curr.ema_fast
          && (f.lt curr.ema_fast curr.close
              && (f.lt curr.ema_slow curr.close && f.lt (or_na nought curr.volume_ma) curr.volume)))

  abbrev pub is_death : (curr prev : Bar W) → Bool
  is_death curr prev =
      f.lt prev.ema_slow prev.ema_fast
      && (f.lt curr.ema_fast curr.ema_slow
          && (f.lt curr.close curr.ema_fast
              && (f.lt curr.close curr.ema_slow && f.lt (or_na nought curr.volume_ma) curr.volume)))

  -- The distances of the stop and of the target.
  abbrev pub stop_gap : Setup W → Bar W → W
  stop_gap s curr = f.mul (param s "atr_multiplier_sl" (f.lit 15 1)) curr.atr

  abbrev pub target_gap : Setup W → Bar W → W
  target_gap s curr = f.mul (param s "atr_multiplier_target" (f.lit 30 1)) curr.atr

  -- From the tests of the indicators on.
  unfoldable pub crossover :
      Setup W → (curr prev : Bar W) → List (Bar W) → Option (CandidateSignal W)
  crossover s curr prev rest =
      let slope = f.sub curr.ema_fast (third_fast curr rest) in
      if is_na curr.ema_fast || (is_na curr.ema_slow || is_na curr.atr)
      then none
      else if is_golden curr prev
      then some (
          signal s "ema_crossover" "BUY" curr curr.close (f.sub curr.close (stop_gap s curr))
            (f.add curr.close (target_gap s curr))
            (crossover_score (f.sub curr.ema_fast curr.ema_slow) (f.lt nought slope) curr prev))
      else if is_death curr prev
      then some (
          signal s "ema_crossover" "SELL" curr curr.close (f.add curr.close (stop_gap s curr))
            (f.sub curr.close (target_gap s curr))
            (crossover_score (f.sub curr.ema_slow curr.ema_fast) (f.lt slope nought) curr prev))
      else none

  -- `EMACrossoverStrategy.evaluate`
  unfoldable pub evaluate_crossover : Setup W → List (Bar W) → Option (CandidateSignal W)
  evaluate_crossover s [] = none
  evaluate_crossover s (curr ∷ []) = none
  evaluate_crossover s (curr ∷ prev ∷ rest) =
      if ltb (length (curr ∷ prev ∷ rest)) (min_candles s) then none else crossover s curr prev rest
