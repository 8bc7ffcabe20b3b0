-- ===== src/Strategies/Volume.antt =====
-- engine/strategies/volume_expansion.py
use quant_dss.Base.{
  ℕ, ◌+◌, ◌&&◌, ◌||◌, Option, some, none, List, [], ◌∷◌, ltb, leb, if◌then◌else◌, length, take,
}
use quant_dss.Base.Float.{Float, nought, min, max}
use quant_dss.Signal.{CandidateSignal}
use quant_dss.Strategies.{Bar, Setup, max_ℕ, period, param, is_na, or_na, clamped, signal}

module _ {W : Type 0} where
  -- `min_candles_required`
  abbrev pub min_candles : Setup W → ℕ
  min_candles s =
      max_ℕ (max_ℕ (period s "volume_ma_period" 20) (period s "lookback_bars" 5))
        (period s "atr_period" 14)
      + 5

module _ {W : Type 0} ⦃f : Float W⦄ where
  -- The maximum and minimum of a column, in the order of the rows, from a first value on; rows that
  -- are no number are passed over.
  abbrev pub highest : W → List (Bar W) → W
  highest m [] = m
  highest m (b ∷ l) = highest (if f.eq m m then max m b.high else b.high) l

  abbrev pub lowest : W → List (Bar W) → W
  lowest m [] = m
  lowest m (b ∷ l) = lowest (if f.eq m m then min m b.low else b.low) l

  abbrev vol_mult : Setup W → W
  vol_mult s = param s "vol_multiplier" (f.lit 30 1)

  unfoldable pub volume_score : Setup W → (curr prev : Bar W) → W
  volume_score s curr prev =
      let rvol = f.quotient curr.volume curr.volume_ma in
      clamped (
        f.add
          (f.add (f.lit 500 1) (min (f.lit 300 1) (f.mul (f.sub rvol (vol_mult s)) (f.lit 100 1))))
          (if f.lt (or_na curr.atr prev.atr) curr.atr then f.lit 200 1 else nought))

  -- The breakout of the window of the bars before the current one, which has one bar at least.
  unfoldable pub breakout_of :
      Setup W → (curr prev : Bar W) → List (Bar W) → Option (CandidateSignal W)
  breakout_of s curr prev window =
      let range_high = highest prev.high window in
      let range_low = lowest prev.low window in
      let offset = f.mul (param s "atr_multiplier_sl" (f.lit 10 1)) curr.atr in
      let rr = param s "risk_reward" (f.lit 15 1) in
      let below = f.sub curr.low offset in
      let above = f.add curr.high offset in
      if f.lt range_high curr.close && f.lt curr.price_open curr.close
      then some (
          signal s "volume_expansion" "BUY" curr curr.close below
            (f.add curr.close (f.mul (f.sub curr.close below) rr)) (volume_score s curr prev))
      else if f.lt curr.close range_low && f.lt curr.close curr.price_open
      then some (
          signal s "volume_expansion" "SELL" curr curr.close above
            (f.sub curr.close (f.mul (f.sub above curr.close) rr)) (volume_score s curr prev))
      else none

  -- From the tests of the indicators on, with a lookback of one bar at least.
  unfoldable pub expansion :
      Setup W → (curr prev : Bar W) → List (Bar W) → Option (CandidateSignal W)
  expansion s curr prev rest =
      let lookback = period s "lookback_bars" 5 in
      if is_na curr.atr || is_na curr.volume_ma
      then none
      else if f.le curr.volume_ma nought || f.lt curr.volume (f.mul (vol_mult s) curr.volume_ma)
      then none
      else if leb lookback (length (take lookback (prev ∷ rest)))
      then breakout_of s curr prev (take lookback (prev ∷ rest))
      else none

  -- `VolumeExpansionStrategy.evaluate`
  unfoldable pub evaluate_expansion : Setup W → List (Bar W) → Option (CandidateSignal W)
  evaluate_expansion s [] = none
  evaluate_expansion s (curr ∷ []) = none
  evaluate_expansion s (curr ∷ prev ∷ rest) =
      if ltb (length (curr ∷ prev ∷ rest)) (min_candles s) then none else expansion s curr prev rest
