-- ===== src/Strategies/Range.antt =====
-- engine/strategies/orb_vwap.py, on a frame that is indexed by time.
use quant_dss.Base.{
  ℕ, ◌+◌, ◌/◌, ◌%◌, Bool, not, ◌&&◌, ◌||◌, Option, some, none, List, [], ◌∷◌, ltb, leb,
  if◌then◌else◌, length, filter,
}
use quant_dss.Base.Float.{Float, nought, min, max}
use quant_dss.Pipeline.Gates.{time_in_india}
use quant_dss.Signal.{CandidateSignal, Stamp, naive, aware}
use quant_dss.Strategies.{Bar, Setup, max_ℕ, period, param, is_na, ratio, signal}
use quant_dss.Strategies.Volume.{highest, lowest}

-- The minute of the day in India; a naive time is taken to be there.
abbrev pub minute_of_day : Stamp → ℕ
minute_of_day (naive t) = t % 86_400_000_000 / 60_000_000
minute_of_day (aware t) = time_in_india t / 60_000_000

module _ {W : Type 0} where
  -- `min_candles_required`
  abbrev pub min_candles : Setup W → ℕ
  min_candles s = max_ℕ (period s "ema_slow" 21) (period s "volume_ma_period" 10) + 5

  -- `in_orb`
  abbrev pub is_in_range : Bar W → Bool
  is_in_range b = leb 555 (minute_of_day b.time) && leb (minute_of_day b.time) 570

module _ {W : Type 0} ⦃f : Float W⦄ where
  abbrev levels : List (Bar W) → Option (W × W)
  levels [] = none
  levels (b ∷ l) = some (highest b.high l, lowest b.low l)

  -- `_get_orb_levels`, over all days of the frame.
  unfoldable pub get_orb_levels : List (Bar W) → Option (W × W)
  get_orb_levels bars = levels (filter is_in_range bars)

  -- `volume_curr > volume_factor * volume_ma`
  abbrev is_loud : Setup W → Bar W → Bool
  is_loud s b = f.lt (f.mul (param s "volume_factor" (f.lit 10 1)) b.volume_ma) b.volume

  abbrev pub atr_gap : Setup W → Bar W → W
  atr_gap s b = f.mul (param s "atr_multiplier_sl" (f.lit 10 1)) b.atr

  -- The stop of a long, and of a short: the tighter one, unless it is not on its side.
  unfoldable pub long_stop : Setup W → Bar W → (orb_low : W) → W
  long_stop s b orb_low =
      let by_atr = f.sub b.close (atr_gap s b) in
      let tighter = max by_atr orb_low in
      if f.le (f.sub b.close tighter) nought then by_atr else tighter

  unfoldable pub short_stop : Setup W → Bar W → (orb_high : W) → W
  short_stop s b orb_high =
      let by_atr = f.add b.close (atr_gap s b) in
      let tighter = min by_atr orb_high in
      if f.le (f.sub tighter b.close) nought then by_atr else tighter

  abbrev reward : Setup W → W → W
  reward s distance = f.mul (param s "risk_reward" (f.lit 20 1)) distance

  -- The breakout of a range that is wide enough. The signal keeps the default score of 0.
  unfoldable pub break_range :
      Setup W → (curr prev : Bar W) → (orb_high orb_low : W) → Option (CandidateSignal W)
  break_range s curr prev orb_high orb_low =
      let low = long_stop s curr orb_low in
      let high = short_stop s curr orb_high in
      if (f.le prev.close orb_high && f.lt orb_high curr.close)
        && (f.lt curr.vwap curr.close && (f.lt curr.ema_slow curr.ema_fast && is_loud s curr))
      then some (
          signal s "orb_vwap" "BUY" curr curr.close low
            (f.add curr.close (reward s (f.sub curr.close low))) nought)
      else if (f.le orb_low prev.close && f.lt curr.close orb_low)
          && (f.lt curr.close curr.vwap && (f.lt curr.ema_fast curr.ema_slow && is_loud s curr))
      then some (
          signal s "orb_vwap" "SELL" curr curr.close high
            (f.sub curr.close (reward s (f.sub high curr.close))) nought)
      else none

  -- `orb_width_pct`
  abbrev pub orb_width : (orb_high orb_low : W) → W
  orb_width orb_high orb_low =
      ratio (f.sub orb_high orb_low) (f.quotient (f.add orb_high orb_low) (f.lit 2 0))

  -- From the tests of the indicators on.
  unfoldable pub range_breakout :
      Setup W → (curr prev : Bar W) → Option (W × W) → Option (CandidateSignal W)
  range_breakout s curr prev none = none
  range_breakout s curr prev (some (orb_high, orb_low)) =
      if f.lt (orb_width orb_high orb_low) (param s "orb_min_width_pct" (f.lit 3 3))
      then none
      else break_range s curr prev orb_high orb_low

  abbrev pub is_ready : Bar W → Bool
  is_ready b = not (
      is_na b.vwap
      || (is_na b.ema_fast || (is_na b.ema_slow || (is_na b.atr || is_na b.volume_ma))))

  -- `ORBVWAPStrategy.evaluate`
  unfoldable pub evaluate_range : Setup W → List (Bar W) → Option (CandidateSignal W)
  evaluate_range s [] = none
  evaluate_range s (curr ∷ []) = none
  evaluate_range s (curr ∷ prev ∷ rest) =
      if ltb (length (curr ∷ prev ∷ rest)) (min_candles s)
      then none
      else if is_ready curr
      then range_breakout s curr prev (get_orb_levels (curr ∷ prev ∷ rest))
      else none
