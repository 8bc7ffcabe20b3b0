-- ===== src/Strategies/Breakout.antt =====
-- engine/strategies/failed_breakout.py
use quant_dss.Base.{
  ℕ, ◌+◌, Bool, not, ◌&&◌, ◌||◌, Option, none, List, [], ◌∷◌, String, ltb, if◌then◌else◌, length,
}
use quant_dss.Base.Float.{Float, nought, min, max}
use quant_dss.Base.Exec.{Result, ok}
use quant_dss.Signal.{CandidateSignal}
use quant_dss.Strategies.{Bar, Setup, max_ℕ, period, param, is_na, or_na, raw_signal}

module _ {W : Type 0} where
  -- `min_candles_required`
  abbrev pub min_candles : Setup W → ℕ
  min_candles s = max_ℕ (period s "atr_period" 14) (period s "rsi_period" 14) + 20

module _ {W : Type 0} ⦃f : Float W⦄ where
  -- `vwap_curr and ...`, where a missing VWAP is None and 0 is false.
  abbrev is_usable : W → Bool
  is_usable vwap = not (is_na vwap) && not (f.eq vwap nought)

  abbrev pub sell_target : Bar W → W
  sell_target b =
      if is_usable b.vwap && f.lt b.vwap b.or_high
      then max b.vwap (f.sub b.or_high b.atr)
      else f.sub b.or_high b.atr

  abbrev pub buy_target : Bar W → W
  buy_target b =
      if is_usable b.vwap && f.lt b.or_low b.vwap
      then min b.vwap (f.add b.or_low b.atr)
      else f.add b.or_low b.atr

  abbrev pub is_confirmed : Setup W → (curr prev : Bar W) → Bool
  is_confirmed s curr prev =
      f.le (f.mul prev.volume (param s "reversal_vol_multiplier" (f.lit 9 1))) curr.volume

  -- `1 + x` and `1 - x` of a parameter of 0.3%.
  abbrev plus_pct : Setup W → String → W
  plus_pct s key = f.add (f.lit 1 0) (param s key (f.lit 3 3))

  abbrev minus_pct : Setup W → String → W
  minus_pct s key = f.sub (f.lit 1 0) (param s key (f.lit 3 3))

  -- The signals, once the bars fit them.
  unfoldable pub fade_up : Setup W → (curr prev : Bar W) → Result (Option (CandidateSignal W))
  fade_up s curr prev =
      let stop = f.mul prev.high (plus_pct s "sl_buffer_pct") in
      if f.le curr.close (sell_target curr) || f.le stop curr.close
      then ok none
      else raw_signal "SELL" curr.close stop (sell_target curr) (f.lit 700 1)

  unfoldable pub fade_down : Setup W → (curr prev : Bar W) → Result (Option (CandidateSignal W))
  fade_down s curr prev =
      let stop = f.mul prev.low (minus_pct s "sl_buffer_pct") in
      if f.le (buy_target curr) curr.close || f.le curr.close stop
      then ok none
      else raw_signal "BUY" curr.close stop (buy_target curr) (f.lit 700 1)

  -- From the tests of the indicators on.
  unfoldable pub fade_break : Setup W → (curr prev : Bar W) → Result (Option (CandidateSignal W))
  fade_break s curr prev =
      let rsi = or_na (f.lit 500 1) prev.rsi in
      if (f.lt (f.mul curr.or_high (plus_pct s "breakout_threshold_pct")) prev.close
          && f.lt curr.close curr.or_high)
        && (f.lt (param s "rsi_overbought" (f.lit 68 0)) rsi && is_confirmed s curr prev)
      then fade_up s curr prev
      else if (f.lt prev.close (f.mul curr.or_low (minus_pct s "breakout_threshold_pct"))
            && f.lt curr.or_low curr.close)
          && (f.lt rsi (param s "rsi_oversold" (f.lit 32 0)) && is_confirmed s curr prev)
      then fade_down s curr prev
      else ok none

  abbrev pub is_ranged : Bar W → Bool
  is_ranged b = not (
      is_na b.atr
      || (is_na b.rsi || (is_na b.or_high || (is_na b.or_low || f.le b.or_high nought))))

  -- `FailedBreakoutStrategy.evaluate`
  unfoldable pub evaluate_breakout : Setup W → List (Bar W) → Result (Option (CandidateSignal W))
  evaluate_breakout s [] = ok none
  evaluate_breakout s (curr ∷ []) = ok none
  evaluate_breakout s (curr ∷ prev ∷ rest) =
      if ltb (length (curr ∷ prev ∷ rest)) (min_candles s)
      then ok none
      else if is_ranged curr
      then fade_break s curr prev
      else ok none
