-- ===== src/Strategies/Relative.antt =====
-- engine/strategies/relative_strength_strategy.py
use quant_dss.Base.{
  ℕ, zero, suc, ◌+◌, ◌&&◌, ◌||◌, Option, some, none, List, [], ◌∷◌, String, ltb, if◌then◌else◌,
  length,
}
use quant_dss.Base.Dict.{string_key, lookup}
use quant_dss.Base.Float.{Float, nought, min}
use quant_dss.Base.Exec.{Result, ok, divide, then_ok}
use quant_dss.Signal.{CandidateSignal}
use quant_dss.Strategies.{Bar, Setup, max_ℕ, period, param, is_na, clamped, raw_signal}
use quant_dss.Strategies.Reclaim.{rel_vol}

module _ {W : Type 0} where
  -- `min_candles_required`
  abbrev pub min_candles : Setup W → ℕ
  min_candles s = max_ℕ (max_ℕ 60 (period s "atr_period" 14)) (period s "volume_ma_period" 20) + 5

  -- `close.iloc[-n - 1]`, where there are as many rows.
  abbrev pub close_before : ℕ → Bar W → List (Bar W) → W
  close_before zero b l = b.close
  close_before (suc n) b [] = b.close
  close_before (suc n) b (c ∷ l) = close_before n c l

module _ {W : Type 0} ⦃f : Float W⦄ where
  abbrev relative_score : (edge cushion : W) → Bar W → W
  relative_score edge cushion b = clamped (
      f.add
        (f.add (f.add (f.lit 500 1) (min (f.lit 200 1) (f.mul edge (f.lit 5 0))))
          (min (f.lit 150 1) (f.mul (f.sub (rel_vol b) (f.lit 1 0)) (f.lit 10 0))))
        (min (f.lit 150 1) cushion))

  -- From the test of the distance of the stop on.
  unfoldable pub stronger :
      (type : String)
      → (distance stop target edge cross : W) → Bar W
      → Result (Option (CandidateSignal W))
  stronger type distance stop target edge cross b =
      if f.le distance nought
      then ok none
      else then_ok (divide cross b.atr)
          λ q. raw_signal type b.close stop target (relative_score edge (f.mul q (f.lit 10 0)) b)

  -- From the edge over the index on.
  unfoldable pub relative : Setup W → (edge : W) → Bar W → Result (Option (CandidateSignal W))
  relative s edge b =
      let threshold = param s "rs_threshold_pct" (f.lit 15 1) in
      let is_busy = f.le (param s "rel_vol_threshold" (f.lit 12 1)) (rel_vol b) in
      let stop_gap = f.mul (param s "atr_multiplier_sl" (f.lit 15 1)) b.atr in
      let target_gap = f.mul (param s "atr_multiplier_target" (f.lit 20 1)) b.atr in
      let below = f.sub b.close stop_gap in
      let above = f.add b.close stop_gap in
      if f.le threshold edge && (f.lt b.vwap b.close && is_busy)
      then stronger "BUY" (f.sub b.close below) below (f.add b.close target_gap) edge
          (f.sub b.close b.vwap) b
      else if f.le edge (f.neg threshold) && (f.lt b.close b.vwap && is_busy)
      then stronger "SELL" (f.sub above b.close) above (f.sub b.close target_gap) (f.abs edge)
          (f.sub b.vwap b.close) b
      else ok none

  -- The return of the last hour, less that of the index.
  abbrev pub edge_of : (nifty : W) → Bar W → (hour_ago : W) → W
  edge_of nifty b hour_ago =
      f.sub (f.mul (f.quotient (f.sub b.close hour_ago) hour_ago) (f.lit 100 0)) nifty

  -- `RelativeStrengthStrategy.evaluate`. The close of sixty bars ago is there: more than sixty are
  -- asked for.
  unfoldable pub evaluate_relative : Setup W → List (Bar W) → Result (Option (CandidateSignal W))
  evaluate_relative s [] = ok none
  evaluate_relative s (b ∷ rest) =
      let hour_ago = close_before 60 b rest in
      if ltb (length (b ∷ rest)) (min_candles s)
      then ok none
      else elim (lookup "nifty_return_1h" s.params) [
        | none ↦ ok none
        | some nifty ↦
            if is_na b.vwap || (is_na b.atr || is_na b.volume_ma)
            then ok none
            else if f.le hour_ago nought
            then ok none
            else relative s (edge_of nifty b hour_ago) b
      ]
