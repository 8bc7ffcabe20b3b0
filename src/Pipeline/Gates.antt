-- ===== src/Pipeline/Gates.antt =====
-- engine/market_regime_filter.py, time_filter_layer.py and liquidity_filter_layer.py.
use quant_dss.Base.{
  ℕ, ◌+◌, ◌*◌, ◌%◌, Bool, not, ◌&&◌, ◌||◌, Option, some, none, [], ◌∷◌, String, any, ltb, leb,
  if◌then◌else◌,
}
use quant_dss.Base.Dict.{string_key}
use quant_dss.Base.Text.{codes, has_infix, lower}
use quant_dss.Base.Float.{Float, nought}
use quant_dss.Signal.{CandidateSignal, as_utc}
use quant_dss.Pipeline.Consolidation.{ConsolidatedSignal, truthy}
use text.Mathlib.Text.{◌==◌ as str_eq}

-- What `_get_regime` gives from the stored one, as in the meta strategy engine but for "NONE".
abbrev pub stored_regime : Option String → String
stored_regime none = "TREND"
stored_regime (some r) = if str_eq r "" || str_eq r "NONE" then "TREND" else r

abbrev pub is_reverting : String → Bool
is_reverting name =
    any (λ k. has_infix (codes k) (lower (codes name)))
      ("rsi" ∷ "mean_reversion" ∷ "reversion" ∷ [])

-- The time of the day in India, in microseconds from midnight, of an instant.
abbrev pub time_in_india : ℕ → ℕ
time_in_india t = (t + 19_800_000_000) % 86_400_000_000

-- `time(hour, minute)`
abbrev pub clock : ℕ → ℕ → ℕ
clock hour minute = (hour * 60 + minute) * 60_000_000

module _ {W : Type 0} ⦃f : Float W⦄ where
  -- `signal.quality_score or 0.0`
  abbrev pub quality_of : ConsolidatedSignal W → W
  quality_of c = elim c.quality_score [ none ↦ nought | some q ↦ if truthy q then q else nought ]

  -- `MarketRegimeFilter.evaluate`: what goes to the next layer.
  unfoldable pub evaluate_regime :
      Option String → ConsolidatedSignal W → Option (ConsolidatedSignal W)
  evaluate_regime stored c =
      let regime = stored_regime stored in
      if str_eq regime "LOW_LIQUIDITY"
      then none
      else if str_eq regime "HIGH_VOLATILITY" && f.lt (quality_of c) (f.lit 85 0)
      then none
      else if str_eq regime "RANGE"
          && not (any (λ (x : String × CandidateSignal W). is_reverting x.0) c.contributing_signals)
      then none
      else some c

  -- `TimeFilterLayer.evaluate`: what goes to the next layer.
  unfoldable pub evaluate_time : ConsolidatedSignal W → Option (ConsolidatedSignal W)
  evaluate_time c =
      let t = time_in_india (as_utc c.first_timestamp) in
      if ltb t (clock 9 25)
      then none
      else if leb (clock 14 45) t
      then none
      else if leb (clock 13 30) t && ltb t (clock 14 45)
      then if f.lt (quality_of c) (f.lit 80 0) then none else some c
      else if leb (clock 10 30) t && ltb t (clock 13 30)
      then if f.lt (quality_of c) (f.lit 65 0) then none else some c
      else some c

  -- `x or d`
  abbrev pub or_else : W → W → W
  or_else x d = if truthy x then x else d

  -- `LiquidityFilterLayer.evaluate`: what goes to the next layer. Without a contributing signal the
  -- code raises IndexError, after which nothing goes on.
  unfoldable pub evaluate_liquidity :
      (min_volume_ratio max_spread_pct : W) → ConsolidatedSignal W → Option (ConsolidatedSignal W)
  evaluate_liquidity least most c = elim c.contributing_signals [
    | [] ↦ none
    | (n, p) ∷ d ↦
        let spread = or_else p.spread nought in
        if f.lt (or_else p.volume_ratio (f.lit 1 0)) least
        then none
        else if f.lt nought spread && f.lt most spread
        then none
        else some c
  ]
