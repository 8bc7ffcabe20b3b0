-- ===== src/Pipeline/Quality.antt =====
-- engine/quality_score_layer.py: the score of a signal's context.
use quant_dss.Base.{Bool, ◌&&◌, Option, some, none, [], ◌∷◌, String, or_default, if◌then◌else◌}
use quant_dss.Base.Dict.{Dict, string_key, lookup}
use quant_dss.Base.Float.{Float, nought, min}
use quant_dss.Signal.{CandidateSignal, is_scanner}
use quant_dss.Pipeline.Consolidation.{ConsolidatedSignal, truthy}
use text.Mathlib.Text.{◌==◌ as str_eq}

module _ {W : Type 0} ⦃f : Float W⦄ where
  -- An optional value that is present and not zero.
  abbrev present : Option W → Option W
  present none = none
  present (some x) = if truthy x then some x else none

  -- `a or b`
  abbrev either : Option W → Option W → Option W
  either a b = elim (present a) [ some x ↦ some x | none ↦ present b ]

  -- The points for a move with the direction of the signal.
  abbrev aligned : (direction : String) → (up down : Bool) → W → W
  aligned direction up down points =
      if str_eq direction "BUY" && up
      then points
      else if str_eq direction "SELL" && down
      then points
      else nought

  unfoldable pub strategy_score : ConsolidatedSignal W → W
  strategy_score c =
      min (f.mul (or_default (f.lit 1 0) c.total_confirmation_weight) (f.lit 10 0)) (f.lit 30 0)

  unfoldable pub volume_score : CandidateSignal W → W
  volume_score p =
      if f.lt (f.lit 2 0) p.volume_ratio
      then f.lit 20 0
      else if f.lt (f.lit 15 1) p.volume_ratio
      then f.lit 10 0
      else nought

  unfoldable pub trend_score : String → W → Dict String W → W
  trend_score direction close snap =
      elim (either (lookup "ema_50" snap) (lookup "ema_trend" snap)) [
        | none ↦ nought
        | some e ↦ elim (present (lookup "ema_200" snap)) [
          | none ↦ aligned direction (f.lt e close) (f.lt close e) (f.lit 10 0)
          | some e' ↦
              aligned direction (f.lt e close && f.lt e' e) (f.lt close e && f.lt e e') (f.lit 15 0)
        ]
      ]

  unfoldable pub vwap_score : String → W → Dict String W → W
  vwap_score direction close snap = elim (present (lookup "vwap" snap)) [
    | none ↦ nought
    | some v ↦ aligned direction (f.lt v close) (f.lt close v) (f.lit 15 0)
  ]

  unfoldable pub strength_score : String → W → W
  strength_score direction index_return =
      aligned direction (f.lt (f.lit 1 1) index_return) (f.lt index_return (f.neg (f.lit 1 1)))
        (f.lit 10 0)

  -- `atr_pct`, and the ratio, divide by numbers that are above zero.
  unfoldable pub spread_score : CandidateSignal W → W
  spread_score p =
      let atr =
        if f.lt nought p.entry_price then f.quotient p.atr_value p.entry_price else nought in
      let ratio = f.quotient p.spread atr in
      if f.lt nought p.spread && f.lt nought atr
      then if f.lt ratio (f.lit 1 1)
        then f.lit 10 0
        else if f.lt ratio (f.lit 2 1)
        then f.lit 5 0
        else nought
      else f.lit 5 0

  -- The sum of the six scores.
  unfoldable pub score_of : ConsolidatedSignal W → CandidateSignal W → W
  score_of c p =
      let snap = p.indicator_snapshot in
      let close = or_default p.entry_price (lookup "close" snap) in
      let d = c.signal_type in
      f.add
        (f.add
          (f.add
            (f.add (f.add (f.add nought (strategy_score c)) (volume_score p))
              (trend_score d close snap))
            (vwap_score d close snap))
          (strength_score d p.relative_strength))
        (spread_score p)

  -- The decision on a score: a scanner signal below the threshold gets the threshold.
  abbrev pub decide :
      (threshold : W)
      → (scanner : Bool) → (score : W) → ConsolidatedSignal W
      → Option (ConsolidatedSignal W)
  decide threshold scanner score c =
      let final = if scanner && f.lt score threshold then threshold else score in
      if f.lt final threshold then none else some (record c { quality_score = some final })

  -- `score_signal`: what goes to the next layer. Without a contributing signal the code raises
  -- IndexError, which the layer before it logs.
  unfoldable pub score_signal :
      (threshold : W) → ConsolidatedSignal W → Option (ConsolidatedSignal W)
  score_signal threshold c = elim c.contributing_signals [
    | [] ↦ none
    | (n, p) ∷ d ↦ decide threshold (is_scanner p) (score_of c p) c
  ]
