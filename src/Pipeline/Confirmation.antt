-- ===== src/Pipeline/Confirmation.antt =====
-- engine/confirmation_layer.py: the weight of the strategies behind a signal.
use quant_dss.Base.{Option, some, none, List, [], ◌∷◌, String, if◌then◌else◌}
use quant_dss.Base.Dict.{Dict}
use quant_dss.Base.Text.{Text, codes, has_infix, lower}
use quant_dss.Base.Float.{Float, nought, max}
use quant_dss.Signal.{CandidateSignal, is_scanner}
use quant_dss.Pipeline.Consolidation.{ConsolidatedSignal}

module _ {W : Type 0} ⦃f : Float W⦄ where
  abbrev pub strategy_weights : List (String × W)
  strategy_weights =
      ("vwap", f.lit 15 1)
      ∷ ("trend", f.lit 12 1)
      ∷ ("ema", f.lit 1 0)
      ∷ ("rsi", f.lit 8 1)
      ∷ ("volume", f.lit 1 0)
      ∷ ("orb", f.lit 15 1)
      ∷ []

  -- `matched_weight`: the first term that the name contains.
  abbrev pub matched_weight : Text → List (String × W) → W
  matched_weight name [] = f.lit 1 0
  matched_weight name ((term, weight) ∷ l) =
      let rest = matched_weight name l in if has_infix (codes term) name then weight else rest

  -- The loop over the contributing signals, which a scanner signal ends.
  abbrev pub total : (min_confirmations : W) → Dict String (CandidateSignal W) → W → W
  total least [] w = w
  total least ((n, s) ∷ d) w =
      let rest = total least d (f.add w (matched_weight (lower (codes n)) strategy_weights)) in
      if is_scanner s then max w least else rest

  -- `verify_confirmation`: what goes to the next layer.
  unfoldable pub verify_confirmation :
      (min_confirmations : W) → ConsolidatedSignal W → Option (ConsolidatedSignal W)
  verify_confirmation least c =
      let weight = total least c.contributing_signals nought in
      if f.lt weight least
      then none
      else some (record c { total_confirmation_weight = some weight })
