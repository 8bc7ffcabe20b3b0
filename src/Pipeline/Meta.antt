-- ===== src/Pipeline/Meta.antt =====
-- engine/meta_strategy_engine.py and the table of engine/regime_detector.py: which strategies count.
use quant_dss.Base.{
  ℕ, Bool, not, ◌||◌, Option, some, none, List, [], ◌∷◌, String, any, or_default, if◌then◌else◌,
}
use quant_dss.Base.Dict.{Dict, string_key, lookup}
use quant_dss.Base.Text.{Text, codes, text_eq, lower, replace}
use quant_dss.Signal.{CandidateSignal}
use quant_dss.Pipeline.Consolidation.{ConsolidatedSignal}
use text.Mathlib.Text.{◌==◌ as str_eq}

-- `DISABLED_BY_REGIME`
abbrev pub disabled_by_regime : Dict String (List String)
disabled_by_regime =
    ("RANGE", "orb_vwap" ∷ "volume_expansion" ∷ [])
    ∷ ("HIGH_VOLATILITY", "orb_vwap" ∷ "volume_expansion" ∷ "trend_continuation" ∷ [])
    ∷ ("TREND", [])
    ∷ (
      "LOW_LIQUIDITY",
      "ema_crossover" ∷ "rsi_mean_reversion" ∷ "orb_vwap" ∷ "volume_expansion"
          ∷ "trend_continuation" ∷ "failed_breakout" ∷ [],
    )
    ∷ []

unfoldable pub is_strategy_allowed : Text → String → Bool
is_strategy_allowed key regime =
    not (any (λ s. text_eq (codes s) key) (or_default [] (lookup regime disabled_by_regime)))

-- What `_get_current_regime` gives, from the regime of the stored configuration: `none` where the
-- lookup fails, where there is no row and where the row has none.
abbrev pub current_regime : Option String → String
current_regime none = "TREND"
current_regime (some r) = if str_eq r "" then "TREND" else r

module _ {W : Type 0} where
  -- `strat_key`
  abbrev pub strategy_key : CandidateSignal W → Text
  strategy_key s = replace b' ' b'_' (lower (codes s.base_strategy))

  -- The two gates of one strategy; `is_disabled` asks the health monitor.
  abbrev pub is_blocked : (is_disabled : ℕ → Bool) → String → CandidateSignal W → Bool
  is_blocked is_disabled regime s =
      is_disabled s.strategy_id || not (is_strategy_allowed (strategy_key s) regime)

  abbrev pub allowed :
      (ℕ → Bool) → String → Dict String (CandidateSignal W) → Dict String (CandidateSignal W)
  allowed is_disabled regime [] = []
  allowed is_disabled regime ((n, s) ∷ d) =
      let rest = allowed is_disabled regime d in
      if is_blocked is_disabled regime s then rest else (n, s) ∷ rest

  -- `filter_signal`: what goes to the next layer. Where nothing is blocked the dictionary is kept,
  -- which is then the one of the allowed strategies.
  unfoldable pub filter_signal :
      (ℕ → Bool) → Option String → ConsolidatedSignal W → Option (ConsolidatedSignal W)
  filter_signal is_disabled stored c =
      elim (allowed is_disabled (current_regime stored) c.contributing_signals) [
        | [] ↦ none
        | x ∷ d ↦ some (record c { contributing_signals = x ∷ d })
      ]
