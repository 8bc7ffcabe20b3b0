-- ===== src/Pipeline/Front.antt =====
-- api/main.py: the layers in the order in which they are wired, up to the regime filter.
use quant_dss.Base.{
  ℕ, ◌≡◌, refl, ◌∙◌, subst, Bool, true, false, ◌&&◌, Option, some, none, List, [], ◌∷◌, String,
  arith, any, All, inl, inr, List-cases, if◌then◌else◌,
}
use quant_dss.Base.Dict.{Dict}
use quant_dss.Base.Float.{Float, nought}
use quant_dss.Signal.{CandidateSignal, is_scanner}
use quant_dss.Pipeline.Consolidation.{ConsolidatedSignal, is_type, process_signal_group}
use quant_dss.Pipeline.Merged.{process_signal_group-Consolidates}
use quant_dss.Pipeline.Meta.{current_regime, is_blocked, allowed, filter_signal}
use quant_dss.Pipeline.Confirmation.{total, verify_confirmation}
use quant_dss.Pipeline.Quality.{decide, score_of, score_signal}
use quant_dss.Pipeline.Gates.{stored_regime, quality_of, evaluate_regime}
use text.Mathlib.Text.{◌==◌ as str_eq}

-- A layer's callback runs only on what the layer forwards.
abbrev pub chain {ℓ} : {A B : Type ℓ} → Option A → (A → Option B) → Option B
chain none k = none
chain (some a) k = k a

chain-some :
    {A B : Type 0} (o : Option A) (k : A → Option B) (b : B)
    → chain o k ≡ some b
    → (a : A) × (o ≡ some a) × (k a ≡ some b)
chain-some none k b h = ground (arith, h)
chain-some (some a) k b h = (a, refl, h)

module _ {W : Type 0} ⦃f : Float W⦄ where
  -- The layers with the regimes that the two readings of the configuration give.
  unfoldable pub front :
      (is_disabled : ℕ → Bool) (stored stored' : Option String)
      → List (CandidateSignal W)
      → Option (ConsolidatedSignal W)
  front is_disabled stored stored' group =
      chain
        (chain
          (chain (chain (process_signal_group group) (filter_signal is_disabled stored))
            (verify_confirmation (f.lit 15 1)))
          (score_signal (f.lit 75 0)))
        (evaluate_regime stored')

  All-allowed :
      (is_disabled : ℕ → Bool) (regime : String) (d : Dict String (CandidateSignal W))
      → All
          (λ (x : String × CandidateSignal W). is_blocked is_disabled regime x.1 ≡ false)
          (allowed is_disabled regime d)
  All-allowed is_disabled regime [] = tt
  All-allowed is_disabled regime ((n, s) ∷ d) = ground (arith, All-allowed is_disabled regime d)

  filter_signal-some :
      (is_disabled : ℕ → Bool) (stored : Option String) (c c' : ConsolidatedSignal W)
      → filter_signal is_disabled stored c ≡ some c'
      → (c'.contributing_signals
          ≡ allowed is_disabled (current_regime stored) c.contributing_signals)
        × (c'.signal_type ≡ c.signal_type)
  unfolding filter_signal
  filter_signal-some is_disabled stored c c' h = ground arith

  verify_confirmation-some :
      (least : W) (c c' : ConsolidatedSignal W)
      → verify_confirmation least c ≡ some c'
      → (c'.contributing_signals ≡ c.contributing_signals)
        × (c'.signal_type ≡ c.signal_type)
        × ((w : W) × (c'.total_confirmation_weight ≡ some w) × (f.lt w least ≡ false))
  unfolding verify_confirmation
  verify_confirmation-some least c c' h = (
    ground (arith, h),
    ground (arith, h),
    (total least c.contributing_signals nought, ground (arith, h), ground (arith, h)),
  )

  decide-some :
      (least : W) (scanner : Bool) (score : W) (c c' : ConsolidatedSignal W)
      → decide least scanner score c ≡ some c'
      → (c'.contributing_signals ≡ c.contributing_signals)
        × (c'.signal_type ≡ c.signal_type)
        × (c'.total_confirmation_weight ≡ c.total_confirmation_weight)
        × ((q : W) × (c'.quality_score ≡ some q) × (f.lt q least ≡ false))
  decide-some least scanner score c c' h = (
    ground (arith, h),
    ground (arith, h),
    ground (arith, h),
    (if scanner && f.lt score least then least else score, ground (arith, h), ground (arith, h)),
  )

  score_signal-some :
      (least : W) (c c' : ConsolidatedSignal W)
      → score_signal least c ≡ some c'
      → (c'.contributing_signals ≡ c.contributing_signals)
        × (c'.signal_type ≡ c.signal_type)
        × (c'.total_confirmation_weight ≡ c.total_confirmation_weight)
        × ((q : W) × (c'.quality_score ≡ some q) × (f.lt q least ≡ false))
  unfolding score_signal
  score_signal-some least c c' h = elim (List-cases c.contributing_signals) [
    | inl e ↦ ground (arith, h, e)
    | inr ((n, p), d, e) ↦
        decide-some least (is_scanner p) (score_of c p) c c' (ground (arith, h, e))
  ]

  evaluate_regime-some :
      (stored : Option String) (c c' : ConsolidatedSignal W)
      → evaluate_regime stored c ≡ some c'
      → (c ≡ c')
        × (str_eq (stored_regime stored) "LOW_LIQUIDITY" ≡ false)
        × ((str_eq (stored_regime stored) "HIGH_VOLATILITY" && f.lt (quality_of c) (f.lit 85 0))
            ≡ false)
  unfolding evaluate_regime
  evaluate_regime-some stored c c' h = ground arith

  -- What a signal that has come through the layers has passed.
  pub record Vetted (is_disabled : ℕ → Bool) (stored stored' : Option String)
      (group : List (CandidateSignal W)) (c : ConsolidatedSignal W) : Type 0 where
    pub unopposed : (any (is_type "BUY") group && any (is_type "SELL") group) ≡ false
    pub present : any (is_type c.signal_type) group ≡ true
    pub backed :
        All
          (λ (x : String × CandidateSignal W).
            is_blocked is_disabled (current_regime stored) x.1 ≡ false)
          c.contributing_signals
    pub weighed : (w : W) × (c.total_confirmation_weight ≡ some w) × (f.lt w (f.lit 15 1) ≡ false)
    pub scored : (q : W) × (c.quality_score ≡ some q) × (f.lt q (f.lit 75 0) ≡ false)
    pub liquid : str_eq (stored_regime stored') "LOW_LIQUIDITY" ≡ false
    pub steady :
        (str_eq (stored_regime stored') "HIGH_VOLATILITY" && f.lt (quality_of c) (f.lit 85 0))
        ≡ false

  -- Whatever group of signals comes, a signal that comes through the layers from consolidation to
  -- the regime filter is of a direction that the group has and does not have the opposite of, its
  -- strategies are not disabled and fit the regime, its confirmation weight is not below 1.5, its
  -- score is not below 75, and not below 85 in high volatility, and the regime is not low liquidity.
  pub front-Vetted :
      (is_disabled : ℕ → Bool) (stored stored' : Option String) (group : List (CandidateSignal W))
      (c : ConsolidatedSignal W)
      → front is_disabled stored stored' group ≡ some c
      → Vetted is_disabled stored stored' group c
  unfolding front
  front-Vetted is_disabled stored stored' group c h =
      let (c4, e4, h5) = chain-some _ (evaluate_regime stored') c h in
      let (c3, e3, h4) = chain-some _ (score_signal (f.lit 75 0)) c4 e4 in
      let (c2, e2, h3) = chain-some _ (verify_confirmation (f.lit 15 1)) c3 e3 in
      let (c1, h1, h2) = chain-some _ (filter_signal is_disabled stored) c2 e2 in
      let origin = process_signal_group-Consolidates group c1 h1 in
      let (kept, of1) = filter_signal-some is_disabled stored c1 c2 h2 in
      let (kept', of2, w) = verify_confirmation-some (f.lit 15 1) c2 c3 h3 in
      let (kept'', of3, same, q) = score_signal-some (f.lit 75 0) c3 c4 h4 in
      let (e, liquid, steady) = evaluate_regime-some stored' c4 c h5 in
      subst (Vetted is_disabled stored stored' group) e (record {
        unopposed = origin.unopposed;
        present = rw (of3 ∙ of2 ∙ of1) origin.present;
        backed =
            rw (kept'' ∙ kept' ∙ kept)
              (All-allowed is_disabled (current_regime stored) c1.contributing_signals);
        weighed = rw same w;
        scored = q;
        liquid = liquid;
        steady = steady;
      })
