-- ===== src/Risk/Inert.antt =====
-- engine/risk_engine.py: the rules that read attributes which `CandidateSignal` does not have.
use quant_dss.Base.{◌≡◌, ap, ◌∙◌, none, arith, String, or_default}
use quant_dss.Base.Float.{Float}
use quant_dss.Base.Exec.{ok}
use quant_dss.Risk.Types.{Context, EngineState, pass, plain}
use quant_dss.Risk.Rules.{check, global_market_regime_filter, spread_filter}
use quant_dss.Risk.Rules.Loss.{decide_regime, check_regime}
use quant_dss.Risk.Rules.Market.{check_spread}

decide_regime_unnamed :
    {W : Type 0} (regime : String) → decide_regime {W = W} regime "" ≡ plain pass
unfolding decide_regime
decide_regime_unnamed regime = ground arith

module _ {W : Type 0} ⦃f : Float W⦄ (c : Context W) (s : EngineState W) where
  -- Unless an attribute beyond the class is set, the regime filter and the spread filter pass
  -- every signal, whatever the regime, the quotes and the limits are.
  pub undeclared_attributes_pass :
      c.signal.strategy ≡ none
      → c.signal.instrument_key ≡ none
      → (check c global_market_regime_filter s ≡ (ok (plain pass), s))
        × (check c spread_filter s ≡ (ok (plain pass), s))
  unfolding check check_regime check_spread
  undeclared_attributes_pass h k = (
    ap (λ v. (ok (decide_regime (or_default "NONE" c.config.market_regime) (or_default "" v)), s)) h
        ∙ ap (λ d. (ok d, s)) (decide_regime_unnamed (or_default "NONE" c.config.market_regime)),
    ground arith,
  )
