-- ===== src/Risk/Engine.antt =====
-- engine/risk_engine.py: `RiskEngine.validate`, `validate_async` and `load_adv`.
use quant_dss.Base.{ℕ, true, false, Option, none, some, List, [], ◌∷◌}
use quant_dss.Base.Int.{ℤ}
use quant_dss.Base.Dict.{Dict, nat_key, insert}
use quant_dss.Base.Float.{Float}
use quant_dss.Base.Exec.{Result, ok, pure, lift, ◌>>=◌, then_ok}
use quant_dss.Signal.{risk_reward}
use quant_dss.Risk.Types.{
  Context, EngineState, RiskDecision, RiskExec, pass, blocked, skipped, approved,
}
use quant_dss.Risk.Rules.{Rule, rules, is_size_cap, check}
use quant_dss.Risk.Rules.Sizing.{adjust_quantity}

-- The local variables `quantity`, `risk_amount` and `risk_pct`.
pub record Sizing (W : Type 0) : Type 0 where
  pub quantity : Option ℤ
  pub risk_amount : Option W
  pub risk_pct : Option W

-- How the loop over the rules ends: by the first refusal, or after the last rule.
pub data Outcome (W : Type 0) : Type 0 where
  stopped : RiskDecision W → Outcome W
  passed : Sizing W → Outcome W

module _ {W : Type 0} where
  abbrev pub unsized : Sizing W
  unsized = record { quantity = none; risk_amount = none; risk_pct = none }

  -- `if decision.quantity is not None: …`
  abbrev pub carry : RiskDecision W → Sizing W → Sizing W
  carry d z = elim d.quantity [
    | none ↦ z
    | some q ↦ record { quantity = some q; risk_amount = d.risk_amount; risk_pct = d.risk_pct }
  ]

  -- One turn of the loop, `rest` being the turns that follow.
  abbrev turn :
      RiskDecision W → Sizing W → (Sizing W → RiskExec W (Outcome W)) → RiskExec W (Outcome W)
  turn d z rest = elim d.status [
    | blocked ↦ pure (stopped d)
    | skipped ↦ pure (stopped d)
    | pass ↦ rest (carry d z)
    | approved ↦ rest (carry d z)
  ]

  -- `for rule in self.rules`
  unfoldable pub run_rules :
      (Rule → RiskExec W (RiskDecision W)) → List Rule → Sizing W → RiskExec W (Outcome W)
  run_rules run [] z = pure (passed z)
  run_rules run (r ∷ rs) z = do d ← run r; turn d z (run_rules run rs)

module _ {W : Type 0} ⦃f : Float W⦄ where
  -- The second loop: the first size cap of the chain adjusts the quantity.
  unfoldable pub adjust : Context W → List Rule → ℤ → Result ℤ
  adjust c [] quantity = ok quantity
  adjust c (r ∷ rs) quantity = elim (is_size_cap r) [
    | true ↦ adjust_quantity c quantity
    | false ↦ adjust c rs quantity
  ]

  abbrev adjust_optional : Context W → Option ℤ → Result (Option ℤ)
  adjust_optional c none = ok none
  adjust_optional c (some quantity) = then_ok (adjust c rules quantity) (λ q. ok (some q))

  abbrev pub approve : Context W → Sizing W → Result (RiskDecision W)
  approve c z = then_ok (adjust_optional c z.quantity) λ q. then_ok (risk_reward c.signal) λ rr.
      ok (record {
        status = approved;
        reason = none;
        quantity = q;
        risk_amount = z.risk_amount;
        risk_pct = z.risk_pct;
        risk_reward = some rr;
      })

  abbrev pub finish : Context W → Outcome W → Result (RiskDecision W)
  finish c (stopped d) = ok d
  finish c (passed z) = approve c z

  -- `validate`, and `validate_async`, which differs in how Redis is read.
  unfoldable pub validate : Context W → RiskExec W (RiskDecision W)
  validate c = do outcome ← run_rules (check c) rules unsized; lift (finish c outcome)

-- The loop of `load_adv`; the keys are texts of ids.
abbrev pub load_from : Dict ℕ ℤ → Dict ℕ ℤ → Dict ℕ ℤ
load_from [] cache = cache
load_from ((key, volume) ∷ rest) cache = load_from rest (insert key volume cache)

unfoldable pub load_adv : {W : Type 0} → Dict ℕ ℤ → EngineState W → EngineState W
load_adv adv_map s = record s { adv_cache = load_from adv_map [] }
