-- ===== src/Risk/Chain.antt =====
-- engine/risk_engine.py: the order of the chain, and when `validate` approves.
use quant_dss.Base.{◌≡◌, refl, sym, ap, ◌⊎◌, inl, inr, ◌↔◌, List, [], ◌∷◌, ◌++◌, arith, subst, ◌∙◌}
use quant_dss.Base.Float.{Float}
use quant_dss.Base.Exec.{Exn, Result, ok, raised}
use quant_dss.Risk.Types.{
  Context, EngineState, RiskDecision, RiskExec, Status, pass, blocked, skipped, approved,
}
use quant_dss.Risk.Rules.{Rule, rules, check}
use quant_dss.Risk.Engine.{
  Sizing, Outcome, stopped, passed, unsized, carry, run_rules, approve, finish, validate,
}

status_cases : (s : Status) → ((s ≡ blocked) ⊎ (s ≡ skipped)) ⊎ ¬ ((s ≡ blocked) ⊎ (s ≡ skipped))
status_cases blocked = inl (inl refl)
status_cases skipped = inl (inr refl)
status_cases pass = inr (λ h. elim h [ inl e ↦ cc e | inr e ↦ cc e ])
status_cases approved = inr (λ h. elim h [ inl e ↦ cc e | inr e ↦ cc e ])

module _ {W : Type 0} where
  abbrev pub IsRefusal : RiskDecision W → Type 0
  IsRefusal d = (d.status ≡ blocked) ⊎ (d.status ≡ skipped)

  -- The rules pass one after the other, from a size and a state to a size and a state.
  pub data Passes (run : Rule → RiskExec W (RiskDecision W))
      : List Rule → Sizing W → EngineState W → Sizing W → EngineState W → Type 0 where
    done : {z y : Sizing W} {s u : EngineState W} → z ≡ y → s ≡ u → Passes run [] z s y u
    next :
        {r : Rule} {rs : List Rule} {z y : Sizing W} {s u : EngineState W} (d : RiskDecision W)
        (t : EngineState W)
        → run r s ≡ (ok d, t)
        → ¬ (IsRefusal d)
        → Passes run rs (carry d z) t y u
        → Passes run (r ∷ rs) z s y u

  -- Going on depends on the status alone.
  turn_lem :
      (run : Rule → RiskExec W (RiskDecision W)) (r : Rule) (rs : List Rule) (z : Sizing W)
      (s t : EngineState W) (d : RiskDecision W)
      → run r s ≡ (ok d, t)
      → ¬ (IsRefusal d)
      → run_rules run (r ∷ rs) z s ≡ run_rules run rs (carry d z) t
  unfolding run_rules
  turn_lem run r rs z s t d e n = ground arith

  run_rules-Passes :
      {run : Rule → RiskExec W (RiskDecision W)} {rs : List Rule} {z y : Sizing W}
      {s u : EngineState W}
      → Passes run rs z s y u
      → run_rules run rs z s ≡ (ok (passed y), u)
  run_rules-Passes (done p q) = unfold run_rules in rw (p, q)
  run_rules-Passes (next d t e n p) = turn_lem _ _ _ _ _ _ d e n ∙ run_rules-Passes p

  stop_lem :
      (run : Rule → RiskExec W (RiskDecision W)) (r : Rule) (rs : List Rule) (z : Sizing W)
      (s t : EngineState W) (d : RiskDecision W)
      → run r s ≡ (ok d, t)
      → IsRefusal d
      → run_rules run (r ∷ rs) z s ≡ (ok (stopped d), t)
  unfolding run_rules
  stop_lem run r rs z s t d e n = ground arith

  run_rules-stop :
      {run : Rule → RiskExec W (RiskDecision W)} {pre : List Rule} {z y : Sizing W}
      {s t : EngineState W}
      → Passes run pre z s y t
      → (r : Rule) (post : List Rule) (d : RiskDecision W) (u : EngineState W) → run r t ≡ (ok d, u)
      → IsRefusal d
      → run_rules run (pre ++ r ∷ post) z s ≡ (ok (stopped d), u)
  run_rules-stop {run} (done p q) r post d u e h = stop_lem run r post _ _ u d (ap (run r) q ∙ e) h
  run_rules-stop (next d' t' e' n p) r post d u e h =
      turn_lem _ _ _ _ _ _ d' e' n ∙ run_rules-stop p r post d u e h

  raise_lem :
      (run : Rule → RiskExec W (RiskDecision W)) (r : Rule) (rs : List Rule) (z : Sizing W)
      (s t : EngineState W) (x : Exn)
      → run r s ≡ (raised x, t)
      → run_rules run (r ∷ rs) z s ≡ (raised x, t)
  unfolding run_rules
  raise_lem run r rs z s t x e = ground arith

  run_cases :
      (v : Result (RiskDecision W) × EngineState W)
      → ((d : RiskDecision W) × (t : EngineState W) × (v ≡ (ok d, t)))
        ⊎ ((x : Exn) × (t : EngineState W) × (v ≡ (raised x, t)))
  run_cases (ok d, t) = inl (d, t, refl)
  run_cases (raised x, t) = inr (x, t, refl)

  refusal_status : (d : RiskDecision W) → IsRefusal d → d.status ≡ approved → ⊥
  refusal_status d (inl e) h = cc
  refusal_status d (inr e) h = cc

  IsRefusal-cases : (d : RiskDecision W) → IsRefusal d ⊎ ¬ (IsRefusal d)
  IsRefusal-cases d = status_cases d.status

  -- A run without a refusal is a passage through all the rules.
  Passes-of_run :
      (run : Rule → RiskExec W (RiskDecision W)) (rs : List Rule) (z y : Sizing W)
      (s u : EngineState W)
      → run_rules run rs z s ≡ (ok (passed y), u)
      → Passes run rs z s y u
  Passes-of_run run [] z y s u e =
      unfold run_rules in done {z = z} {y = y} {s = s} {u = u} (cc e) (cc e)
  Passes-of_run run (r ∷ rs) z y s u e = elim (run_cases (run r s)) [
    | inl (d, t, p) ↦ elim (IsRefusal-cases d) [
      | inl h ↦ absurd (cc (sym (stop_lem run r rs z s t d p h) ∙ e))
      | inr n ↦
          next d t p n
            (Passes-of_run run rs (carry d z) y t u (sym (turn_lem run r rs z s t d p n) ∙ e))
    ]
    | inr (x, t, p) ↦ absurd (cc (sym (raise_lem run r rs z s t x p) ∙ e))
  ]

  -- A run that is stopped was stopped by a refusal.
  stopped-IsRefusal :
      (run : Rule → RiskExec W (RiskDecision W)) (rs : List Rule) (z : Sizing W)
      (s u : EngineState W) (d : RiskDecision W)
      → run_rules run rs z s ≡ (ok (stopped d), u)
      → IsRefusal d
  stopped-IsRefusal run [] z s u d e = unfold run_rules in absurd (cc e)
  stopped-IsRefusal run (r ∷ rs) z s u d e = elim (run_cases (run r s)) [
    | inl (c, t, p) ↦ elim (IsRefusal-cases c) [
      | inl h ↦ let q : c ≡ d = cc (sym (stop_lem run r rs z s t c p h) ∙ e) in subst IsRefusal q h
      | inr n ↦ stopped-IsRefusal run rs (carry c z) t u d (sym (turn_lem run r rs z s t c p n) ∙ e)
    ]
    | inr (x, t, p) ↦ absurd (cc (sym (raise_lem run r rs z s t x p) ∙ e))
  ]

pair_parts :
    {A B : Type 0} {a a' : A} {b b' : B} → ◌≡◌ {A = A × B} (a, b) (a', b') → (a ≡ a') × (b ≡ b')
pair_parts e = (ap (λ p. p.0) e, ap (λ p. p.1) e)

module _ {W : Type 0} ⦃f : Float W⦄ where
  -- `validate` after the loop.
  validate-run :
      (c : Context W) (s u : EngineState W) (o : Outcome W)
      → run_rules (check c) rules unsized s ≡ (ok o, u)
      → validate c s ≡ (finish c o, u)
  unfolding validate
  validate-run c s u o e = ground arith

  validate-raise :
      (c : Context W) (s u : EngineState W) (x : Exn)
      → run_rules (check c) rules unsized s ≡ (raised x, u)
      → validate c s ≡ (raised x, u)
  unfolding validate
  validate-raise c s u x e = ground arith

  approve-status :
      (c : Context W) (z : Sizing W) (d : RiskDecision W) → approve c z ≡ ok d → d.status ≡ approved
  approve-status c z d e = ground arith

  -- The first refusal is the decision: the rules behind it are not run and change nothing.
  pub validate-fail_fast :
      (c : Context W) (pre post : List Rule) (r : Rule) (s t u : EngineState W) (z : Sizing W)
      (d : RiskDecision W)
      → rules ≡ pre ++ r ∷ post
      → Passes (check c) pre unsized s z t
      → check c r t ≡ (ok d, u)
      → IsRefusal d
      → validate c s ≡ (ok d, u)
  validate-fail_fast c pre post r s t u z d split p e h =
      validate-run c s u (stopped d) (rw split (run_rules-stop p r post d u e h))

  -- The engine approves exactly when every rule of the chain passes in turn.
  pub validate-approved_iff :
      (c : Context W) (s u : EngineState W) (d : RiskDecision W)
      → ((validate c s ≡ (ok d, u)) × (d.status ≡ approved))
        ↔ ((z : Sizing W) × Passes (check c) rules unsized s z u × (approve c z ≡ ok d))
  validate-approved_iff c s u d =
      (λ (e, h). to (run_rules (check c) rules unsized s) refl e h, from)
    where
      to :
          (v : Result (Outcome W) × EngineState W)
          → run_rules (check c) rules unsized s ≡ v
          → validate c s ≡ (ok d, u)
          → d.status ≡ approved
          → (z : Sizing W) × Passes (check c) rules unsized s z u × (approve c z ≡ ok d)
      to (raised x, t) e v h = absurd (cc (sym (validate-raise c s t x e) ∙ v))
      to (ok (stopped b), t) e v h =
          let same : b ≡ d = cc (sym (validate-run c s t (stopped b) e) ∙ v) in
          absurd (refusal_status b (stopped-IsRefusal (check c) rules unsized s t b e) (rw same h))
      to (ok (passed z), t) e v h =
          let (a, b) = pair_parts (sym (validate-run c s t (passed z) e) ∙ v) in
          (z, Passes-of_run (check c) rules unsized z s u (e ∙ ap (λ w. (ok (passed z), w)) b), a)

      from :
          ((z : Sizing W) × Passes (check c) rules unsized s z u × (approve c z ≡ ok d))
          → (validate c s ≡ (ok d, u)) × (d.status ≡ approved)
      from (z, p, a) = (
        validate-run c s u (passed z) (run_rules-Passes p) ∙ ap (λ r. (r, u)) a,
        approve-status c z d a,
      )
