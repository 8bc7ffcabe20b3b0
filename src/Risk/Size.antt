-- ===== src/Risk/Size.antt =====
-- engine/risk_engine.py: the quantity of an approved signal, through rules 5 and 6.
use quant_dss.Base.{
  ◌≡◌, refl, subst, ◌∙◌, sym, ◌⊎◌, inl, inr, Bool, true, false, some, none, List, [], ◌∷◌, arith,
  Bool-cases, any,
}
use quant_dss.Base.Int.{ℤ, pos, ◌≤ℤ◌, max_ℤ}
use quant_dss.Base.Float.{Float}
use quant_dss.Base.Exec.{ok, divide, floor, then_ok, Result-cases}
use quant_dss.Risk.Types.{Context, EngineState, RiskDecision, approved}
use quant_dss.Risk.Rules.{Rule, rules, check, position_sizer}
use quant_dss.Risk.Rules.Loss.{
  check_errors, check_reward, check_regime, check_daily_loss, check_weekly_loss, check_drawdown,
}
use quant_dss.Risk.Rules.Market.{
  check_cooldown, check_volatility, check_liquidity, check_spread, check_window,
}
use quant_dss.Risk.Rules.Sizing.{
  check_size, check_positions, check_exposure, adjust_quantity, max_value, trade_risk,
  stop_distance,
}
use quant_dss.Risk.Rules.Stock.{check_stock, check_sector}
use quant_dss.Risk.Engine.{Sizing, unsized, carry, adjust, approve, validate}
use quant_dss.Risk.Chain.{Passes, done, next, validate-approved_iff}
use quant_dss.Risk.Limit.{GoesOn, status_goes_on}

abbrev is_sizer : Rule → Bool
is_sizer position_sizer = true
is_sizer _ = false

module _ {W : Type 0} ⦃f : Float W⦄ (c : Context W) where
  -- Only the sizer sets a quantity.
  check-quantity :
      (r : Rule) (s t : EngineState W) (d : RiskDecision W)
      → is_sizer r ≡ false
      → check c r s ≡ (ok d, t)
      → d.quantity ≡ none
  unfolding check check_errors check_reward check_regime check_daily_loss check_weekly_loss
      check_drawdown check_cooldown check_volatility check_positions check_exposure check_liquidity
      check_spread check_window check_stock check_sector
  check-quantity position_sizer s t d n e = absurd (cc n)
  check-quantity _ s t d n e = ground arith

  -- A size of one or more, at the risk of one trade.
  abbrev pub IsSized : Sizing W → Type 0
  IsSized z =
      (q : ℤ) × (z.quantity ≡ some q)
      × (pos 1 ≤ℤ q)
      × (z.risk_amount ≡ some (f.round 2 (trade_risk c)))

  check_size-IsSized :
      (d : RiskDecision W) (z : Sizing W) → check_size c ≡ ok d → GoesOn d → IsSized (carry d z)
  unfolding check_size
  check_size-IsSized d z e h =
      elim (Result-cases (then_ok (divide (trade_risk c) (stop_distance c)) floor)) [
        | inl (q, p) ↦ elim (Result-cases (divide (trade_risk c) c.portfolio.current_balance)) [
          | inl (share, r) ↦ (q, ground arith, ground arith, ground arith)
          | inr (x, r) ↦ absurd (ground arith)
        ]
        | inr (x, p) ↦ absurd (ground arith)
      ]

  check-IsSized :
      (r : Rule) (s t : EngineState W) (d : RiskDecision W) (z : Sizing W)
      → check c r s ≡ (ok d, t)
      → GoesOn d
      → IsSized z ⊎ (is_sizer r ≡ true)
      → IsSized (carry d z)
  check-IsSized position_sizer s t d z e h i = check_size-IsSized d z (unfold check in cc e) h
  check-IsSized r s t d z e h (inl v) = rw (check-quantity r s t d refl e) v
  check-IsSized r s t d z e h (inr n) = absurd (cc n)

  Passes-IsSized :
      (rs : List Rule) (z y : Sizing W) (s u : EngineState W)
      → Passes (check c) rs z s y u
      → IsSized z ⊎ (any is_sizer rs ≡ true)
      → IsSized y
  Passes-IsSized [] z y s u (done p q) h = elim h [
    | inl v ↦ subst IsSized p v
    | inr n ↦ absurd (cc n)
  ]
  Passes-IsSized (r ∷ rs) z y s u (next d t e n p) h =
      let on = status_goes_on d.status n in
      let go = Passes-IsSized rs (carry d z) y t u p in
      elim (Bool-cases (is_sizer r)) [
        | inl sizer ↦ go (inl (check-IsSized r s t d z e on (inr sizer)))
        | inr other ↦ elim h [
          | inl v ↦ go (inl (check-IsSized r s t d z e on (inl v)))
          | inr m ↦ go (inr (ground arith))
        ]
      ]

  -- The quantity after the cap: as sized where its value is within the cap, else what the cap buys.
  abbrev pub FitsCap : ℤ → Type 0
  FitsCap q =
      (f.lt (max_value c) (f.mul (f.of_int q) c.signal.entry_price) ≡ false)
      ⊎ ((n : ℤ) × (then_ok (divide (max_value c) c.signal.entry_price) floor ≡ ok n)
          × (q ≡ max_ℤ n (pos 1)))

  adjust_quantity-FitsCap :
      (n q : ℤ) → pos 1 ≤ℤ n → adjust_quantity c n ≡ ok q → (pos 1 ≤ℤ q) × FitsCap q
  unfolding adjust_quantity
  adjust_quantity-FitsCap n q v e =
      elim (Bool-cases (f.lt (max_value c) (f.mul (f.of_int n) c.signal.entry_price))) [
        | inr within ↦ let same : n ≡ q = ground arith in rw (← same) (v, inl within)
        | inl over ↦
            elim (Result-cases (then_ok (divide (max_value c) c.signal.entry_price) floor)) [
              | inl (m, p) ↦
                  let capped : q ≡ max_ℤ m (pos 1) = ground arith in
                  (rw capped (ground arith), inr (m, p, capped))
              | inr (x, p) ↦ absurd (ground arith)
            ]
      ]

  adjust-rules : (n : ℤ) → adjust c rules n ≡ adjust_quantity c n
  unfolding adjust rules
  adjust-rules n = refl

  approve-size :
      (z : Sizing W) (d : RiskDecision W)
      → IsSized z
      → approve c z ≡ ok d
      → (q : ℤ) × (d.quantity ≡ some q)
        × (pos 1 ≤ℤ q)
        × FitsCap q
        × (d.risk_amount ≡ some (f.round 2 (trade_risk c)))
  approve-size z d (n, p, v, r) e = elim (Result-cases (adjust c rules n)) [
    | inl (q, a) ↦
        let fits = adjust_quantity-FitsCap n q v (sym (adjust-rules n) ∙ a) in
        (q, ground arith, fits.0, fits.1, ground arith)
    | inr (x, a) ↦ absurd (ground arith)
  ]

  -- An approved signal has a quantity of one or more that fits the position cap, or is what the
  -- cap buys and at least one, and carries the risk of one trade.
  pub validate-quantity :
      (s u : EngineState W) (d : RiskDecision W)
      → validate c s ≡ (ok d, u)
      → d.status ≡ approved
      → (q : ℤ) × (d.quantity ≡ some q)
        × (pos 1 ≤ℤ q)
        × FitsCap q
        × (d.risk_amount ≡ some (f.round 2 (trade_risk c)))
  validate-quantity s u d e a =
      let (z, p, w) = (validate-approved_iff c s u d).0 (e, a) in
      approve-size z d (Passes-IsSized rules unsized z s u p (inr (unfold rules in refl))) w
