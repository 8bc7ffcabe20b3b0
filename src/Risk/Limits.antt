-- ===== src/Risk/Limits.antt =====
-- engine/risk_engine.py: an approved signal is within every limit of the configuration.
use quant_dss.Base.{
  ℕ, ◌+◌, ◌*◌, ◌≤◌, ◌<◌, ◌≡◌, ◌≢◌, sym, refl, ◌∙◌, ap, subst, ◌⊎◌, Bool, true, false, some, List,
  [], ◌∷◌, ◌++◌, arith, or_default, All,
}
use quant_dss.Base.Int.{ℤ, pos, ltb_ℤ}
use quant_dss.Base.Dict.{nat_key, lookup}
use quant_dss.Base.Float.{Float, nought}
use quant_dss.Base.Exec.{Result, ok, divide}
use quant_dss.Signal.{Stamp, risk_reward, is_scanner, as_utc}
use quant_dss.Risk.Types.{Context, EngineState, RiskDecision, approved}
use quant_dss.Risk.Sectors.{Sector, sector_of}
use quant_dss.Risk.Rules.{
  Rule, rules, check, consecutive_errors_circuit_breaker, min_risk_reward_filter,
  global_market_regime_filter, daily_loss_circuit_breaker, weekly_loss_circuit_breaker,
  account_drawdown_halt, cooldown_filter, volatility_filter, position_sizer, max_position_size_cap,
  max_concurrent_positions, gross_exposure_filter, liquidity_filter, spread_filter,
  signal_time_gate_filter, max_signals_per_stock_per_day, correlation_filter,
}
use quant_dss.Risk.Rules.Loss.{get_api_error_count, loss_cap, drawdown}
use quant_dss.Risk.Rules.Market.{ist_day, window_start, window_now, window_end}
use quant_dss.Risk.Rules.Sizing.{stop_distance, trade_risk, risk_limit, notional, max_exposure}
use quant_dss.Risk.Rules.Stock.{count_today, max_per_stock, sector_count}
use quant_dss.Risk.Engine.{Sizing, unsized, carry, validate}
use quant_dss.Risk.Chain.{Passes, next, validate-approved_iff}
use quant_dss.Risk.Limit.{
  GoesOn, errors_limit, cooldown_limit, liquidity_limit, window_limit, positions_limit, stock_limit,
  sector_limit, reward_limit, daily_limit, weekly_limit, drawdown_limit, volatility_limit,
  size_limit, exposure_limit, status_goes_on,
}

module _ {W : Type 0} ⦃f : Float W⦄ where
  -- The limits of the configuration, on the readings and the state from which a call begins.
  pub record WithinLimits (c : Context W) (s : EngineState W) : Type 0 where
    pub errors :
        get_api_error_count c.readings.api_errors < or_default 5 c.config.max_consecutive_errors
    pub reward :
        (rr : W) × (risk_reward c.signal ≡ ok rr)
        × (f.lt rr (or_default (f.lit 15 1) c.config.min_risk_reward) ≡ false)
    pub daily_loss :
        f.le (or_default nought s.daily.realised_pnl) (
          f.neg (
            loss_cap c.config.max_daily_loss_inr c.portfolio.current_balance
              c.config.max_daily_loss_pct))
        ≡ false
    pub weekly_loss :
        f.le c.portfolio.weekly_realised_pnl (
          f.neg (
            loss_cap
              (or_default (f.lit 2000 0) c.config.max_weekly_loss_inr)
              c.portfolio.current_balance
              (or_default (f.lit 5 2) c.config.max_weekly_loss_pct)))
        ≡ false
    pub drawdown_capped :
        (f.le c.portfolio.peak_balance nought ≡ true)
        ⊎ ((dd : W) × (drawdown c ≡ ok dd) × (f.le c.config.max_account_drawdown_pct dd ≡ false))
    pub cooled_down :
        (t : Stamp)
        → is_scanner c.signal ≡ false
        → s.daily.last_signal_time ≡ some t
        → as_utc t + c.config.cooldown_minutes * 60_000_000 ≤ c.readings.now_cooldown
    pub volatility :
        (f.le c.signal.entry_price nought ≡ false)
        × ((ratio : W) × (divide c.signal.atr_value c.signal.entry_price ≡ ok ratio)
            × (f.lt
                  (f.mul c.config.max_atr_pct (f.of_int (pos 100)))
                  (f.mul ratio (f.of_int (pos 100)))
                ≡ false)
            × ((is_scanner c.signal ≡ true)
                ⊎ (f.lt
                      (f.mul ratio (f.of_int (pos 100)))
                      (f.mul c.config.min_atr_pct (f.of_int (pos 100)))
                    ≡ false)))
    pub stop_is_off : f.eq (stop_distance c) nought ≡ false
    pub budget : f.lt (risk_limit c) (f.add c.portfolio.committed_risk (trade_risk c)) ≡ false
    pub positions : c.portfolio.open_positions < c.config.max_concurrent_positions
    pub exposure : f.le (max_exposure c) (notional c) ≡ false
    pub liquidity :
        is_scanner c.signal ≡ false
        → (adv : ℤ) × (lookup c.signal.symbol_id s.adv_cache ≡ some adv)
          × (ltb_ℤ adv (or_default (pos 500_000) c.config.min_daily_volume) ≡ false)
    pub window : (window_start c ≤ window_now c) × (window_now c ≤ window_end c)
    pub per_stock :
        (n : ℕ)
        → count_today c.signal.symbol_id (ist_day c.readings.now_stock) s.counts ≡ some n
        → n < max_per_stock c
    pub per_sector :
        (k : Sector)
        → sector_of c.signal.symbol_name ≡ some k
        → sector_count k c.portfolio.open_symbols < or_default 3 c.config.max_correlated_positions

abbrev is_stock : Rule → Bool
is_stock max_signals_per_stock_per_day = true
is_stock _ = false

module _ {W : Type 0} ⦃f : Float W⦄ (c : Context W) where
  -- A rule that lets the loop go on leaves the state alone, but for the counts of rule 11.
  check-same :
      (r : Rule) (s t : EngineState W) (d : RiskDecision W)
      → is_stock r ≡ false
      → check c r s ≡ (ok d, t)
      → GoesOn d
      → t ≡ s
  unfolding check
  check-same daily_loss_circuit_breaker s t d n e h = (daily_limit c d s t e h).1
  check-same weekly_loss_circuit_breaker s t d n e h = (weekly_limit c d s t e h).1
  check-same account_drawdown_halt s t d n e h = (drawdown_limit c d s t e h).1
  check-same max_signals_per_stock_per_day s t d n e h = absurd (cc n)
  check-same _ s t d n e h = ground arith

  -- The rule ran from the state `s` and let the loop go on.
  abbrev Ran : EngineState W → Rule → Type 0
  Ran s r = (d : RiskDecision W) × (check c r s ≡ (ok d, s)) × GoesOn d

  -- Of rules that leave the state alone, each ran from the first state.
  Passes-Ran :
      (rs post : List Rule) (z y : Sizing W) (s u : EngineState W)
      → All (λ r. is_stock r ≡ false) rs
      → Passes (check c) (rs ++ post) z s y u
      → All (Ran s) rs × ((x : Sizing W) × Passes (check c) post x s y u)
  Passes-Ran [] post z y s u n p = (tt, (z, p))
  Passes-Ran (r ∷ rs) post z y s u n (next d t e h p) =
      let on = status_goes_on d.status h in
      let same = check-same r s t d n.0 e on in
      let rest =
        Passes-Ran rs post (carry d z) y s u n.1
          (subst (λ v. Passes (check c) (rs ++ post) (carry d z) v y u) same p) in
      (((d, e ∙ ap (λ v. (ok d, v)) same, on), rest.0), rest.1)

  -- The rules in front of rule 11.
  abbrev before : List Rule
  before =
      consecutive_errors_circuit_breaker ∷ min_risk_reward_filter ∷ global_market_regime_filter
      ∷ daily_loss_circuit_breaker ∷ weekly_loss_circuit_breaker ∷ account_drawdown_halt
      ∷ cooldown_filter ∷ volatility_filter ∷ position_sizer ∷ max_position_size_cap
      ∷ max_concurrent_positions ∷ gross_exposure_filter ∷ liquidity_filter ∷ spread_filter
      ∷ signal_time_gate_filter ∷ []

  GoesOn-of :
      (v d : RiskDecision W) (s t : EngineState W)
      → ◌≡◌ {A = Result (RiskDecision W) × EngineState W} (ok v, s) (ok d, t)
      → GoesOn d
      → GoesOn v
  GoesOn-of v d s t e on = let same : v ≡ d = cc e in rw same on

  result_of :
      (r : Result (RiskDecision W)) (d : RiskDecision W) (s t : EngineState W)
      → ◌≡◌ {A = Result (RiskDecision W) × EngineState W} (r, s) (ok d, t)
      → r ≡ ok d
  result_of r d s t e = cc e

  Ran-WithinLimits :
      (s u : EngineState W) (x y : Sizing W)
      → All (Ran s) before
      → Passes (check c) (max_signals_per_stock_per_day ∷ correlation_filter ∷ []) x s y u
      → WithinLimits c s
  unfolding check
  Ran-WithinLimits s u x y
        (
          r0,
          (
            r1,
            (
              r2,
              (r3, (r4, (r5, (r6, (r7, (r8, (r9, (r10, (r11, (r12, (r13, (r14, nothing)))))))))))),
            ),
          ),
        )
        (next d v e n (next d' v' e' n' p)) =
      record {
        errors = errors_limit c (GoesOn-of _ r0.0 s s r0.1 r0.2);
        reward = reward_limit c r1.0 (result_of _ r1.0 s s r1.1) r1.2;
        daily_loss = (daily_limit c r3.0 s s r3.1 r3.2).0;
        weekly_loss = (weekly_limit c r4.0 s s r4.1 r4.2).0;
        drawdown_capped = (drawdown_limit c r5.0 s s r5.1 r5.2).0;
        cooled_down = λ t. cooldown_limit c s t (GoesOn-of _ r6.0 s s r6.1 r6.2);
        volatility = volatility_limit c r7.0 (result_of _ r7.0 s s r7.1) r7.2;
        stop_is_off = (size_limit c r8.0 (result_of _ r8.0 s s r8.1) r8.2).0;
        budget = (size_limit c r8.0 (result_of _ r8.0 s s r8.1) r8.2).1;
        positions = positions_limit c (GoesOn-of _ r10.0 s s r10.1 r10.2);
        exposure = exposure_limit c (GoesOn-of _ r11.0 s s r11.1 r11.2);
        liquidity = liquidity_limit c s (GoesOn-of _ r12.0 s s r12.1 r12.2);
        window = window_limit c (GoesOn-of _ r14.0 s s r14.1 r14.2);
        per_stock = λ m. stock_limit c s m (GoesOn-of _ d _ v e (status_goes_on d.status n));
        per_sector = λ k. sector_limit c k (GoesOn-of _ d' _ v' e' (status_goes_on d'.status n'));
      }

  -- If `validate` approves a signal, then on the readings and the state from which the call began
  -- the limits of the configuration held: API errors, risk-reward, daily and weekly loss, drawdown,
  -- unless the peak of the balance is not positive, the upper bound of the volatility, stop
  -- distance, risk budget, open positions, gross exposure, time window, signals per stock, where a
  -- count of the day is stored, and positions per sector; and, unless the signal is from the
  -- scanner, also the cooldown, the lower bound of the volatility and the average volume, which is
  -- known.
  pub validate-WithinLimits :
      (s u : EngineState W) (d : RiskDecision W)
      → validate c s ≡ (ok d, u)
      → d.status ≡ approved
      → WithinLimits c s
  unfolding rules
  validate-WithinLimits s u d e a =
      let (y, p, w) = (validate-approved_iff c s u d).0 (e, a) in
      let (ran, (x, q)) =
        Passes-Ran before (max_signals_per_stock_per_day ∷ correlation_filter ∷ []) unsized y s u
          (
            refl,
            (
              refl,
              (
                refl,
                (
                  refl,
                  (
                    refl,
                    (
                      refl,
                      (refl, (refl, (refl, (refl, (refl, (refl, (refl, (refl, (refl, tt))))))))),
                    ),
                  ),
                ),
              ),
            ),
          )
          p in
      Ran-WithinLimits s u x y ran q

  -- While the volume cache is empty, `validate` approves no signal but a scanner's.
  pub validate-empty_cache :
      (s u : EngineState W) (d : RiskDecision W)
      → s.adv_cache ≡ []
      → is_scanner c.signal ≡ false
      → validate c s ≡ (ok d, u)
      → d.status ≢ approved
  validate-empty_cache s u d empty plain_signal e a =
      let (adv, found, enough) = (validate-WithinLimits s u d e a).liquidity plain_signal in
      cc (sym (ap (λ cache. lookup c.signal.symbol_id cache) empty) ∙ found)
