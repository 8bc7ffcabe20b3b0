-- ===== src/Backtest/Halt.antt =====
-- engine/backtest_engine.py: one position at a time, and the halt of a day.
use quant_dss.Base.{
  ℕ, ◌≡◌, refl, ap, ◌∙◌, true, false, ◌||◌, Option, none, some, List, [], ◌∷◌, arith, take, All,
  elim_option, elim_if, subst,
}
use quant_dss.Base.Float.{Float}
use quant_dss.Risk.Types.{RiskDecision}
use quant_dss.Backtest.Types.{
  Bar, BacktestTrade, BacktestEngine, Simulation, SimulatedDailyRiskState,
}
use quant_dss.Backtest.Trade.{exit_of, trailed, left, exit_price_of}
use quant_dss.Backtest.Engine.{
  is_date, approved_quantity, counted, book, portfolio_of, renewed, fill, new_day, watch_trade,
  settle, consider, look, is_open, recorded, step, simulate, start,
}

module _ {W E : Type 0} where
  -- Between two bars.
  pub record IsSingle (s : Simulation W E) : Type 0 where
    pub single : (t : BacktestTrade W) → s.open_trade ≡ some t → s.pending ≡ none
    pub halted : s.sim_state.is_halted ≡ true → (s.open_trade ≡ none) × (s.pending ≡ none)

  -- Within a bar, after the fill.
  record IsFilled (s : Simulation W E) : Type 0 where
    no_pending : s.pending ≡ none
    no_open : s.sim_state.is_halted ≡ true → s.open_trade ≡ none

  IsFilled-IsSingle : (s : Simulation W E) → IsFilled s → IsSingle s
  IsFilled-IsSingle s h = record {
    single = λ t o. h.no_pending;
    halted = λ x. (h.no_open x, h.no_pending);
  }

module _ {W : Type 0} ⦃f : Float W⦄ where
  counted-halt :
      (now : ℕ) (d : RiskDecision W) (r : SimulatedDailyRiskState W)
      → r.is_halted ≡ false
      → (counted now d r).is_halted ≡ true
      → approved_quantity d.status d.quantity ≡ none
  counted-halt now d r off h = ground (arith, off, h)

module _ {W E : Type 0} ⦃f : Float W⦄ where
  closed_cases :
      (s : Simulation W E)
      → (is_open s || s.sim_state.is_halted) ≡ false
      → (s.open_trade ≡ none) × (s.sim_state.is_halted ≡ false)
  closed_cases s h = (ground (arith, h), ground (arith, h))

module _ {W X E : Type 0} ⦃f : Float W⦄ where
  fill-IsFilled : (bar : Bar W X) (s : Simulation W E) → IsSingle s → IsFilled (fill bar s)
  fill-IsFilled bar s h =
      elim_option IsFilled s.open_trade _ _
        (λ o.
          elim_option IsFilled s.pending _ _ (λ p. record { no_pending = p; no_open = λ x. o })
            (λ q p. record { no_pending = refl; no_open = λ x. absurd (cc ((h.halted x).1, p)) }))
        (λ t o. record { no_pending = h.single t o; no_open = λ x. (h.halted x).0 })

  new_day-IsFilled : (bar : Bar W X) (s : Simulation W E) → IsFilled s → IsFilled (new_day bar s)
  new_day-IsFilled bar s h =
      elim_option IsFilled bar.date s _ (λ o. h)
        (λ d o.
          elim_if IsFilled (is_date d s.current_trade_date) s (renewed d s) (λ c. h)
            (λ c. record { no_pending = h.no_pending; no_open = λ x. absurd (cc x) }))

  settle-IsFilled :
      (e : BacktestEngine W X E) (bar : Bar W X) (s : Simulation W E)
      → IsFilled s
      → IsFilled (settle e bar s)
  settle-IsFilled e bar s h =
      elim_option IsFilled s.open_trade _ _ (λ o. h)
        (λ t o.
          let t' = trailed e s.current_atr bar t in
          elim_option IsFilled (exit_of bar t') (record s { open_trade = some t' })
            (λ r. book (left (exit_price_of bar.close r t') bar.time r t') s)
            (λ x. record { no_pending = h.no_pending; no_open = λ y. absurd (cc (h.no_open y, o)) })
            (λ r x. record { no_pending = h.no_pending; no_open = λ y. refl }))

  consider-IsSingle :
      (e : BacktestEngine W X E) (now : ℕ) (signal : _) (s : Simulation W E)
      → IsFilled s
      → s.open_trade ≡ none
      → s.sim_state.is_halted ≡ false
      → IsSingle (consider e now signal s)
  consider-IsSingle e now signal s h o off =
      let r = e.validate signal s.sim_state (portfolio_of s) s.risk_engine in
      record {
        single = λ t x. absurd (cc (o, x));
        halted = λ x. (
          o,
          elim_option (λ p. p ≡ none) (approved_quantity r.0.status r.0.quantity) s.pending
              (λ q. some (signal, q)) (λ n. h.no_pending)
              (λ q n. absurd (cc (n, counted-halt now r.0 s.sim_state off x))),
        );
      }

  look-IsSingle :
      (e : BacktestEngine W X E) (window : List (Bar W X)) (bar : Bar W X) (s : Simulation W E)
      → IsFilled s
      → IsSingle (look e window bar s)
  look-IsSingle e window bar s h =
      elim_if IsSingle (is_open s || s.sim_state.is_halted) s _ (λ c. IsFilled-IsSingle s h)
        (λ c.
          elim_option IsSingle (e.evaluate window) s (λ signal. consider e bar.time signal s)
            (λ n. IsFilled-IsSingle s h)
            (λ signal n.
              let k = closed_cases s c in consider-IsSingle e bar.time signal s h k.0 k.1))

  step-IsSingle :
      (e : BacktestEngine W X E) (seen : List (Bar W X)) (bar : Bar W X) (s : Simulation W E)
      → IsSingle s
      → IsSingle (step e seen bar s)
  unfolding step
  step-IsSingle e seen bar s h =
      let k = look-IsSingle e (take 201 seen) bar (settle e bar (new_day bar (fill bar s))) (
        settle-IsFilled e bar (new_day bar (fill bar s))
          (new_day-IsFilled bar (fill bar s) (fill-IsFilled bar s h))) in
      record { single = k.single; halted = k.halted }

  simulate-IsSingle :
      (e : BacktestEngine W X E) (seen bars : List (Bar W X)) (s : Simulation W E)
      → IsSingle s
      → IsSingle (simulate e seen bars s).1
  unfolding simulate
  simulate-IsSingle e seen [] s h = h
  simulate-IsSingle e seen (bar ∷ bars) s h =
      simulate-IsSingle e (bar ∷ seen) bars (step e (bar ∷ seen) bar s)
        (step-IsSingle e (bar ∷ seen) bar s h)

  start-IsSingle : (e : BacktestEngine W X E) (engine : E) → IsSingle (start e engine)
  start-IsSingle e engine = record { single = λ t o. refl; halted = λ x. (refl, refl) }

-- A bar has no date, or the one of the last reset.
abbrev pub IsSameDate : (today date : Option ℕ) → Type 0
IsSameDate today none = Unit
IsSameDate today (some d) = is_date d today ≡ true

module _ {W X E : Type 0} ⦃f : Float W⦄ where
  -- The state with only the balance recorded for each bar.
  abbrev pub idle : List (Bar W X) → Simulation W E → Simulation W E
  idle [] s = s
  idle (b ∷ bs) s = idle bs (recorded s)

  fill-none :
      (bar : Bar W X) (s : Simulation W E) → s.open_trade ≡ none → s.pending ≡ none → fill bar s ≡ s
  fill-none bar s o p =
      elim_option (λ r. r ≡ s) s.open_trade _ _
        (λ n. elim_option (λ r. r ≡ s) s.pending _ _ (λ m. refl) (λ q m. absurd (cc (p, m))))
        (λ t n. refl)

  new_day-same :
      (bar : Bar W X) (s : Simulation W E)
      → IsSameDate s.current_trade_date bar.date
      → new_day bar s ≡ s
  new_day-same bar s h =
      elim_option (λ r. r ≡ s) bar.date s _ (λ n. refl)
        (λ d n.
          elim_if (λ r. r ≡ s) (is_date d s.current_trade_date) s (renewed d s) (λ c. refl)
            (λ c. absurd (cc (c, subst (IsSameDate s.current_trade_date) n h))))

  settle-none :
      (e : BacktestEngine W X E) (bar : Bar W X) (s : Simulation W E)
      → s.open_trade ≡ none
      → settle e bar s ≡ s
  settle-none e bar s o =
      elim_option (λ r. r ≡ s) s.open_trade _ (λ t. watch_trade e bar t s) (λ n. refl)
        (λ t n. absurd (cc (o, n)))

  look-halted :
      (e : BacktestEngine W X E) (window : List (Bar W X)) (bar : Bar W X) (s : Simulation W E)
      → s.sim_state.is_halted ≡ true
      → look e window bar s ≡ s
  look-halted e window bar s h =
      elim_if (λ r. r ≡ s) (is_open s || s.sim_state.is_halted) s _ (λ c. refl)
        (λ c. absurd (cc ((closed_cases s c).1, h)))

  step-halted :
      (e : BacktestEngine W X E) (seen : List (Bar W X)) (bar : Bar W X) (s : Simulation W E)
      → IsSingle s
      → s.sim_state.is_halted ≡ true
      → IsSameDate s.current_trade_date bar.date
      → step e seen bar s ≡ recorded s
  unfolding step
  step-halted e seen bar s k h d =
      let flat = k.halted h in
      ap recorded (
        ap (λ r. look e (take 201 seen) bar (settle e bar (new_day bar r)))
          (fill-none bar s flat.0 flat.1)
        ∙ ap (λ r. look e (take 201 seen) bar (settle e bar r)) (new_day-same bar s d)
        ∙ ap (look e (take 201 seen) bar) (settle-none e bar s flat.0)
        ∙ look-halted e (take 201 seen) bar s h)

  halted-idle :
      (e : BacktestEngine W X E) (seen bars : List (Bar W X)) (s : Simulation W E)
      → IsSingle s
      → s.sim_state.is_halted ≡ true
      → All (λ b. IsSameDate s.current_trade_date b.date) bars
      → (simulate e seen bars s).1 ≡ idle bars s
  unfolding simulate
  halted-idle e seen [] s k h d = refl
  halted-idle e seen (b ∷ bs) s k h d =
      ap (λ r. (simulate e (b ∷ seen) bs r).1) (step-halted e (b ∷ seen) b s k h d.0)
      ∙ halted-idle e (b ∷ seen) bs (recorded s) (record { single = k.single; halted = k.halted }) h
          d.1

  -- Once a run, over whatever candles, has halted the day, every further candle of that day leaves
  -- all as it is but for the curve, to which it adds the balance: no trade is open, none is
  -- entered, and the risk engine is not asked.
  pub run_halted-idle :
      (e : BacktestEngine W X E) (engine : E) (seen past bars : List (Bar W X))
      → let s = (simulate e seen past (start e engine)).1 in
        s.sim_state.is_halted ≡ true
        → All (λ b. IsSameDate s.current_trade_date b.date) bars
        → ((simulate e (simulate e seen past (start e engine)).0 bars s).1 ≡ idle bars s)
          × (s.open_trade ≡ none)
          × (s.pending ≡ none)
  run_halted-idle e engine seen past bars h d =
      let r = simulate e seen past (start e engine) in
      let k = simulate-IsSingle e seen past (start e engine) (start-IsSingle e engine) in
      (halted-idle e r.0 bars r.1 k h d, (k.halted h).0, (k.halted h).1)
