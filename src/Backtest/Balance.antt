-- ===== src/Backtest/Balance.antt =====
-- engine/backtest_engine.py: the balance of a run and its curve.
use quant_dss.Base.{
  ℕ, ◌≡◌, refl, ap, ◌⊎◌, inl, inr, ◌||◌, Option, none, some, List, [], ◌∷◌, All, take, elim_option,
  elim_if, subst,
}
use quant_dss.Base.Float.{Float}
use quant_dss.Backtest.Types.{
  Bar, BacktestTrade, BacktestEngine, Simulation, ExitReason, unset, target_hit, stop_hit,
  trailing_stop, forced_exit,
}
use quant_dss.Backtest.Trade.{is_buy, stop_reason, exit_of, trailed, left, exit_price_of, gross_pnl}
use quant_dss.Backtest.Engine.{
  is_date, renewed, fill, new_day, watch_trade, settle, consider, look, is_open, book, step,
  simulate, force_close, start, skip, run,
}

-- A reason is given.
abbrev IsGiven : ExitReason → Type 0
IsGiven unset = ⊥
IsGiven r = Unit

-- The reason of an exit, if there is one, is given.
abbrev IsGivenIn : Option ExitReason → Type 0
IsGivenIn none = Unit
IsGivenIn (some r) = IsGiven r

module _ {W : Type 0} ⦃f : Float W⦄ where
  -- The balance after the trades, of which the last one comes first.
  abbrev pub balance_after : W → List (BacktestTrade W) → W
  balance_after b [] = b
  balance_after b (t ∷ l) = f.add (balance_after b l) t.pnl

  -- The price and profit of a trade that has left the market are those of its reason, with some
  -- price at which it is forced out.
  abbrev pub IsExited : BacktestTrade W → Type 0
  IsExited t =
      ((t.exit_reason ≡ target_hit) × (t.exit_price ≡ t.target_price)
        ⊎ (t.exit_reason ≡ stop_hit) × (t.exit_price ≡ t.stop_loss)
        ⊎ (t.exit_reason ≡ trailing_stop) × (t.exit_price ≡ t.stop_loss)
        ⊎ (t.exit_reason ≡ forced_exit))
      × (t.pnl ≡ gross_pnl t.exit_price t)

module _ {W E : Type 0} ⦃f : Float W⦄ where
  -- The books of a state, of a run that begins with the balance.
  pub record IsBooked (b : W) (s : Simulation W E) : Type 0 where
    pub balanced : s.balance ≡ balance_after b s.trades
    pub exited : All IsExited s.trades

  book-IsBooked :
      (b : W) (t : BacktestTrade W) (s : Simulation W E)
      → IsExited t
      → IsBooked b s
      → IsBooked b (book t s)
  book-IsBooked b t s x h = record {
    balanced = ap (λ a. f.add a t.pnl) h.balanced;
    exited = (x, h.exited);
  }

module _ {W : Type 0} ⦃f : Float W⦄ where
  left-IsExited :
      (close : W) (time : ℕ) (r : ExitReason) (t : BacktestTrade W)
      → IsGiven r
      → IsExited (left (exit_price_of close r t) time r t)
  left-IsExited close time unset t h = absurd h
  left-IsExited close time target_hit t h = (inl (refl, refl), refl)
  left-IsExited close time stop_hit t h = (inr (inl (refl, refl)), refl)
  left-IsExited close time trailing_stop t h = (inr (inr (inl (refl, refl))), refl)
  left-IsExited close time forced_exit t h = (inr (inr (inr refl)), refl)

  stop_reason-IsGiven : (t : BacktestTrade W) → IsGiven (stop_reason t)
  stop_reason-IsGiven t = elim_if IsGiven t.trailing_activated _ _ (λ c. tt) (λ c. tt)

module _ {W X : Type 0} ⦃f : Float W⦄ where
  exit_of-IsGivenIn : (bar : Bar W X) (t : BacktestTrade W) → IsGivenIn (exit_of bar t)
  unfolding exit_of
  exit_of-IsGivenIn bar t =
      elim_if IsGivenIn (is_buy t) _ _
        (λ a.
          elim_if IsGivenIn (f.le bar.low t.stop_loss) _ _ (λ c. stop_reason-IsGiven t)
            (λ c. elim_if IsGivenIn (f.le t.target_price bar.high) _ _ (λ d. tt) (λ d. tt)))
        (λ a.
          elim_if IsGivenIn (f.le t.stop_loss bar.high) _ _ (λ c. stop_reason-IsGiven t)
            (λ c. elim_if IsGivenIn (f.le bar.low t.target_price) _ _ (λ d. tt) (λ d. tt)))

  exit_of-is_set :
      (bar : Bar W X) (t : BacktestTrade W) (r : ExitReason) → exit_of bar t ≡ some r → IsGiven r
  exit_of-is_set bar t r e = subst IsGivenIn e (exit_of-IsGivenIn bar t)

module _ {W X E : Type 0} ⦃f : Float W⦄ where
  fill-IsBooked :
      (b : W) (bar : Bar W X) (s : Simulation W E) → IsBooked b s → IsBooked b (fill bar s)
  fill-IsBooked b bar s h =
      elim_option (IsBooked b) s.open_trade _ _
        (λ o.
          elim_option (IsBooked b) s.pending _ _ (λ p. h)
            (λ q p. record { balanced = h.balanced; exited = h.exited }))
        (λ t o. h)

  new_day-IsBooked :
      (b : W) (bar : Bar W X) (s : Simulation W E) → IsBooked b s → IsBooked b (new_day bar s)
  new_day-IsBooked b bar s h =
      elim_option (IsBooked b) bar.date s _ (λ o. h)
        (λ d o.
          elim_if (IsBooked b) (is_date d s.current_trade_date) s (renewed d s) (λ c. h)
            (λ c. record { balanced = h.balanced; exited = h.exited }))

  watch_trade-IsBooked :
      (b : W) (e : BacktestEngine W X E) (bar : Bar W X) (t : BacktestTrade W) (s : Simulation W E)
      → IsBooked b s
      → IsBooked b (watch_trade e bar t s)
  watch_trade-IsBooked b e bar t s h =
      let t' = trailed e s.current_atr bar t in
      elim_option (IsBooked b) (exit_of bar t') _ _
        (λ x. record { balanced = h.balanced; exited = h.exited })
        (λ r x.
          book-IsBooked b (left (exit_price_of bar.close r t') bar.time r t') s
            (left-IsExited bar.close bar.time r t' (exit_of-is_set bar t' r x)) h)

  settle-IsBooked :
      (b : W) (e : BacktestEngine W X E) (bar : Bar W X) (s : Simulation W E)
      → IsBooked b s
      → IsBooked b (settle e bar s)
  settle-IsBooked b e bar s h =
      elim_option (IsBooked b) s.open_trade _ _ (λ o. h) (λ t o. watch_trade-IsBooked b e bar t s h)

  look-IsBooked :
      (b : W) (e : BacktestEngine W X E) (window : List (Bar W X)) (bar : Bar W X)
      (s : Simulation W E)
      → IsBooked b s
      → IsBooked b (look e window bar s)
  look-IsBooked b e window bar s h =
      elim_if (IsBooked b) (is_open s || s.sim_state.is_halted) _ _ (λ c. h)
        (λ c.
          elim_option (IsBooked b) (e.evaluate window) s (λ signal. consider e bar.time signal s)
            (λ n. h) (λ signal n. record { balanced = h.balanced; exited = h.exited }))

  step-IsBooked :
      (b : W) (e : BacktestEngine W X E) (seen : List (Bar W X)) (bar : Bar W X)
      (s : Simulation W E)
      → IsBooked b s
      → IsBooked b (step e seen bar s)
  unfolding step
  step-IsBooked b e seen bar s h =
      let k = look-IsBooked b e (take 201 seen) bar (settle e bar (new_day bar (fill bar s))) (
        settle-IsBooked b e bar (new_day bar (fill bar s))
          (new_day-IsBooked b bar (fill bar s) (fill-IsBooked b bar s h))) in
      record { balanced = k.balanced; exited = k.exited }

  simulate-IsBooked :
      (b : W) (e : BacktestEngine W X E) (seen bars : List (Bar W X)) (s : Simulation W E)
      → IsBooked b s
      → IsBooked b (simulate e seen bars s).1
  unfolding simulate
  simulate-IsBooked b e seen [] s h = h
  simulate-IsBooked b e seen (bar ∷ bars) s h =
      simulate-IsBooked b e (bar ∷ seen) bars (step e (bar ∷ seen) bar s)
        (step-IsBooked b e (bar ∷ seen) bar s h)

  force_close-IsBooked :
      (b : W) (seen : List (Bar W X)) (s : Simulation W E)
      → IsBooked b s
      → IsBooked b (force_close seen s)
  force_close-IsBooked b [] s h = elim_option (IsBooked b) s.open_trade _ _ (λ o. h) (λ t o. h)
  force_close-IsBooked b (bar ∷ seen) s h =
      elim_option (IsBooked b) s.open_trade _ _ (λ o. h)
        (λ t o. record {
          balanced = ap (λ a. f.add a (gross_pnl bar.close t)) h.balanced;
          exited = (left-IsExited bar.close bar.time forced_exit t tt, h.exited);
        })

  -- Whatever the candles, the strategy and the risk engine are: the final balance is the initial one
  -- with the profit of each trade added in turn, and each trade has left at its target, at its stop,
  -- or by the forced exit, with the profit of the price at which it left.
  pub run-IsBooked :
      (e : BacktestEngine W X E) (candles : List (Bar W X)) (engine : E)
      → IsBooked e.initial_balance (run e candles engine)
  unfolding run
  run-IsBooked e candles engine =
      let (seen, bars) = skip e.min_candles_required [] candles in
      let r = simulate e seen bars (start e engine) in
      force_close-IsBooked e.initial_balance r.0 r.1 (
        simulate-IsBooked e.initial_balance e seen bars (start e engine)
          (record { balanced = refl; exited = tt }))
