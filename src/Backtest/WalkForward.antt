-- ===== src/Backtest/WalkForward.antt =====
-- engine/backtest_engine.py: `walk_forward_test`.
use quant_dss.Base.{
  ℕ, zero, suc, ◌+◌, ◌≤◌, ◌<◌, ◌≡◌, refl, ◌∙◌, Bool, true, false, not, ◌&&◌, Option, none, some,
  List, [], ◌∷◌, arith, length, filter, ltb, leb, map, any, if◌then◌else◌, elim_if, Bool-cases, inl,
  inr,
}
use quant_dss.Base.Float.{Float}
use quant_dss.Backtest.Types.{Bar, BacktestEngine}
use quant_dss.Backtest.Engine.{run}
use quant_dss.Backtest.Metrics.{BacktestResult, result_of, reversed, total, count}

-- A window that was tested: its number, its bounds, and the result on its candles.
pub record Window (W : Type 0) : Type 0 where
  pub number : ℕ
  pub oos_start : ℕ
  pub oos_end : ℕ
  pub result : BacktestResult W

-- The variables of the loop, with the last window first, and the state of the risk engine.
pub record Walk (W E : Type 0) : Type 0 where
  pub window_start : ℕ
  pub window_idx : ℕ
  pub windows : List (Window W)
  pub risk_engine : E

pub record Report (W : Type 0) : Type 0 where
  pub windows : List (Window W)
  pub avg_win_rate_pct : W
  pub avg_profit_factor : W
  pub avg_max_drawdown_pct : W
  pub avg_total_return_pct : W
  pub is_robust : Bool

-- What the test answers with.
pub data Answer (W : Type 0) : Type 0 where
  insufficient_candles no_complete_windows : Answer W
  tested : Report W → Answer W

module _ {W X : Type 0} where
  abbrev pub is_in : (first end : ℕ) → Bar W X → Bool
  is_in first end b = leb first b.time && ltb b.time end

  -- `time_col.max()`, at least `t`.
  abbrev pub latest : ℕ → List (Bar W X) → ℕ
  latest t [] = t
  latest t (b ∷ l) = if ltb t b.time then latest b.time l else latest t l

  -- `time_col.min()` of sorted candles.
  abbrev pub earliest : List (Bar W X) → ℕ
  earliest [] = 0
  earliest (b ∷ l) = b.time

module _ {W : Type 0} ⦃f : Float W⦄ where
  -- `round(sum(…) / len(…), digits)` over windows that are not empty.
  abbrev pub average : (digits : ℕ) → (BacktestResult W → W) → List (Window W) → W
  average digits get l =
      f.round digits
        (f.quotient (total (map (λ (w : Window W). get w.result) l)) (count (length l)))

  abbrev pub report : List (Window W) → Answer W
  report [] = no_complete_windows
  report (w ∷ l) = tested (record {
    windows = w ∷ l;
    avg_win_rate_pct = average 1 (λ r. r.win_rate) (w ∷ l);
    avg_profit_factor = average 2 (λ r. r.profit_factor) (w ∷ l);
    avg_max_drawdown_pct = average 2 (λ r. r.max_drawdown_pct) (w ∷ l);
    avg_total_return_pct = average 2 (λ r. r.total_return_pct) (w ∷ l);
    is_robust =
        not (any (λ (v : Window W). not (f.lt (f.lit 10 1) v.result.profit_factor)) (w ∷ l));
  })

-- `add_months n t` is `t + pd.DateOffset(months=n)`.
module _ {W E : Type 0} (add_months : ℕ → ℕ → ℕ) where
  abbrev pub is_over : (last is_months oos_months : ℕ) → Walk W E → Bool
  is_over last is_months oos_months w =
      ltb last (add_months oos_months (add_months is_months w.window_start))

  abbrev pub first_walk : (window_start : ℕ) → E → Walk W E
  first_walk t engine = record {
    window_start = t;
    window_idx = 0;
    windows = [];
    risk_engine = engine;
  }

module _ {W X E : Type 0} ⦃f : Float W⦄ (add_months : ℕ → ℕ → ℕ) where
  -- One turn of the loop on a window that ends in time.
  abbrev pub advance :
      BacktestEngine W X E
      → (candles : List (Bar W X)) → (is_months oos_months : ℕ) → Walk W E
      → Walk W E
  advance e candles is_months oos_months w =
      let oos_start = add_months is_months w.window_start in
      let oos_end = add_months oos_months oos_start in
      let oos = filter (is_in oos_start oos_end) candles in
      let s = run e oos w.risk_engine in
      let moved = record w {
        window_start = add_months oos_months w.window_start;
        window_idx = suc w.window_idx;
      } in
      if ltb (length oos) 50 then moved else record moved {
        windows =
            record {
              number = suc w.window_idx;
              oos_start = oos_start;
              oos_end = oos_end;
              result = result_of e.initial_balance s;
            }
            ∷ w.windows;
        risk_engine = s.risk_engine;
      }

  -- The loop, which is `none` where the turns do not suffice.
  unfoldable pub walk :
      (turns : ℕ)
      → BacktestEngine W X E
      → (candles : List (Bar W X)) → (last : ℕ) → (is_months oos_months : ℕ) → Walk W E
      → Option (Walk W E)
  walk zero e candles last is_months oos_months w = none
  walk (suc n) e candles last is_months oos_months w =
      let rest =
        walk n e candles last is_months oos_months (advance e candles is_months oos_months w) in
      if is_over add_months last is_months oos_months w then some w else rest

  -- `walk_forward_test` of sorted candles, within as many turns of its loop.
  unfoldable pub walk_forward_test :
      (turns : ℕ)
      → BacktestEngine W X E
      → (candles : List (Bar W X)) → (is_months oos_months : ℕ) → E
      → Option (Answer W)
  walk_forward_test turns e candles is_months oos_months engine =
      if ltb (length candles) 100
      then some insufficient_candles
      else elim (walk turns e candles (latest 0 candles) is_months oos_months
          (first_walk add_months (earliest candles) engine)) [
            | none ↦ none
            | some w ↦ some (report (reversed w.windows))
          ]

  advance-window_start :
      (e : BacktestEngine W X E) (candles : List (Bar W X)) (is_months oos_months : ℕ)
      (w : Walk W E)
      → (advance e candles is_months oos_months w).window_start
        ≡ add_months oos_months w.window_start
  advance-window_start e candles is_months oos_months w =
      elim_if (λ (r : Walk W E). r.window_start ≡ add_months oos_months w.window_start)
        (ltb
          (length (
            filter
              (is_in (add_months is_months w.window_start)
                (add_months oos_months (add_months is_months w.window_start)))
              candles))
          50)
        _ _ (λ c. refl) (λ c. refl)

  walk-ends :
      (n : ℕ) (e : BacktestEngine W X E) (candles : List (Bar W X)) (last : ℕ)
      (is_months oos_months : ℕ) (w : Walk W E)
      → ((t : ℕ) → t ≤ add_months is_months t)
      → ((t : ℕ) → t < add_months oos_months t)
      → last < w.window_start + n
      → (r : Walk W E) × (walk (suc n) e candles last is_months oos_months w ≡ some r)
  unfolding walk
  walk-ends zero e candles last is_months oos_months w h k enough =
      let t = add_months is_months w.window_start in
      let over : is_over add_months last is_months oos_months w ≡ true =
        ground (arith, h w.window_start, k t, enough) in
      (w, rw over refl)
  walk-ends (suc n) e candles last is_months oos_months w h k enough =
      let w' = advance e candles is_months oos_months w in
      let later : w'.window_start ≡ add_months oos_months w.window_start =
        advance-window_start e candles is_months oos_months w in
      let (r, ends) =
        walk-ends n e candles last is_months oos_months w' h k
          (omega (arith, later, k w.window_start, enough)) in
      elim (Bool-cases (is_over add_months last is_months oos_months w)) [
        | inl over ↦ (w, rw over refl)
        | inr more ↦ (r, rw more ends)
      ]

  walk-endless :
      (turns : ℕ) (e : BacktestEngine W X E) (candles : List (Bar W X)) (last : ℕ)
      (is_months oos_months : ℕ) (w : Walk W E)
      → ((t : ℕ) → add_months oos_months t ≡ t)
      → add_months is_months w.window_start ≤ last
      → walk turns e candles last is_months oos_months w ≡ none
  unfolding walk
  walk-endless zero e candles last is_months oos_months w k more = refl
  walk-endless (suc n) e candles last is_months oos_months w k more =
      let w' = advance e candles is_months oos_months w in
      let same : w'.window_start ≡ w.window_start =
        advance-window_start e candles is_months oos_months w ∙ k w.window_start in
      let ih = walk-endless n e candles last is_months oos_months w' k (rw same more) in
      let t = add_months is_months w.window_start in
      let on : is_over add_months last is_months oos_months w ≡ false = ground (arith, k t, more) in
      rw on ih

  -- If every shift by the months of a window does not go back, and every shift by those of the test
  -- goes on, then the walk-forward test answers, within two more turns than its last time counts.
  pub walk_forward_test-ends :
      (n : ℕ) (e : BacktestEngine W X E) (candles : List (Bar W X)) (is_months oos_months : ℕ)
      (engine : E)
      → ((t : ℕ) → t ≤ add_months is_months t)
      → ((t : ℕ) → t < add_months oos_months t)
      → latest 0 candles < n
      → (a : Answer W) × (walk_forward_test (suc n) e candles is_months oos_months engine ≡ some a)
  unfolding walk_forward_test
  walk_forward_test-ends n e candles is_months oos_months engine h k enough =
      let (r, ends) =
        walk-ends n e candles (latest 0 candles) is_months oos_months
          (first_walk add_months (earliest candles) engine) h k (omega arith) in
      elim (Bool-cases (ltb (length candles) 100)) [
        | inl few ↦ (insufficient_candles, rw few refl)
        | inr many ↦ (report (reversed r.windows), rw (many, ends) refl)
      ]

  -- A test of no months, whose shift leaves a time where it is, has no answer in any number of
  -- turns, if there are a hundred candles and they last for the months before the test.
  pub walk_forward_test-endless :
      (turns : ℕ) (e : BacktestEngine W X E) (candles : List (Bar W X)) (is_months : ℕ) (engine : E)
      → ((t : ℕ) → add_months 0 t ≡ t)
      → 100 ≤ length candles
      → add_months is_months (earliest candles) ≤ latest 0 candles
      → walk_forward_test turns e candles is_months 0 engine ≡ none
  unfolding walk_forward_test
  walk_forward_test-endless turns e candles is_months engine k many long =
      let never =
        walk-endless turns e candles (latest 0 candles) is_months 0
          (first_walk add_months (earliest candles) engine) k long in
      let enough : ltb (length candles) 100 ≡ false = ground arith in rw (enough, never) refl
