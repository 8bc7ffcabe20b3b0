-- ===== src/Paper/Stops.antt =====
-- engine/paper_monitor.py: the trailing stop moves in the favour of the trade only.
use quant_dss.Base.{
  ℕ, ◌≡◌, true, List, [], ◌∷◌, String, arith, inl, inr, Option-cases, subst, some, ◌⊎◌,
}
use quant_dss.Base.Dict.{Dict, string_key, lookup}
use quant_dss.Base.Float.{Float, IsOrdered}
use quant_dss.Paper.{
  Direction, buy, sell, PaperTrade, Account, trailed, close_trade, check_trade, visit,
}

module _ {W : Type 0} ⦃f : Float W⦄ where
  -- The later stop is at least as good for the direction as the earlier one.
  abbrev pub Tightens : Direction → W → W → Type 0
  Tightens buy old new = f.le old new ≡ true
  Tightens sell old new = f.le new old ≡ true

  -- Runs of the monitor on one trade, each at its time with its prices.
  abbrev pub watch : List (ℕ × Dict String W) → PaperTrade W → Account W → PaperTrade W × Account W
  watch [] t a = (t, a)
  watch ((now, ltps) ∷ l) t a = let (t', a') = visit now ltps t a in watch l t' a'

  module _ (o : IsOrdered W) where
    trailed-Tightens :
        (ltp : W) (t : PaperTrade W)
        → f.le t.stop_loss t.stop_loss ≡ true
        → Tightens t.direction t.stop_loss (trailed ltp t)
    unfolding trailed
    trailed-Tightens ltp t n =
        let long = f.sub ltp (f.mul (f.lit 10 1) (f.sub t.entry_price t.stop_loss)) in
        let short = f.add ltp (f.mul (f.lit 10 1) (f.sub t.stop_loss t.entry_price)) in
        ground (arith, o.lt-le t.stop_loss long, o.lt-le short t.stop_loss)

    visit-priced :
        (now : ℕ) (ltps : Dict String W) (ltp : W) (t : PaperTrade W) (a : Account W)
        → lookup t.symbol ltps ≡ some ltp
        → ((visit now ltps t a).0.stop_loss ≡ t.stop_loss)
          ⊎ ((visit now ltps t a).0.stop_loss ≡ trailed ltp t)
    unfolding visit check_trade close_trade
    visit-priced now ltps ltp t a e = ground (arith, e)

    -- One run leaves the stop or trails it, and keeps the direction.
    visit-stop :
        (now : ℕ) (ltps : Dict String W) (t : PaperTrade W) (a : Account W)
        → ((visit now ltps t a).0.direction ≡ t.direction)
          × (((visit now ltps t a).0.stop_loss ≡ t.stop_loss)
              ⊎ ((ltp : W) × ((visit now ltps t a).0.stop_loss ≡ trailed ltp t)))
    unfolding visit check_trade close_trade
    visit-stop now ltps t a = (
      ground arith,
      elim (Option-cases (lookup t.symbol ltps)) [
        | inl e ↦ inl (ground (arith, e))
        | inr (ltp, e) ↦ elim (visit-priced now ltps ltp t a e) [
          | inl h ↦ inl h
          | inr h ↦ inr (ltp, h)
        ]
      ],
    )

    number-Tightens : (d : Direction) (old new : W) → Tightens d old new → f.le new new ≡ true
    number-Tightens buy old new h = o.le_refl_right old new h
    number-Tightens sell old new h = o.le_refl_left new old h

    refl-Tightens : (d : Direction) (x : W) → f.le x x ≡ true → Tightens d x x
    refl-Tightens buy x n = n
    refl-Tightens sell x n = n

    trans-Tightens : (d : Direction) (x y z : W) → Tightens d x y → Tightens d y z → Tightens d x z
    trans-Tightens buy x y z h k = o.le_trans x y z h k
    trans-Tightens sell x y z h k = o.le_trans z y x k h

    visit-Tightens :
        (now : ℕ) (ltps : Dict String W) (t : PaperTrade W) (a : Account W)
        → f.le t.stop_loss t.stop_loss ≡ true
        → Tightens t.direction t.stop_loss (visit now ltps t a).0.stop_loss
    visit-Tightens now ltps t a n = elim (visit-stop now ltps t a).1 [
      | inl e ↦ rw e (refl-Tightens t.direction t.stop_loss n)
      | inr (ltp, e) ↦ rw e (trailed-Tightens ltp t n)
    ]

    -- If the order of numbers is that of IEEE 754 and a trade's stop is a number, then after any
    -- runs of the monitor, at whatever times and prices, the stop is at least as good for the
    -- trade's direction as it was.
    pub watch-Tightens :
        (runs : List (ℕ × Dict String W)) (t : PaperTrade W) (a : Account W)
        → f.le t.stop_loss t.stop_loss ≡ true
        → Tightens t.direction t.stop_loss (watch runs t a).0.stop_loss
    watch-Tightens [] t a n = refl-Tightens t.direction t.stop_loss n
    watch-Tightens ((now, ltps) ∷ l) t a n =
        let r = visit now ltps t a in
        let first = visit-Tightens now ltps t a n in
        let later =
          watch-Tightens l r.0 r.1 (number-Tightens t.direction t.stop_loss r.0.stop_loss first) in
        trans-Tightens t.direction t.stop_loss r.0.stop_loss (watch l r.0 r.1).0.stop_loss first (
          subst (λ d. Tightens d r.0.stop_loss (watch l r.0 r.1).0.stop_loss)
            (visit-stop now ltps t a).0 later)
