-- ===== src/Monitor/Stops.antt =====
-- workers/trade_monitor_worker.py: what the runs do to the stop of a paper trade.
use quant_dss.Base.{
  ◌≡◌, refl, subst, Bool, true, false, Option, some, List, [], ◌∷◌, arith, elim_if, elim_option,
  if◌then◌else◌,
}
use quant_dss.Base.Float.{Float, IsOrdered}
use quant_dss.Leases.{Redis}
use quant_dss.Paper.{PaperTrade, opened, closed, Status}
use quant_dss.Monitor.{
  Round, Till, is_buy, is_square_off, is_stopped, is_reached, lock_trade, trails, proposed_stop,
  trailed_stop, square_off, watch_paper, visit_paper, close_at,
}

-- What the code relies on of `round(x, 2)`.
pub record IsRounding (W : Type 0) ⦃f : Float W⦄ : Type 0 where
  pub round_le : (x y : W) → f.le x y ≡ true → f.le (f.round 2 x) (f.round 2 y) ≡ true
  pub round_round : (x : W) → f.round 2 (f.round 2 x) ≡ f.round 2 x

-- A run, with the price that it finds of each trade.
abbrev pub Run : Type 0 → Type 0
Run W = Round × (PaperTrade W → Option W)

elim_status {ℓ κ} :
    {B : Type ℓ} (P : B → Type κ) (s : Status) (x y : B)
    → P x
    → (s ≡ opened → P y)
    → P (elim s [ closed ↦ x | opened ↦ y ])
elim_status P closed x y h k = h
elim_status P opened x y h k = k refl

module _ {W : Type 0} ⦃f : Float W⦄ where
  -- The later stop is at least as good for the direction as the earlier one.
  abbrev pub Tightens : Bool → W → W → Type 0
  Tightens true old new = f.le old new ≡ true
  Tightens false old new = f.le new old ≡ true

  -- A stop that is a number of whole cents, and at least as good as an earlier one.
  abbrev pub IsKept : Bool → W → W → Type 0
  IsKept b old new = Tightens b old new × (f.round 2 new ≡ new)

  module _ {S : Type 0} ⦃r : Redis S⦄ where
    -- Runs of the worker on one trade.
    abbrev pub watch_all : List (Run W) → PaperTrade W → Till W S → PaperTrade W × Till W S
    watch_all [] t w = (t, w)
    watch_all ((round, price) ∷ l) t w =
        let (t', w') = visit_paper round price t w in watch_all l t' w'

    pub visit_cases :
        (P : PaperTrade W × Till W S → Type 0) (round : Round) (price : PaperTrade W → Option W)
        (t : PaperTrade W) (w : Till W S)
        → P (t, w)
        → ((ltp : W) → t.status ≡ opened → price t ≡ some ltp → P (watch_paper round ltp t w))
        → P (visit_paper round price t w)
    unfolding visit_paper
    visit_cases P round price t w h k = elim_status P t.status _ _ h (λ e.
        elim_option P (price t) (t, w) (λ ltp. watch_paper round ltp t w) (λ e. h) (λ ltp. k ltp e))

  module _ (o : IsOrdered W) (u : IsRounding W) where
    rounded_above :
        (old x : W) → f.round 2 old ≡ old → f.lt old x ≡ true → f.le old (f.round 2 x) ≡ true
    rounded_above old x e h =
        subst (λ y. f.le y (f.round 2 x) ≡ true) e (u.round_le old x (o.lt-le old x h))

    rounded_below :
        (old x : W) → f.round 2 old ≡ old → f.lt x old ≡ true → f.le (f.round 2 x) old ≡ true
    rounded_below old x e h =
        subst (λ y. f.le (f.round 2 x) y ≡ true) e (u.round_le x old (o.lt-le x old h))

    rounded :
        (b : Bool) (entry stop ltp : W)
        → f.round 2 stop ≡ stop
        → trails b entry stop ltp ≡ true
        → IsKept b stop (f.round 2 (proposed_stop b entry stop ltp))
    unfolding trails
    rounded true entry stop ltp e h = (
      rounded_above stop (proposed_stop true entry stop ltp) e (ground (arith, h)),
      u.round_round (proposed_stop true entry stop ltp),
    )
    rounded false entry stop ltp e h = (
      rounded_below stop (proposed_stop false entry stop ltp) e (ground (arith, h)),
      u.round_round (proposed_stop false entry stop ltp),
    )

    same :
        (b : Bool) (stop : W) → f.le stop stop ≡ true → f.round 2 stop ≡ stop → IsKept b stop stop
    same true stop n e = (n, e)
    same false stop n e = (n, e)

    trailed_stop-IsKept :
        (b : Bool) (entry stop ltp : W)
        → f.le stop stop ≡ true
        → f.round 2 stop ≡ stop
        → IsKept b stop (trailed_stop b entry stop ltp)
    unfolding trailed_stop
    trailed_stop-IsKept b entry stop ltp n e =
        elim_if (IsKept b stop) (trails b entry stop ltp)
          (f.round 2 (proposed_stop b entry stop ltp)) stop (rounded b entry stop ltp e)
          (λ off. same b stop n e)

    number-IsKept : (b : Bool) (old new : W) → IsKept b old new → f.le new new ≡ true
    number-IsKept true old new h = o.le_refl_right old new h.0
    number-IsKept false old new h = o.le_refl_left new old h.0

    trans-IsKept : (b : Bool) (x y z : W) → IsKept b x y → IsKept b y z → IsKept b x z
    trans-IsKept true x y z h k = (o.le_trans x y z h.0 k.0, k.1)
    trans-IsKept false x y z h k = (o.le_trans z y x k.0 h.0, k.1)

    module _ {S : Type 0} ⦃r : Redis S⦄ where
      -- A visit keeps the direction, and the stop is kept.
      abbrev Follows : PaperTrade W → PaperTrade W × Till W S → Type 0
      Follows t x =
          (x.0.direction ≡ t.direction) × IsKept (is_buy t.direction) t.stop_loss x.0.stop_loss

      square_off-Follows :
          (round : Round) (ltp : W) (t : PaperTrade W) (w : Till W S)
          → f.le t.stop_loss t.stop_loss ≡ true
          → f.round 2 t.stop_loss ≡ t.stop_loss
          → Follows t (square_off round ltp t w)
      unfolding square_off
      square_off-Follows round ltp t w n e =
          let w' : Till W S = record w { store = (lock_trade round t.id w.store).1 } in
          let k = same (is_buy t.direction) t.stop_loss n e in
          elim_if (Follows t) (lock_trade round t.id w.store).0 (close_at ltp t w') (t, w')
            (λ taken. (refl, k)) (λ held. (refl, k))

      watch_paper-Follows :
          (round : Round) (ltp : W) (t : PaperTrade W) (w : Till W S)
          → f.le t.stop_loss t.stop_loss ≡ true
          → f.round 2 t.stop_loss ≡ t.stop_loss
          → Follows t (watch_paper round ltp t w)
      unfolding watch_paper
      watch_paper-Follows round ltp t w n e =
          let b = is_buy t.direction in
          let k = same b t.stop_loss n e in
          let moved : PaperTrade W × Till W S =
            (record t { stop_loss = trailed_stop b t.entry_price t.stop_loss ltp }, w) in
          let at_target =
            if is_reached b t.target_price ltp then close_at t.target_price t w else moved in
          elim_if (Follows t) (is_square_off round) (square_off round ltp t w)
            (if is_stopped b t.stop_loss ltp then close_at t.stop_loss t w else at_target)
            (λ off. square_off-Follows round ltp t w n e)
            (λ on.
              elim_if (Follows t) (is_stopped b t.stop_loss ltp) (close_at t.stop_loss t w)
                at_target (λ hit. (refl, k))
                (λ alive.
                  elim_if (Follows t) (is_reached b t.target_price ltp)
                    (close_at t.target_price t w) moved (λ hit. (refl, k))
                    (λ open_. (refl, trailed_stop-IsKept b t.entry_price t.stop_loss ltp n e))))

      visit_paper-Follows :
          (round : Round) (price : PaperTrade W → Option W) (t : PaperTrade W) (w : Till W S)
          → f.le t.stop_loss t.stop_loss ≡ true
          → f.round 2 t.stop_loss ≡ t.stop_loss
          → Follows t (visit_paper round price t w)
      visit_paper-Follows round price t w n e =
          visit_cases (Follows t) round price t w (refl, same (is_buy t.direction) t.stop_loss n e)
            (λ ltp _ _. watch_paper-Follows round ltp t w n e)

      -- If a paper trade's stop is a number of whole cents, and rounding is monotone and idempotent,
      -- then after any runs of the worker, whatever their times, prices and locks, the stop is of
      -- whole cents and at least as good for the trade's direction as it was.
      pub watch_all-IsKept :
          (runs : List (Run W)) (t : PaperTrade W) (w : Till W S)
          → f.le t.stop_loss t.stop_loss ≡ true
          → f.round 2 t.stop_loss ≡ t.stop_loss
          → IsKept (is_buy t.direction) t.stop_loss (watch_all runs t w).0.stop_loss
      watch_all-IsKept [] t w n e = same (is_buy t.direction) t.stop_loss n e
      watch_all-IsKept ((round, price) ∷ l) t w n e =
          let x = visit_paper round price t w in
          let (d, first) = visit_paper-Follows round price t w n e in
          let later =
            watch_all-IsKept l x.0 x.1
              (number-IsKept (is_buy t.direction) t.stop_loss x.0.stop_loss first) first.1 in
          trans-IsKept (is_buy t.direction) t.stop_loss x.0.stop_loss
            (watch_all l x.0 x.1).0.stop_loss first
            (subst (λ d. IsKept (is_buy d) x.0.stop_loss (watch_all l x.0 x.1).0.stop_loss) d later)
