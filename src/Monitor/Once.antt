-- ===== src/Monitor/Once.antt =====
-- workers/trade_monitor_worker.py: the square-off of a live trade is sent once.
use quant_dss.Base.{
  ℕ, ◌+◌, ◌≤◌, ◌<◌, ◌≡◌, refl, sym, ◌∙◌, ap, subst, Bool, true, false, Option, some, none, String,
  arith, Option-cases, inl, inr, elim_if, elim_option, if◌then◌else◌, lt→ltb,
}
use quant_dss.Base.Float.{Float}
use quant_dss.Leases.{Redis, IsRedis}
use quant_dss.Leases.Lock.{micros}
use quant_dss.Monitor.{Round, is_eod, is_square_off, lock_trade}
use quant_dss.Monitor.Live.{Room, square_off_live, watch_live, visit_live}
use quant_dss.Orders.Types.{LiveTrade, is_opened}
use quant_dss.Orders.Close.{
  Floor, place_market_close_order, next_response, closing_id, uncover, cancel_legs,
}

module _ {W : Type 0} where
  closing_id-id : (i : String) (t : LiveTrade W) → (closing_id i t).id ≡ t.id
  closing_id-id i t = ground arith

  place_market_close_order-id :
      (token has_key : Bool) (t : LiveTrade W) (w : Floor W)
      → (place_market_close_order token has_key t w).1.id ≡ t.id
  unfolding place_market_close_order
  place_market_close_order-id false false t w = refl
  place_market_close_order-id false true t w = refl
  place_market_close_order-id true false t w = refl
  place_market_close_order-id true true t w =
      elim (Option-cases (next_response (cancel_legs t w.desk).replies)) [
        | inl e ↦ rw e refl
        | inr (i, e) ↦ rw e (closing_id-id i (uncover t))
      ]

module _ {S : Type 0} ⦃r : Redis S⦄ where
  lock_held :
      (laws : IsRedis S) (first later : Round) (id id' : ℕ) (s : S)
      → id' ≡ id
      → later.lock_key (is_eod later.now) id ≡ first.lock_key (is_eod first.now) id
      → first.now ≤ later.now
      → later.now < first.now + micros 3600
      → r.get first.now (first.lock_key (is_eod first.now) id) s ≡ none
      → (lock_trade later id' (lock_trade first id s).1).0 ≡ false
  lock_held laws first later id id' s same keys h k free =
      let key = first.lock_key (is_eod first.now) id in
      let x = (laws.set_free first.now (micros 3600) key "1" s free).1 later.now h in
      let there =
        x ∙ ap (λ b. if b then some "1" else none) (lt→ltb later.now (first.now + micros 3600) k) in
      rw (same, lock_trade, keys)
        (laws.set_taken later.now (micros 3600) key "1" "1" (lock_trade first id s).1 there).0

module _ {W : Type 0} ⦃f : Float W⦄ {S : Type 0} ⦃r : Redis S⦄ where
  -- A square-off whose lock is held does nothing to the trade and the broker.
  held :
      (round : Round) (has_key : Bool) (t : LiveTrade W) (w : Room W S)
      → (lock_trade round t.id w.store).0 ≡ false
      → ((square_off_live round has_key t w).0 ≡ t)
        × ((square_off_live round has_key t w).1.floor ≡ w.floor)
  unfolding square_off_live
  held round has_key t w e = (rw e refl, rw e refl)

  -- A square-off that gets the lock and whose order is taken keeps the lock.
  sent :
      (round : Round) (has_key : Bool) (t : LiveTrade W) (w : Room W S)
      → (lock_trade round t.id w.store).0 ≡ true
      → (place_market_close_order round.token has_key t w.floor).0 ≡ true
      → ((square_off_live round has_key t w).0.id ≡ t.id)
        × ((square_off_live round has_key t w).1.store ≡ (lock_trade round t.id w.store).1)
  unfolding square_off_live
  sent round has_key t w e h =
      (rw e (rw h (place_market_close_order-id round.token has_key t w.floor)), rw e (rw h refl))

  first_round :
      (round : Round) (has_key : Bool) (ltp : W) (t : LiveTrade W) (w : Room W S)
      → is_square_off round ≡ true
      → watch_live round has_key ltp t w ≡ square_off_live round has_key t w
  unfolding watch_live
  first_round round has_key ltp t w on = rw on refl

  -- The trade and what the broker has are as before.
  abbrev IsStill : LiveTrade W → Room W S → LiveTrade W × Room W S → Type 0
  IsStill t w y = (y.0 ≡ t) × (y.1.floor ≡ w.floor)

  later_round :
      (round : Round) (has_key : LiveTrade W → Bool) (price : LiveTrade W → Option W)
      (t : LiveTrade W) (w : Room W S)
      → is_square_off round ≡ true
      → IsStill t w (square_off_live round (has_key t) t w)
      → IsStill t w (visit_live round has_key price t w)
  unfolding visit_live
  later_round round has_key price t w on h =
      let watched = (λ (ltp : W). watch_live round (has_key t) ltp t w) in
      let priced : LiveTrade W × Room W S = elim (price t) [
        | none ↦ (t, w)
        | some ltp ↦ watched ltp
      ] in
      elim_if (IsStill t w) (is_opened t.status) priced (t, w)
        (λ o.
          elim_option (IsStill t w) (price t) (t, w) watched (λ e. (refl, refl))
            (λ ltp e. rw (first_round round (has_key t) ltp t w on) h))
        (λ o. (refl, refl))

  -- If Redis keeps its documented behaviour and a round squares off a live trade, that is it has no
  -- lock for it yet and the broker takes the order, then a later round that squares off too, within
  -- the hour and with the same key, leaves the trade and what the broker has as they are.
  pub square_off-once :
      (laws : IsRedis S) (first later : Round) (t : LiveTrade W) (w : Room W S)
      (has_key : LiveTrade W → Bool) (price : LiveTrade W → Option W) (ltp : W)
      → is_square_off first ≡ true
      → is_square_off later ≡ true
      → later.lock_key (is_eod later.now) t.id ≡ first.lock_key (is_eod first.now) t.id
      → first.now ≤ later.now
      → later.now < first.now + micros 3600
      → r.get first.now (first.lock_key (is_eod first.now) t.id) w.store ≡ none
      → (place_market_close_order first.token (has_key t) t w.floor).0 ≡ true
      → let x = watch_live first (has_key t) ltp t w in
        ((visit_live later has_key price x.0 x.1).0 ≡ x.0)
        × ((visit_live later has_key price x.0 x.1).1.floor ≡ x.1.floor)
  square_off-once laws first later t w has_key price ltp on off keys h k free success =
      let x = square_off_live first (has_key t) t w in
      let taken = (laws.set_free first.now (micros 3600) _ "1" w.store free).0 in
      let (same, store) = sent first (has_key t) t w taken success in
      let again = held later (has_key x.0) x.0 x.1 (
        subst (λ s. (lock_trade later x.0.id s).0 ≡ false) (sym store)
          (lock_held laws first later t.id x.0.id w.store same keys h k free)) in
      rw (first_round first (has_key t) ltp t w on)
        (later_round later has_key price x.0 x.1 off again)
