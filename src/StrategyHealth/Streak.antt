-- ===== src/StrategyHealth/Streak.antt =====
-- engine/strategy_health.py: the count of losses is the length of the run of losses.
use quant_dss.Base.{
  ℕ, ◌+◌, ◌≤◌, ◌≡◌, refl, ap, ◌∙◌, true, false, some, none, List, [], ◌∷◌, arith, take, take-take,
  or_default, if◌then◌else◌,
}
use quant_dss.Base.Dict.{nat_key, lookup, insert, lookup-insert_self}
use quant_dss.Base.Float.{Float}
use quant_dss.StrategyHealth.{
  StrategyState, Store, pf_lookback, max_consecutive_losses, day, enabled, fresh, get_state,
  is_loss, should_disable, counted, judged, record_trade, check_disabled, is_past, replay,
}

module _ {W : Type 0} ⦃f : Float W⦄ where
  -- The run of losses at the end of a history, the last trade first.
  abbrev pub streak : List W → ℕ
  streak [] = 0
  streak (p ∷ l) = let rest = streak l + 1 in if is_loss p then rest else 0

  abbrev pub outcomes : List (ℕ × W) → List W
  outcomes [] = []
  outcomes ((now, p) ∷ l) = p ∷ outcomes l

  get_state-insert :
      (id : ℕ) (s : StrategyState W) (store : Store W) → get_state id (insert id s store) ≡ s
  get_state-insert id s store = ap (or_default fresh) (lookup-insert_self id s store)

  judged-trades : (now : ℕ) (s : StrategyState W) → (judged now s).trades ≡ s.trades
  judged-trades now s = ground arith

  judged-losses : (now : ℕ) (s : StrategyState W) → (judged now s).losses ≡ s.losses
  judged-losses now s = ground arith

  pub recorded :
      (now id : ℕ) (p : W) (store : Store W)
      → get_state id (record_trade now id p store) ≡ judged now (counted p (get_state id store))
  unfolding record_trade
  recorded now id p store = get_state-insert id (judged now (counted p (get_state id store))) store

  -- Trades recorded from a strategy without a state: its losses are the run of losses at the end of
  -- the history, and its trades are the last thirty.
  pub replay-state :
      (id : ℕ) (l : List (ℕ × W)) (store : Store W)
      → lookup id store ≡ none
      → ((get_state id (replay id l store)).losses ≡ streak (outcomes l))
        × ((get_state id (replay id l store)).trades ≡ take pf_lookback (outcomes l))
  replay-state id [] store e = rw e (refl, refl)
  replay-state id ((now, p) ∷ l) store e =
      let s = get_state id (replay id l store) in
      let ih = replay-state id l store e in
      let stored : get_state id (record_trade now id p (replay id l store))
          ≡ judged now (counted p s) =
        recorded now id p (replay id l store) in
      (
        ap (λ (x : StrategyState W). x.losses) stored
            ∙ judged-losses now (counted p s)
            ∙ ground (arith, ih.0),
        ap (λ (x : StrategyState W). x.trades) stored
            ∙ judged-trades now (counted p s)
            ∙ ap (λ r. take pf_lookback (p ∷ r)) ih.1
            ∙ ap (λ r. p ∷ r) (take-take 29 30 (outcomes l) (omega arith)),
      )

  pause-ends :
      (now id : ℕ) (store : Store W)
      → (get_state id store).is_disabled ≡ true
      → is_past now (get_state id store).paused_until ≡ true
      → check_disabled now id store ≡ (false, insert id (enabled (get_state id store)) store)
  unfolding check_disabled
  pause-ends now id store off over = rw (off, over)

  judged-loss :
      (now : ℕ) (p : W) (s : StrategyState W)
      → max_consecutive_losses ≤ s.losses
      → is_loss p ≡ true
      → let r = judged now (counted p (enabled s)) in
        (r.is_disabled ≡ true) × (r.paused_until ≡ some (now + day))
  unfolding should_disable
  judged-loss now p s many loses = ground (arith, many, loses)

  still-paused :
      (asked until id : ℕ) (store : Store W)
      → (get_state id store).is_disabled ≡ true
      → (get_state id store).paused_until ≡ some until
      → asked ≤ until
      → (check_disabled asked id store).0 ≡ true
  unfolding check_disabled
  still-paused asked until id store off e soon = ground (arith, off, e, soon)

  -- If a strategy has lost five times in a row and its pause is over, then it is enabled when it is
  -- asked for, and its next loss disables it again, for a day, and as long as that day lasts.
  pub next_loss_pauses_again :
      (now later asked id : ℕ) (p : W) (store : Store W)
      → max_consecutive_losses ≤ (get_state id store).losses
      → (get_state id store).is_disabled ≡ true
      → is_past now (get_state id store).paused_until ≡ true
      → is_loss p ≡ true
      → asked ≤ later + day
      → let enabled_again = check_disabled now id store in
        (enabled_again.0 ≡ false)
        × ((check_disabled asked id (record_trade later id p enabled_again.1)).0 ≡ true)
  next_loss_pauses_again now later asked id p store many off over loses soon =
      let s = get_state id store in
      let e = pause-ends now id store off over in
      let v = record_trade later id p (insert id (enabled s) store) in
      let x : get_state id v ≡ judged later (counted p (enabled s)) =
        recorded later id p (insert id (enabled s) store)
        ∙ ap (λ r. judged later (counted p r)) (get_state-insert id (enabled s) store) in
      let k = judged-loss later p s many loses in
      rw e (
        refl,
        still-paused asked (later + day) id v (ap (λ (r : StrategyState W). r.is_disabled) x ∙ k.0)
            (ap (λ (r : StrategyState W). r.paused_until) x ∙ k.1) soon,
      )
