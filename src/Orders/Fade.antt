-- ===== src/Orders/Fade.antt =====
-- engine/execution_manager.py: the protective orders that webhooks leave to live trades.
use quant_dss.Base.{
  ℕ, ◌≡◌, refl, ◌⊎◌, inl, inr, ◌∙◌, Bool, true, false, ◌&&◌, ◌||◌, Option, some, none, List, [],
  ◌∷◌, String, if◌then◌else◌, elim_if,
}
use quant_dss.Base.Int.{pos, ltb_ℤ}
use quant_dss.Base.Float.{Float}
use quant_dss.Orders.Types.{
  LiveTrade, Leg, stop, target, Desk, Update, opened, closed, is_set, is_id,
}
use quant_dss.Orders.Webhook.{
  protect, retry_missing, close_by_leg, entry_complete, partial_fill, leg_lost, entry_lost,
  leg_update, entry_update, on_update, is_of, dispatch, handle_webhook,
}
use quant_dss.Orders.Retry.{place_leg-none}
use quant_dss.Orders.History.{webhooks}
use text.Mathlib.Text.{◌==◌ as str_eq}

-- An id is as it was, or gone.
abbrev pub Fades : (before after : Option String) → Type 0
Fades before after = (after ≡ before) ⊎ (after ≡ none)

Fades-trans : (a b c : Option String) → Fades a b → Fades b c → Fades a c
Fades-trans a b c (inl h) (inl k) = inl (k ∙ h)
Fades-trans a b c (inr h) (inl k) = inr (k ∙ h)
Fades-trans a b c h (inr k) = inr k

module _ {W : Type 0} where
  -- The trade has no protective order that it did not have before.
  abbrev pub GainsNone : (before after : LiveTrade W) → Type 0
  GainsNone t t' = Fades t.sl_order_id t'.sl_order_id × Fades t.target_order_id t'.target_order_id

  abbrev same : (t : LiveTrade W) → GainsNone t t
  same t = (inl refl, inl refl)

  -- This is so of each of the trades, which are as many as before.
  abbrev pub AllGainNone : (before after : List (LiveTrade W)) → Type 0
  AllGainNone [] [] = Unit
  AllGainNone [] (t' ∷ ts') = true ≡ false
  AllGainNone (t ∷ ts) [] = true ≡ false
  AllGainNone (t ∷ ts) (t' ∷ ts') = GainsNone t t' × AllGainNone ts ts'

  all_same : (ts : List (LiveTrade W)) → AllGainNone ts ts
  all_same [] = tt
  all_same (t ∷ ts) = (same t, all_same ts)

  AllGainNone-trans :
      (a b c : List (LiveTrade W)) → AllGainNone a b → AllGainNone b c → AllGainNone a c
  AllGainNone-trans [] [] [] h k = tt
  AllGainNone-trans [] [] (z ∷ c) h k = k
  AllGainNone-trans [] (y ∷ b) c h k = absurd (cc h)
  AllGainNone-trans (x ∷ a) [] c h k = absurd (cc h)
  AllGainNone-trans (x ∷ a) (y ∷ b) [] h k = k
  AllGainNone-trans (x ∷ a) (y ∷ b) (z ∷ c) h k = (
    (
      Fades-trans x.sl_order_id y.sl_order_id z.sl_order_id h.0.0 k.0.0,
      Fades-trans x.target_order_id y.target_order_id z.target_order_id h.0.1 k.0.1,
    ),
    AllGainNone-trans a b c h.1 k.1,
  )

  -- What a handler leaves of a trade.
  abbrev Leaves : LiveTrade W → LiveTrade W × Desk W → Type 0
  Leaves t r = GainsNone t r.0

  if-Leaves :
      (t : LiveTrade W) (c : Bool) (x y : LiveTrade W × Desk W)
      → Leaves t x
      → Leaves t y
      → Leaves t (if c then x else y)
  if-Leaves t c x y h k = elim_if (Leaves t) c x y (λ e. h) (λ e. k)

module _ {W : Type 0} ⦃f : Float W⦄ where
  leg_lost-GainsNone : (is_sl is_tp : Bool) (t : LiveTrade W) → GainsNone t (leg_lost is_sl is_tp t)
  leg_lost-GainsNone is_sl is_tp t = (
    elim_if (Fades t.sl_order_id) is_sl none t.sl_order_id (λ c. inr refl) (λ c. inl refl),
    elim_if (Fades t.target_order_id) is_tp none t.target_order_id (λ c. inr refl) (λ c. inl refl),
  )

  protect-Leaves : (t : LiveTrade W) (w : Desk W) → Leaves t (protect t w)
  unfolding protect
  protect-Leaves t w =
      (inr (place_leg-none true t.stop_loss), inr (place_leg-none true t.target_price))

  -- The trade that is protected may have other columns than the one before.
  retry_missing-Leaves :
      (t : LiveTrade W) (r : LiveTrade W × Desk W) → Leaves t r → Leaves t (retry_missing r)
  retry_missing-Leaves t (t', w) h =
      if-Leaves t (is_set t'.sl_order_id && is_set t'.target_order_id) (t', w)
        (t', record w { retries = t'.id ∷ w.retries }) h h

  entry_complete-Leaves :
      (token : Bool) (u : Update W) (t : LiveTrade W) (w : Desk W)
      → Leaves t (entry_complete token u t w)
  unfolding entry_complete
  entry_complete-Leaves token u t w =
      let t' = record t {
        status = opened;
        entry_price = u.average_price;
        quantity = u.filled_quantity;
      } in
      if-Leaves t _ (t, w) _ (same t)
        (if-Leaves t token (retry_missing (protect t' w)) (t', w)
          (retry_missing-Leaves t (protect t' w) (protect-Leaves t' w)) (same t))

  partial_fill-Leaves :
      (token : Bool) (u : Update W) (t : LiveTrade W) (w : Desk W)
      → Leaves t (partial_fill token u t w)
  unfolding partial_fill
  partial_fill-Leaves true u t w = protect-Leaves _ w
  partial_fill-Leaves false u t w = same t

  entry_lost-Leaves :
      (now : ℕ) (token : Bool) (reason : String) (u : Update W) (t : LiveTrade W) (w : Desk W)
      → Leaves t (entry_lost now token reason u t w)
  unfolding entry_lost
  entry_lost-Leaves now token reason u t w =
      let t' = record t { status = opened; quantity = u.filled_quantity } in
      if-Leaves t (ltb_ℤ (pos 0) u.filled_quantity) _
        (record t { status = closed; close_reason = reason; closed_at = some now }, w)
        (if-Leaves t token (retry_missing (protect t' w)) (t', w)
          (retry_missing-Leaves t (protect t' w) (protect-Leaves t' w)) (same t))
        (same t)

  close_by_leg-Leaves :
      (now : ℕ) (token : Bool) (leg : Leg) (exit : W) (t : LiveTrade W) (w : Desk W)
      → Leaves t (close_by_leg now token leg exit t w)
  unfolding close_by_leg
  close_by_leg-Leaves now token leg exit t w = same t

  leg_update-Leaves :
      (now : ℕ) (token is_sl is_tp : Bool) (u : Update W) (t : LiveTrade W) (w : Desk W)
      → Leaves t (leg_update now token is_sl is_tp u t w)
  unfolding leg_update
  leg_update-Leaves now token is_sl is_tp u t w =
      let leg : Leg = if is_sl then stop else target in
      let filled = close_by_leg now token leg u.average_price t w in
      let lost : LiveTrade W × Desk W =
        if str_eq u.status "rejected" || str_eq u.status "cancelled"
        then (leg_lost is_sl is_tp t, w)
        else (t, w) in
      let part : LiveTrade W × Desk W =
        if str_eq u.status "open" && ltb_ℤ (pos 0) u.filled_quantity
        then partial_fill token u t w
        else lost in
      if-Leaves t (str_eq u.status "complete") filled part
        (close_by_leg-Leaves now token leg u.average_price t w)
        (if-Leaves t (str_eq u.status "open" && ltb_ℤ (pos 0) u.filled_quantity)
          (partial_fill token u t w) lost (partial_fill-Leaves token u t w)
          (if-Leaves t (str_eq u.status "rejected" || str_eq u.status "cancelled")
            (leg_lost is_sl is_tp t, w) (t, w) (leg_lost-GainsNone is_sl is_tp t) (same t)))

  entry_update-Leaves :
      (now : ℕ) (token : Bool) (u : Update W) (t : LiveTrade W) (w : Desk W)
      → Leaves t (entry_update now token u t w)
  unfolding entry_update
  entry_update-Leaves now token u t w =
      let t' = record t { filled_quantity = u.filled_quantity; average_price = u.average_price } in
      let gone = entry_lost now token "REJECTED" u t' w in
      let off : LiveTrade W × Desk W =
        if str_eq u.status "cancelled" then entry_lost now token "CANCELLED" u t' w else (t', w) in
      let lost : LiveTrade W × Desk W = if str_eq u.status "rejected" then gone else off in
      let part : LiveTrade W × Desk W =
        if str_eq u.status "open" && ltb_ℤ (pos 0) u.filled_quantity
        then partial_fill token u t' w
        else lost in
      if-Leaves t (str_eq u.status "complete") (entry_complete token u t' w) part
        (entry_complete-Leaves token u t' w)
        (if-Leaves t (str_eq u.status "open" && ltb_ℤ (pos 0) u.filled_quantity)
          (partial_fill token u t' w) lost (partial_fill-Leaves token u t' w)
          (if-Leaves t (str_eq u.status "rejected") gone off
            (entry_lost-Leaves now token "REJECTED" u t' w)
            (if-Leaves t (str_eq u.status "cancelled") (entry_lost now token "CANCELLED" u t' w)
              (t', w) (entry_lost-Leaves now token "CANCELLED" u t' w) (same t))))

  on_update-Leaves :
      (now : ℕ) (token : Bool) (u : Update W) (t : LiveTrade W) (w : Desk W)
      → Leaves t (on_update now token u t w)
  unfolding on_update
  on_update-Leaves now token u t w =
      let is_sl = is_id u.order_id t.sl_order_id in
      let is_tp = is_id u.order_id t.target_order_id in
      if-Leaves t (is_sl || is_tp) (leg_update now token is_sl is_tp u t w)
        (entry_update now token u t w) (leg_update-Leaves now token is_sl is_tp u t w)
        (entry_update-Leaves now token u t w)

  dispatch-AllGainNone :
      (now : ℕ) (token : Bool) (u : Update W) (ts : List (LiveTrade W)) (w : Desk W)
      → AllGainNone ts (dispatch now token u ts w).0
  dispatch-AllGainNone now token u [] w = tt
  dispatch-AllGainNone now token u (t ∷ ts) w =
      let r = on_update now token u t w in
      let l = dispatch now token u ts w in
      elim_if (λ (x : List (LiveTrade W) × Desk W). AllGainNone (t ∷ ts) x.0) (is_of u t)
        (r.0 ∷ ts, r.1) (t ∷ l.0, l.1) (λ c. (on_update-Leaves now token u t w, all_same ts))
        (λ c. (same t, dispatch-AllGainNone now token u ts w))

  handle_webhook-AllGainNone :
      (now : ℕ) (token authentic : Bool) (u : Update W) (ts : List (LiveTrade W)) (w : Desk W)
      → AllGainNone ts (handle_webhook now token authentic u ts w).0
  unfolding handle_webhook
  handle_webhook-AllGainNone now token authentic u ts w =
      elim_if (λ (x : List (LiveTrade W) × Desk W). AllGainNone ts x.0) _ (ts, w) _
        (λ c. all_same ts) (λ c. dispatch-AllGainNone now token u ts w)

  -- Whatever webhooks come, genuine or not, with a token or without one: afterwards no trade names a
  -- stop or a target that it did not name before, since no protective order is ever placed.
  pub webhooks-AllGainNone :
      (token : Bool) (l : List (ℕ × Bool × Update W)) (ts : List (LiveTrade W)) (w : Desk W)
      → AllGainNone ts (webhooks token l ts w).0
  webhooks-AllGainNone token [] ts w = all_same ts
  webhooks-AllGainNone token ((now, authentic, u) ∷ l) ts w =
      let r = handle_webhook now token authentic u ts w in
      AllGainNone-trans ts r.0 (webhooks token l r.0 r.1).0
        (handle_webhook-AllGainNone now token authentic u ts w)
        (webhooks-AllGainNone token l r.0 r.1)
