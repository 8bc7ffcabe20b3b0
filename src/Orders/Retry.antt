-- ===== src/Orders/Retry.antt =====
-- engine/execution_manager.py: `_place_protection_orders_with_retry`, a background task.
use quant_dss.Base.{
  ℕ, zero, suc, ◌≡◌, refl, ap, ◌∙◌, Bool, true, false, not, ◌&&◌, ◌||◌, Option, none, String,
  if◌then◌else◌, elim_if,
}
use quant_dss.Base.Float.{Float, nought}
use quant_dss.Orders.Types.{LiveTrade, TradeStatus, closed, rejected, cancelled, is_set}
use quant_dss.Orders.Webhook.{place_leg, truthy}

-- `status in ("CLOSED", "REJECTED", "CANCELLED")`
abbrev pub is_over : TradeStatus → Bool
is_over closed = true
is_over rejected = true
is_over cancelled = true
is_over s = false

module _ {W : Type 0} ⦃f : Float W⦄ where
  -- The leg, placed where it is missing.
  unfoldable pub fill_leg : (token : Bool) → (price : W) → Option String → Option String
  fill_leg token price id =
      let placed = place_leg token price in
      if is_set id then id else (if is_set placed then placed else id)

  -- One attempt on the row.
  unfoldable pub attempt : (token : Bool) → (stop_loss target_price : W) → LiveTrade W → LiveTrade W
  attempt token stop_loss target_price t = record t {
    sl_order_id = fill_leg token stop_loss t.sl_order_id;
    target_order_id = fill_leg token target_price t.target_order_id;
  }

  -- The loop, with the attempts that are left, 3 at the start.
  unfoldable pub retry_protection :
      (attempts : ℕ) → (token : Bool) → (stop_loss target_price : W) → LiveTrade W → LiveTrade W
  retry_protection zero token stop_loss target_price t = t
  retry_protection (suc n) token stop_loss target_price t =
      let t' = attempt token stop_loss target_price t in
      let rest = retry_protection n token stop_loss target_price t' in
      if is_over t.status
      then t
      else if is_set t'.sl_order_id && is_set t'.target_order_id
      then t'
      else rest

  -- Whether the critical alert goes out after the loop.
  abbrev pub is_naked : LiveTrade W → Bool
  is_naked t = not (is_over t.status) && not (is_set t.sl_order_id)

  pub place_leg-none : (token : Bool) (price : W) → place_leg token price ≡ none
  unfolding place_leg
  place_leg-none token price =
      elim_if (λ (o : Option String). o ≡ none)
        (not token || not (truthy price) || f.le price nought) none none (λ e. refl) (λ e. refl)

  fill_leg-same : (token : Bool) (price : W) (id : Option String) → fill_leg token price id ≡ id
  unfolding fill_leg
  fill_leg-same token price id =
      rw (place_leg-none token price)
        (elim_if (λ (o : Option String). o ≡ id) (is_set id) id id (λ e. refl) (λ e. refl))

  attempt-same :
      (token : Bool) (stop_loss target_price : W) (t : LiveTrade W)
      → attempt token stop_loss target_price t ≡ t
  unfolding attempt
  attempt-same token stop_loss target_price t =
      ap
        (λ (x : Option String × Option String). record t {
          sl_order_id = x.0;
          target_order_id = x.1;
        })
        (ap (λ i. (i, fill_leg token target_price t.target_order_id))
            (fill_leg-same token stop_loss t.sl_order_id)
          ∙ ap (λ i. (t.sl_order_id, i)) (fill_leg-same token target_price t.target_order_id))

  -- However many attempts there are, they leave the trade as it is.
  pub retry_protection-same :
      (attempts : ℕ) (token : Bool) (stop_loss target_price : W) (t : LiveTrade W)
      → retry_protection attempts token stop_loss target_price t ≡ t
  unfolding retry_protection
  retry_protection-same zero token stop_loss target_price t = refl
  retry_protection-same (suc n) token stop_loss target_price t =
      let t' = attempt token stop_loss target_price t in
      let same = attempt-same token stop_loss target_price t in
      let rest = retry_protection-same n token stop_loss target_price t' ∙ same in
      elim_if (λ x. x ≡ t) (is_over t.status) t _ (λ e. refl)
        (λ e.
          elim_if (λ x. x ≡ t) (is_set t'.sl_order_id && is_set t'.target_order_id) t'
            (retry_protection n token stop_loss target_price t') (λ d. same) (λ d. rest))
