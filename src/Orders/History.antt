-- ===== src/Orders/History.antt =====
-- engine/execution_manager.py: runs of webhooks over all live trades.
use quant_dss.Base.{ℕ, ◌≡◌, refl, ap, ◌∙◌, Bool, true, false, List, [], ◌∷◌, String, arith, Option}
use quant_dss.Base.Float.{Float}
use quant_dss.Orders.Types.{LiveTrade, Desk, Update, stop, is_id, enqueue_cancel}
use quant_dss.Orders.Webhook.{
  net_pnl, add_to_day, close_by_leg, leg_update, on_update, handle_webhook,
}
use text.Mathlib.Text.{◌==◌ as str_eq}

module _ {W : Type 0} ⦃f : Float W⦄ where
  -- Webhooks one after the other, each at its time.
  abbrev pub webhooks :
      (token : Bool)
      → List (ℕ × Bool × Update W)
      → List (LiveTrade W)
      → Desk W
      → List (LiveTrade W) × Desk W
  webhooks token [] ts w = (ts, w)
  webhooks token ((now, authentic, u) ∷ l) ts w =
      let (ts', w') = handle_webhook now token authentic u ts w in webhooks token l ts' w'

  pub on_update-stop :
      (now : ℕ) (token : Bool) (u : Update W) (t : LiveTrade W) (w : Desk W)
      → str_eq u.status "complete" ≡ true
      → is_id u.order_id t.sl_order_id ≡ true
      → on_update now token u t w ≡ close_by_leg now token stop u.average_price t w
  unfolding on_update leg_update
  on_update-stop now token u t w s i = rw (i, s)

  enqueue_cancel-day : (i : Option String) (w : Desk W) → (enqueue_cancel i w).day_pnl ≡ w.day_pnl
  enqueue_cancel-day i w = ground arith

  close_by_leg-day :
      (now : ℕ) (token : Bool) (exit : W) (t : LiveTrade W) (w : Desk W)
      → (close_by_leg now token stop exit t w).1.day_pnl ≡ add_to_day (net_pnl exit t) w.day_pnl
  unfolding close_by_leg
  close_by_leg-day now true exit t w = enqueue_cancel-day t.target_order_id _
  close_by_leg-day now false exit t w = refl

  -- A fill of the stop that is reported twice for one trade is counted twice in the profit of the
  -- day, with or without a token.
  pub stop_fill_counts_twice :
      (now later : ℕ) (token : Bool) (u : Update W) (t : LiveTrade W) (w : Desk W)
      → str_eq u.status "complete" ≡ true
      → is_id u.order_id t.sl_order_id ≡ true
      → let r = on_update now token u t w in
        (on_update later token u r.0 r.1).1.day_pnl
        ≡ add_to_day (net_pnl u.average_price t) (add_to_day (net_pnl u.average_price t) w.day_pnl)
  unfolding close_by_leg
  stop_fill_counts_twice now later token u t w s i =
      let r = close_by_leg now token stop u.average_price t w in
      rw (on_update-stop now token u t w s i) (
        ap (λ (x : LiveTrade W × Desk W). x.1.day_pnl) (on_update-stop later token u r.0 r.1 s i)
        ∙ close_by_leg-day later token u.average_price r.0 r.1
        ∙ ap (add_to_day (net_pnl u.average_price t))
            (close_by_leg-day now token u.average_price t w))
