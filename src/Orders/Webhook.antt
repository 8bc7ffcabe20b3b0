-- ===== src/Orders/Webhook.antt =====
-- engine/execution_manager.py: the updates that the broker sends by webhook.
use quant_dss.Base.{
  ℕ, Bool, true, not, ◌&&◌, ◌||◌, Option, some, none, List, [], ◌∷◌, String, ◌==◌, if◌then◌else◌,
}
use quant_dss.Base.Int.{pos, ltb_ℤ, eqb_ℤ}
use quant_dss.Base.Float.{Float, nought}
use quant_dss.Base.Exec.{Result, ok, raised, unbound_local}
use text.Mathlib.Text.{◌==◌ as str_eq}
use quant_dss.Orders.Types.{
  buy, sell, opened, closed, LiveTrade, Leg, stop, target, Desk, Update, is_set, is_id, is_opened,
  enqueue_cancel,
}

-- The request of `place_sl_order` and `place_target_order`, up to the id in the response.
abbrev pub request : Result String
request = raised unbound_local

module _ {W : Type 0} ⦃f : Float W⦄ where
  abbrev pub truthy : W → Bool
  truthy x = not (f.eq x nought)

  -- `place_sl_order` and `place_target_order`. Without a token or a price nothing is asked. Otherwise
  -- the first use of `httpx` raises UnboundLocalError, since the except clause imports that name and
  -- so makes it local to the function, and that clause returns None.
  unfoldable pub place_leg : (token : Bool) → (price : W) → Option String
  place_leg token price =
      if not token || not (truthy price) || f.le price nought
      then none
      else elim request [ ok i ↦ some i | raised e ↦ none ]

  -- The legs of a trade are cancelled and placed anew.
  unfoldable pub protect : LiveTrade W → Desk W → LiveTrade W × Desk W
  protect t w = (
    record t {
      sl_order_id = place_leg true t.stop_loss;
      target_order_id = place_leg true t.target_price;
    },
    enqueue_cancel t.target_order_id (enqueue_cancel t.sl_order_id w),
  )

  -- The background task that is started where a leg is missing.
  abbrev pub retry_missing : LiveTrade W × Desk W → LiveTrade W × Desk W
  retry_missing (t, w) =
      if is_set t.sl_order_id && is_set t.target_order_id
      then (t, w)
      else (t, record w { retries = t.id ∷ w.retries })

  -- The profit of a close at the price, net of a flat cost, or 0 without both prices.
  abbrev pub net_pnl : W → LiveTrade W → W
  net_pnl exit t =
      let gross = f.mul (f.sub exit t.entry_price) (f.of_int t.filled_quantity) in
      let signed : W = elim t.direction [ buy ↦ gross | sell ↦ f.neg gross ] in
      let cost =
        f.add (f.lit 400 1)
          (f.mul (f.mul t.entry_price (f.of_int t.filled_quantity)) (f.lit 5 4)) in
      if truthy t.entry_price && truthy exit then f.sub signed cost else nought

  -- `state.realised_pnl = round(current_pnl + pnl, 2)`, where the day has a row.
  abbrev pub add_to_day : W → Option W → Option W
  add_to_day pnl none = none
  add_to_day pnl (some p) = some (f.round 2 (f.add p pnl))

  abbrev pub record_outcome : Option ℕ → W → List (ℕ × W) → List (ℕ × W)
  record_outcome none pnl l = l
  record_outcome (some i) pnl l = if i == 0 then l else (i, pnl) ∷ l

  -- A filled leg closes the trade, and the other leg is cancelled.
  unfoldable pub close_by_leg :
      (now : ℕ) → (token : Bool) → Leg → W → LiveTrade W → Desk W → LiveTrade W × Desk W
  close_by_leg now token leg exit t w =
      let pnl = net_pnl exit t in
      let other : Option String = elim leg [ stop ↦ t.target_order_id | target ↦ t.sl_order_id ] in
      let w' = record w {
        day_pnl = add_to_day pnl w.day_pnl;
        outcomes = record_outcome t.strategy_id pnl w.outcomes;
      } in
      (
        record t {
          status = closed;
          exit_price = some exit;
          close_reason = elim leg [ stop ↦ "STOP_LOSS" | target ↦ "TARGET" ];
          closed_at = some now;
          realised_pnl = some pnl;
        },
        if token then enqueue_cancel other w' else w',
      )

  -- The entry order is complete.
  unfoldable pub entry_complete :
      (token : Bool) → Update W → LiveTrade W → Desk W → LiveTrade W × Desk W
  entry_complete token u t w =
      let t' = record t {
        status = opened;
        entry_price = u.average_price;
        quantity = u.filled_quantity;
      } in
      if is_opened t.status && is_set t.sl_order_id && eqb_ℤ t.quantity u.filled_quantity
      then (t, w)
      else if token
      then retry_missing (protect t' w)
      else (t', w)

  -- An order is open and partly filled.
  unfoldable pub partial_fill :
      (token : Bool) → Update W → LiveTrade W → Desk W → LiveTrade W × Desk W
  partial_fill token u t w =
      let price = if f.lt nought u.average_price then u.average_price else t.entry_price in
      let distance = f.abs (f.sub price t.stop_loss) in
      let t' = record t {
        status = opened;
        quantity = u.filled_quantity;
        filled_quantity = u.filled_quantity;
        entry_price = price;
        risk_amount =
            if f.lt nought distance
            then some (f.round 2 (f.mul (f.of_int u.filled_quantity) distance))
            else t.risk_amount;
      } in
      if token then protect t' w else (t', w)

  -- A leg is rejected or cancelled.
  abbrev pub leg_lost : (is_sl is_tp : Bool) → LiveTrade W → LiveTrade W
  leg_lost is_sl is_tp t = record t {
    sl_order_id = if is_sl then none else t.sl_order_id;
    target_order_id = if is_tp then none else t.target_order_id;
  }

  -- The entry order is rejected or cancelled, with what it has bought before.
  unfoldable pub entry_lost :
      (now : ℕ)
      → (token : Bool) → (reason : String) → Update W
      → LiveTrade W
      → Desk W
      → LiveTrade W × Desk W
  entry_lost now token reason u t w =
      let t' = record t { status = opened; quantity = u.filled_quantity } in
      if ltb_ℤ (pos 0) u.filled_quantity
      then if token then retry_missing (protect t' w) else (t', w)
      else (record t { status = closed; close_reason = reason; closed_at = some now }, w)

  -- The branches of `handle_webhook` for an update of a leg. A leg that is open and partly filled
  -- is taken for the entry order.
  unfoldable pub leg_update :
      (now : ℕ)
      → (token is_sl is_tp : Bool) → Update W
      → LiveTrade W
      → Desk W
      → LiveTrade W × Desk W
  leg_update now token is_sl is_tp u t w =
      if str_eq u.status "complete"
      then close_by_leg now token (if is_sl then stop else target) u.average_price t w
      else if str_eq u.status "open" && ltb_ℤ (pos 0) u.filled_quantity
      then partial_fill token u t w
      else if str_eq u.status "rejected" || str_eq u.status "cancelled"
      then (leg_lost is_sl is_tp t, w)
      else (t, w)

  -- The branches of `handle_webhook` for an update of the entry order.
  unfoldable pub entry_update :
      (now : ℕ) → (token : Bool) → Update W → LiveTrade W → Desk W → LiveTrade W × Desk W
  entry_update now token u t w =
      let t' = record t { filled_quantity = u.filled_quantity; average_price = u.average_price } in
      if str_eq u.status "complete"
      then entry_complete token u t' w
      else if str_eq u.status "open" && ltb_ℤ (pos 0) u.filled_quantity
      then partial_fill token u t' w
      else if str_eq u.status "rejected"
      then entry_lost now token "REJECTED" u t' w
      else if str_eq u.status "cancelled"
      then entry_lost now token "CANCELLED" u t' w
      else (t', w)

  -- `handle_webhook` from the trade on that the order belongs to.
  unfoldable pub on_update :
      (now : ℕ) → (token : Bool) → Update W → LiveTrade W → Desk W → LiveTrade W × Desk W
  on_update now token u t w =
      let is_sl = is_id u.order_id t.sl_order_id in
      let is_tp = is_id u.order_id t.target_order_id in
      if is_sl || is_tp
      then leg_update now token is_sl is_tp u t w
      else entry_update now token u t w

  -- The columns by which a trade is found.
  abbrev pub is_of : Update W → LiveTrade W → Bool
  is_of u t =
      is_id u.order_id t.broker_order_id
      || is_id u.order_id t.sl_order_id
      || is_id u.order_id t.target_order_id

  -- The first trade of the order, in the order in which the query gives them.
  abbrev pub dispatch :
      (now : ℕ)
      → (token : Bool) → Update W
      → List (LiveTrade W)
      → Desk W
      → List (LiveTrade W) × Desk W
  dispatch now token u [] w = ([], w)
  dispatch now token u (t ∷ ts) w =
      let here = on_update now token u t w in
      let later = dispatch now token u ts w in
      if is_of u t then (here.0 ∷ ts, here.1) else (t ∷ later.0, later.1)

  -- `handle_webhook`. `authentic` says that no secret is configured or the signature of the raw
  -- body matches.
  unfoldable pub handle_webhook :
      (now : ℕ)
      → (token authentic : Bool) → Update W
      → List (LiveTrade W)
      → Desk W
      → List (LiveTrade W) × Desk W
  handle_webhook now token authentic u ts w =
      if not authentic || str_eq u.order_id "" || str_eq u.status ""
      then (ts, w)
      else dispatch now token u ts w
