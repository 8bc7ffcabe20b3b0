-- ===== src/Orders/Reconcile.antt =====
-- engine/execution_manager.py: `reconcile_orders`, for updates that no webhook has brought.
use quant_dss.Base.{
  ℕ, ◌+◌, ◌≡◌, refl, Bool, true, false, not, ◌&&◌, ◌||◌, Option, some, none, List, [], ◌∷◌, ◌++◌,
  String, arith, ltb, if◌then◌else◌, elim_if, ◌∙◌, ap, sym,
}
use quant_dss.Base.Int.{pos, ltb_ℤ, eqb_ℤ}
use quant_dss.Base.Float.{Float, nought}
use quant_dss.Orders.Types.{
  LiveTrade, TradeStatus, pending, partially_filled, opened, closed, unknown, Leg, stop, target,
  Desk, Update, is_set, is_id, is_opened, enqueue_cancel,
}
use quant_dss.Orders.Webhook.{net_pnl, add_to_day, record_outcome, close_by_leg, on_update}
use quant_dss.Orders.History.{on_update-stop}
use text.Mathlib.Text.{◌==◌ as str_eq}

-- The answer to a request for an order: no success, an exception, or what it says.
pub data Fetched (W : Type 0) : Type 0 where
  unsuccessful raised : Fetched W
  found : Update W → Fetched W

-- The statuses of the query.
abbrev pub is_live : TradeStatus → Bool
is_live pending = true
is_live partially_filled = true
is_live opened = true
is_live unknown = true
is_live s = false

-- `age_s < 60`, where the time of creation is known.
abbrev pub is_recent : (now : ℕ) → Option ℕ → Bool
is_recent now none = false
is_recent now (some created) = ltb now (created + 60_000_000)

abbrev pub leg_of : Leg → Option String → List (Leg × String)
leg_of leg none = []
leg_of leg (some i) = if str_eq i "" then [] else (leg, i) ∷ []

leg_of-set : (leg : Leg) (i : String) → str_eq i "" ≡ false → leg_of leg (some i) ≡ (leg, i) ∷ []
leg_of-set leg i h = rw h refl

module _ {W : Type 0} ⦃f : Float W⦄ where
  -- The entry order is checked.
  unfoldable pub reconcile_entry :
      (now : ℕ) → Update W → LiveTrade W → Desk W → LiveTrade W × Desk W
  reconcile_entry now u t w =
      let price = if f.lt nought u.average_price then u.average_price else t.entry_price in
      let distance = f.abs (f.sub price t.stop_loss) in
      if str_eq u.status "complete"
      then (
        record t {
          status = opened;
          filled_quantity = u.filled_quantity;
          average_price = u.average_price;
          entry_price = price;
        },
        w,
      )
      else if str_eq u.status "open" && ltb_ℤ (pos 0) u.filled_quantity
      then (
        record t {
          status = opened;
          quantity = u.filled_quantity;
          filled_quantity = u.filled_quantity;
          entry_price = price;
          risk_amount =
              if f.lt nought distance
              then some (f.round 2 (f.mul (f.of_int u.filled_quantity) distance))
              else t.risk_amount;
        },
        record w { retries = t.id ∷ w.retries },
      )
      else if (str_eq u.status "rejected" || str_eq u.status "cancelled")
          && eqb_ℤ u.filled_quantity (pos 0)
      then (
        record t {
          status = closed;
          close_reason = if str_eq u.status "rejected" then "REJECTED" else "CANCELLED";
          closed_at = some now;
        },
        record w { outcomes = record_outcome t.strategy_id nought w.outcomes },
      )
      else (t, w)

  -- A leg that is complete closes the trade.
  unfoldable pub reconcile_close :
      (now : ℕ) → Leg → Update W → LiveTrade W → Desk W → LiveTrade W × Desk W
  reconcile_close now leg u t w =
      let pnl = net_pnl u.average_price t in
      let opposite_leg : Option String = elim leg [
        | stop ↦ t.target_order_id
        | target ↦ t.sl_order_id
      ] in
      (
        record t {
          status = closed;
          exit_price = some u.average_price;
          close_reason = elim leg [ stop ↦ "STOP_LOSS" | target ↦ "TARGET" ];
          closed_at = some now;
          realised_pnl = some pnl;
        },
        enqueue_cancel opposite_leg (record w {
          day_pnl = add_to_day pnl w.day_pnl;
          outcomes = record_outcome t.strategy_id pnl w.outcomes;
        }),
      )

  -- One leg, with what the legs behind it give. The last component says that a request has raised,
  -- which counts as an API error.
  abbrev pub checked_leg :
      (now : ℕ)
      → Leg
      → Fetched W
      → LiveTrade W
      → Desk W
      → (rest : LiveTrade W × Desk W × Bool) → LiveTrade W × Desk W × Bool
  checked_leg now leg unsuccessful t w rest = rest
  checked_leg now leg raised t w rest = (t, w, true)
  checked_leg now leg (found u) t w rest =
      let r = reconcile_close now leg u t w in
      if str_eq u.status "complete" then (r.0, r.1, false) else rest

  -- The legs are checked in turn until one has closed the trade.
  unfoldable pub reconcile_legs :
      (now : ℕ)
      → (fetch : String → Fetched W) → List (Leg × String)
      → LiveTrade W
      → Desk W
      → LiveTrade W × Desk W × Bool
  reconcile_legs now fetch [] t w = (t, w, false)
  reconcile_legs now fetch ((leg, i) ∷ l) t w =
      let rest = reconcile_legs now fetch l t w in checked_leg now leg (fetch i) t w rest

  -- One trade of the query. `fetch_entry` asks for the entry order, by its id or by its tag.
  unfoldable pub reconcile_trade :
      (now : ℕ)
      → (token : Bool) → (fetch : String → Fetched W) → (fetch_entry : Fetched W)
      → (created : Option ℕ) → LiveTrade W
      → Desk W
      → LiveTrade W × Desk W × Bool
  reconcile_trade now token fetch fetch_entry created t w =
      let legs = leg_of stop t.sl_order_id ++ leg_of target t.target_order_id in
      let checked = reconcile_legs now fetch legs t w in
      let entry : LiveTrade W × Desk W × Bool = elim fetch_entry [
        | unsuccessful ↦ (t, w, false)
        | raised ↦ (t, w, true)
        | found u ↦ let r = reconcile_entry now u t w in (r.0, r.1, false)
      ] in
      if not (is_live t.status) || is_recent now created || not token
      then (t, w, false)
      else if is_opened t.status
      then checked
      else if is_set t.broker_order_id
      then entry
      else (t, w, false)

  reconcile_close-close_by_leg :
      (now : ℕ) (leg : Leg) (u : Update W) (t : LiveTrade W) (w : Desk W)
      → reconcile_close now leg u t w ≡ close_by_leg now true leg u.average_price t w
  unfolding reconcile_close close_by_leg
  reconcile_close-close_by_leg now leg u t w = refl

  reconcile_legs-stop :
      (now : ℕ) (fetch : String → Fetched W) (i : String) (l : List (Leg × String)) (u : Update W)
      (t : LiveTrade W) (w : Desk W)
      → fetch i ≡ found u
      → str_eq u.status "complete" ≡ true
      → reconcile_legs now fetch ((stop, i) ∷ l) t w
        ≡ ((reconcile_close now stop u t w).0, (reconcile_close now stop u t w).1, false)
  unfolding reconcile_legs
  reconcile_legs-stop now fetch i l u t w e c =
      let r = reconcile_close now stop u t w in
      let rest = reconcile_legs now fetch l t w in
      ap (λ x. checked_leg now stop x t w rest) e
      ∙ elim_if (λ x. x ≡ (r.0, r.1, false)) (str_eq u.status "complete") (r.0, r.1, false) rest
          (λ d. refl) (λ d. absurd (cc (d, c)))

  reconcile_trade-open :
      (now : ℕ) (fetch : String → Fetched W) (fetch_entry : Fetched W) (created : Option ℕ)
      (t : LiveTrade W) (w : Desk W)
      → t.status ≡ opened
      → is_recent now created ≡ false
      → reconcile_trade now true fetch fetch_entry created t w
        ≡ reconcile_legs now fetch
            (leg_of stop t.sl_order_id ++ leg_of target t.target_order_id)
            t
            w
  unfolding reconcile_trade
  reconcile_trade-open now fetch fetch_entry created t w o a =
      let checked =
        reconcile_legs now fetch (leg_of stop t.sl_order_id ++ leg_of target t.target_order_id) t
          w in
      let live : is_live t.status ≡ true = ap is_live o in
      elim_if (λ x. x ≡ checked) (not (is_live t.status) || is_recent now created || not true) _ _
        (λ c. absurd (ground (arith, live, a, c)))
        (λ c.
          elim_if (λ x. x ≡ checked) (is_opened t.status) _ _ (λ d. refl)
            (λ d. absurd (cc (d, ap is_opened o))))

  -- If the broker says of the stop of an open trade, which is not recent, that it is complete, then
  -- with a token the reconciliation leaves the trade and the desk as the webhook of that update.
  pub reconcile_trade-on_update :
      (now : ℕ) (fetch : String → Fetched W) (fetch_entry : Fetched W) (created : Option ℕ)
      (i : String) (u : Update W) (t : LiveTrade W) (w : Desk W)
      → t.status ≡ opened
      → is_recent now created ≡ false
      → t.sl_order_id ≡ some i
      → str_eq i "" ≡ false
      → fetch i ≡ found u
      → str_eq u.status "complete" ≡ true
      → is_id u.order_id t.sl_order_id ≡ true
      → let r = on_update now true u t w in
        reconcile_trade now true fetch fetch_entry created t w ≡ (r.0, r.1, false)
  reconcile_trade-on_update now fetch fetch_entry created i u t w o a s n e c m =
      reconcile_trade-open now fetch fetch_entry created t w o a
      ∙ ap (λ l. reconcile_legs now fetch (l ++ leg_of target t.target_order_id) t w)
          (ap (leg_of stop) s ∙ leg_of-set stop i n)
      ∙ reconcile_legs-stop now fetch i (leg_of target t.target_order_id) u t w e c
      ∙ ap (λ (r : LiveTrade W × Desk W). (r.0, r.1, false))
          (reconcile_close-close_by_leg now stop u t w ∙ sym (on_update-stop now true u t w c m))
