-- ===== src/Orders/Tests.antt =====
-- Runs of the webhook handlers on fixed-point numbers, and their theorems at concrete inputs.
use quant_dss.Base.{ℕ, ◌≡◌, refl, Bool, true, false, Option, none, some, List, [], ◌∷◌, String}
use quant_dss.Base.Int.{ℤ, pos}
use quant_dss.Base.Fixed.{fixed_float}
use quant_dss.Orders.Types.{LiveTrade, Desk, Update, buy, pending, opened, closed}
use quant_dss.Orders.Webhook.{
  place_leg, protect, close_by_leg, entry_complete, partial_fill, leg_update, entry_update,
  on_update,
}
use quant_dss.Orders.Retry.{fill_leg, attempt, retry_protection}
use quant_dss.Orders.Fade.{webhooks-AllGainNone, AllGainNone}
use quant_dss.Orders.Stale.{cancel_stale}
use quant_dss.Orders.Reconcile.{
  found, raised, reconcile_trade, reconcile_legs, reconcile_entry, reconcile_trade-on_update,
}
use quant_dss.Orders.History.{webhooks}

-- A trade whose entry order E is at the broker.
abbrev sent : LiveTrade ℤ
sent = record {
  id = 1;
  direction = buy;
  quantity = pos 10;
  entry_price = pos 1000000;
  stop_loss = pos 950000;
  target_price = pos 1200000;
  strategy_id = some 7;
  broker_order_id = some "E";
  filled_quantity = pos 0;
  average_price = pos 0;
  sl_order_id = none;
  target_order_id = none;
  risk_amount = none;
  status = pending;
  exit_price = none;
  realised_pnl = none;
  close_reason = "";
  closed_at = none;
}

abbrev desk : Desk ℤ
desk = record {
  cancels = [];
  retries = [];
  outcomes = [];
  day_pnl = some (pos 0);
  replies = some "S" ∷ some "T" ∷ some "S2" ∷ some "T2" ∷ [];
}

abbrev says : String → String → ℤ → ℤ → Update ℤ
says i s q p = record { order_id = i; status = s; filled_quantity = q; average_price = p }

abbrev filled : LiveTrade ℤ × Desk ℤ
filled = on_update 1 true (says "E" "complete" (pos 10) (pos 1010000)) sent desk

-- A completed entry opens the trade, which gets no stop, so that a retry is queued for it.
completed_entry_is_bare :
    (filled.0.status ≡ opened) × (filled.0.sl_order_id ≡ none) × (filled.1.retries ≡ 1 ∷ [])
unfolding on_update entry_update entry_complete protect place_leg
completed_entry_is_bare = (refl, refl, refl)

abbrev with_stop : LiveTrade ℤ
with_stop = record sent { sl_order_id = some "S"; status = opened; filled_quantity = pos 10 }

-- A stop of which four are sold so far makes four the quantity of the trade and is forgotten.
partly_filled_stop_is_lost :
    let t = (on_update 2 true (says "S" "open" (pos 4) (pos 950000)) with_stop desk).0 in
    (t.quantity ≡ pos 4) × (t.sl_order_id ≡ none)
unfolding on_update leg_update partial_fill protect place_leg
partly_filled_stop_is_lost = (refl, refl)

abbrev stopped : LiveTrade ℤ × Desk ℤ
stopped = on_update 3 true (says "S" "complete" (pos 10) (pos 950000)) with_stop desk

stop_closes : stopped.0.status ≡ closed
unfolding on_update entry_update entry_complete leg_update close_by_leg protect place_leg
stop_closes = refl

-- The message of the entry's completion, come once more and late, opens the closed trade again.
late_completion_reopens :
    (on_update 4 true (says "E" "complete" (pos 10) (pos 1010000)) stopped.0 stopped.1).0.status
    ≡ opened
unfolding on_update entry_update entry_complete leg_update close_by_leg protect place_leg
late_completion_reopens = refl

abbrev hooks : List (ℕ × Bool × Update ℤ)
hooks =
    (1, true, says "E" "complete" (pos 10) (pos 1010000))
    ∷ (2, true, says "S" "open" (pos 4) (pos 950000))
    ∷ (3, true, says "S2" "complete" (pos 4) (pos 950000))
    ∷ []

webhooks-AllGainNone_example :
    let ts = with_stop ∷ sent ∷ [] in AllGainNone ts (webhooks true hooks ts desk).0
webhooks-AllGainNone_example = webhooks-AllGainNone true hooks (with_stop ∷ sent ∷ []) desk

-- Three attempts place nothing.
three_attempts : retry_protection 3 true (pos 950000) (pos 1200000) sent ≡ sent
unfolding retry_protection attempt fill_leg place_leg
three_attempts = refl

-- Two stale orders and a young one: the broker cancels the first and not the second.
abbrev waiting_trades : List (Option ℕ × LiveTrade ℤ)
waiting_trades = (some 0, sent) ∷ (none, sent) ∷ (some 599_000_000, sent) ∷ []

one_is_cancelled : (cancel_stale true 600_000_000 5 (true ∷ false ∷ []) waiting_trades).1 ≡ 1
unfolding cancel_stale
one_is_cancelled = refl

-- The reconciliation opens a trade whose entry is complete and gives it no protective order.
reconciled_without_stop :
    let r =
      reconcile_trade 1 true
        (λ i. raised)
        (found (says "E" "complete" (pos 10) (pos 1010000)))
        none
        sent
        desk in
    (r.0.status ≡ opened) × (r.0.sl_order_id ≡ none) × (r.1.retries ≡ [])
unfolding reconcile_trade reconcile_legs reconcile_entry
reconciled_without_stop = (refl, refl, refl)

reconcile_trade-on_update_example :
    let u = says "S" "complete" (pos 10) (pos 950000) in
    let r = on_update 9 true u with_stop desk in
    reconcile_trade 9 true (λ i. found u) raised none with_stop desk ≡ (r.0, r.1, false)
reconcile_trade-on_update_example =
    reconcile_trade-on_update 9 (λ i. found (says "S" "complete" (pos 10) (pos 950000))) raised none
      "S" (says "S" "complete" (pos 10) (pos 950000)) with_stop desk refl refl refl refl refl refl
      refl
