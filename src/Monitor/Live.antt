-- ===== src/Monitor/Live.antt =====
-- workers/trade_monitor_worker.py: open live trades, whose orders stand at the broker.
use quant_dss.Base.{
  ℕ, zero, suc, Bool, true, false, Option, some, none, List, [], ◌∷◌, if◌then◌else◌,
}
use quant_dss.Base.Float.{Float}
use quant_dss.Leases.{Redis}
use quant_dss.Monitor.{Round, is_eod, is_square_off, lock_trade, trails, trailed_stop, is_stopped}
use quant_dss.Orders.Types.{Side, buy, sell, LiveTrade, Desk, is_set, is_opened}
use quant_dss.Orders.Webhook.{place_leg}
use quant_dss.Orders.Close.{Floor, place_market_close_order, modify_order}

abbrev pub is_buy_side : Side → Bool
is_buy_side buy = true
is_buy_side sell = false

-- Redis, and the desk and the market orders.
pub record Room (W S : Type 0) : Type 0 where
  pub store : S
  pub floor : Floor W

module _ {W : Type 0} where
  -- The three attempts to modify the order; no price is kept of it.
  unfoldable pub try_modify : ℕ → (token : Bool) → Desk W → Desk W
  try_modify zero token w = w
  try_modify (suc n) token w =
      let again = try_modify n token (modify_order token w).1 in
      if (modify_order token w).0 then (modify_order token w).1 else again

  abbrev pub set_desk : {S : Type 0} → Desk W → Room W S → Room W S
  set_desk d w = record w { floor = record (w.floor) { desk = d } }

module _ {W : Type 0} ⦃f : Float W⦄ where
  -- The stop is placed again where it is missing.
  abbrev pub recreate : Round → LiveTrade W → LiveTrade W
  recreate round t =
      let id = place_leg round.token t.stop_loss in
      if is_set id then record t { sl_order_id = id } else t

module _ {W : Type 0} ⦃f : Float W⦄ {S : Type 0} ⦃r : Redis S⦄ where
  -- The request to close, and the room after it.
  abbrev pub close_live :
      Round → (has_key : Bool) → LiveTrade W → Room W S → Bool × LiveTrade W × Room W S
  close_live round has_key t w =
      let (success, t', floor) = place_market_close_order round.token has_key t w.floor in
      (success, t', record w { floor = floor })

  -- The square-off, once a day and trade; its lock is deleted when it fails.
  unfoldable pub square_off_live :
      Round → (has_key : Bool) → LiveTrade W → Room W S → LiveTrade W × Room W S
  square_off_live round has_key t w =
      let (taken, store) = lock_trade round t.id w.store in
      let w' : Room W S = record w { store = store } in
      let (success, t', w'') = close_live round has_key t w' in
      if taken
      then if success then (t', w'') else (
        t',
        record w'' { store = r.del round.now (round.lock_key (is_eod round.now) t.id) w''.store },
      )
      else (t, w')

  -- `_update_trailing_stop` for a live trade.
  unfoldable pub trail_live : Round → W → LiveTrade W → Room W S → LiveTrade W × Room W S
  trail_live round ltp t w =
      let new_stop = trailed_stop (is_buy_side t.direction) t.entry_price t.stop_loss ltp in
      let t' = record t { stop_loss = new_stop } in
      if trails (is_buy_side t.direction) t.entry_price t.stop_loss ltp
      then if is_set t.sl_order_id
        then (t', set_desk (try_modify 3 round.token w.floor.desk) w)
        else (t', w)
      else (t, w)

  -- A trade without a stop order.
  unfoldable pub watch_naked :
      Round → (has_key : Bool) → W → LiveTrade W → Room W S → LiveTrade W × Room W S
  watch_naked round has_key ltp t w =
      let t' = recreate round t in
      let closed = close_live round has_key t' w in
      if is_stopped (is_buy_side t.direction) t.stop_loss ltp
      then (closed.1, closed.2)
      else trail_live round ltp t' w

  -- The body of the loop for a trade with a price.
  unfoldable pub watch_live :
      Round → (has_key : Bool) → W → LiveTrade W → Room W S → LiveTrade W × Room W S
  watch_live round has_key ltp t w =
      if is_square_off round
      then square_off_live round has_key t w
      else if is_set t.sl_order_id
      then trail_live round ltp t w
      else watch_naked round has_key ltp t w

  unfoldable pub visit_live :
      Round
      → (has_key : LiveTrade W → Bool) → (price : LiveTrade W → Option W) → LiveTrade W
      → Room W S
      → LiveTrade W × Room W S
  visit_live round has_key price t w =
      if is_opened t.status
      then elim (price t) [ none ↦ (t, w) | some ltp ↦ watch_live round (has_key t) ltp t w ]
      else (t, w)

  -- `_check_live_trades`
  abbrev pub check_live_trades :
      Round
      → (has_key : LiveTrade W → Bool) → (price : LiveTrade W → Option W) → List (LiveTrade W)
      → Room W S
      → List (LiveTrade W) × Room W S
  check_live_trades round has_key price [] w = ([], w)
  check_live_trades round has_key price (t ∷ ts) w =
      let (t', w') = visit_live round has_key price t w in
      let (ts', w'') = check_live_trades round has_key price ts w' in (t' ∷ ts', w'')
