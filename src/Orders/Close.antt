-- ===== src/Orders/Close.antt =====
-- engine/execution_manager.py: the market order that closes a trade, and the change of an order.
use quant_dss.Base.{
  ℕ, Bool, true, false, not, Option, some, none, List, [], ◌∷◌, String, if◌then◌else◌,
}
use quant_dss.Base.Int.{ℤ}
use quant_dss.Orders.Types.{Side, opposite, LiveTrade, Desk, is_set, rest_replies, enqueue_cancel}

-- A market order that the broker has taken.
pub record MarketOrder : Type 0 where
  pub trade_id : ℕ
  pub side : Side
  pub quantity : ℤ

-- The desk of the protective orders, and the market orders that the broker has taken, last one first.
pub record Floor (W : Type 0) : Type 0 where
  pub desk : Desk W
  pub closes : List MarketOrder

-- The next response, if it has the code 200: its order id, which may be empty.
abbrev pub next_response : List (Option String) → Option String
next_response [] = none
next_response (r ∷ l) = r

module _ {W : Type 0} where
  abbrev pub answered : Desk W → Desk W
  answered w = record w { replies = rest_replies w.replies }

  -- The legs are cancelled before the market order is sent.
  abbrev pub uncover : LiveTrade W → LiveTrade W
  uncover t = record t {
    sl_order_id = if is_set t.sl_order_id then none else t.sl_order_id;
    target_order_id = if is_set t.target_order_id then none else t.target_order_id;
  }

  abbrev pub cancel_legs : LiveTrade W → Desk W → Desk W
  cancel_legs t w = enqueue_cancel t.target_order_id (enqueue_cancel t.sl_order_id w)

  -- The id of the market order takes the place of that of the target.
  abbrev pub closing_id : String → LiveTrade W → LiveTrade W
  closing_id i t = if is_set (some i) then record t { target_order_id = some i } else t

  -- `place_market_close_order`, for a trade with an instrument key or without one.
  unfoldable pub place_market_close_order :
      (token has_key : Bool) → LiveTrade W → Floor W → Bool × LiveTrade W × Floor W
  place_market_close_order token has_key t w =
      if not has_key
      then (false, t, w)
      else if not token
      then (true, t, w)
      else (let cancelled = cancel_legs t w.desk in
          elim (next_response cancelled.replies) [
            | none ↦ (false, uncover t, record w { desk = answered cancelled })
            | some i ↦ (
              true,
              closing_id i (uncover t),
              record w {
                desk = answered cancelled;
                closes =
                    record { trade_id = t.id; side = opposite t.direction; quantity = t.quantity }
                    ∷ w.closes;
              },
            )
          ])

  -- `modify_order`: whether it succeeds.
  unfoldable pub modify_order : (token : Bool) → Desk W → Bool × Desk W
  modify_order token w =
      if token
      then elim (next_response w.replies) [
        | none ↦ (false, answered w)
        | some i ↦ (true, answered w)
      ]
      else (true, w)
