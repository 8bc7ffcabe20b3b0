-- ===== src/Orders/Types.antt =====
-- engine/execution_manager.py and models/live_trade.py: a live trade and what its handlers touch.
use quant_dss.Base.{
  ℕ, Bool, true, false, not, Option, some, none, List, [], ◌∷◌, String, if◌then◌else◌,
}
use quant_dss.Base.Int.{ℤ}
use text.Mathlib.Text.{◌==◌ as str_eq}

pub data Side : Type 0 where
  buy sell : Side

-- `unknown` and `error` are texts that the code writes and the column's type does not list.
pub data TradeStatus : Type 0 where
  pending opened partially_filled rejected cancelled closed unknown error : TradeStatus

-- The columns that the handlers read or write. `realised_pnl` is no column: the code sets it as an
-- attribute, and the column `realized_pnl` is left alone.
pub record LiveTrade (W : Type 0) : Type 0 where
  pub id : ℕ
  pub direction : Side
  pub quantity : ℤ
  pub entry_price : W
  pub stop_loss : W
  pub target_price : W
  pub strategy_id : Option ℕ
  pub broker_order_id : Option String
  pub filled_quantity : ℤ
  pub average_price : W
  pub sl_order_id : Option String
  pub target_order_id : Option String
  pub risk_amount : Option W
  pub status : TradeStatus
  pub exit_price : Option W
  pub realised_pnl : Option W
  pub close_reason : String
  pub closed_at : Option ℕ

pub data Leg : Type 0 where
  stop target : Leg

-- What the handlers touch beside the trade: the queue of cancellations, the background retries, the
-- outcomes sent to the strategy health monitor, the profit of the day where it has a row, and the
-- outcomes of the requests to come that close or change an order: the id of a response with code 200,
-- `none` for any other response and for an exception.
pub record Desk (W : Type 0) : Type 0 where
  pub cancels : List String
  pub retries : List ℕ
  pub outcomes : List (ℕ × W)
  pub day_pnl : Option W
  pub replies : List (Option String)

-- The payload of a webhook.
pub record Update (W : Type 0) : Type 0 where
  pub order_id : String
  pub status : String
  pub filled_quantity : ℤ
  pub average_price : W

-- `bool(x)` of an optional text.
abbrev pub is_set : Option String → Bool
is_set none = false
is_set (some s) = not (str_eq s "")

-- `x == s` for an optional text.
abbrev pub is_id : String → Option String → Bool
is_id s none = false
is_id s (some t) = str_eq t s

abbrev pub is_opened : TradeStatus → Bool
is_opened opened = true
is_opened s = false

abbrev pub opposite : Side → Side
opposite buy = sell
opposite sell = buy

abbrev pub rest_replies : List (Option String) → List (Option String)
rest_replies [] = []
rest_replies (r ∷ l) = l

module _ {W : Type 0} where
  -- `enqueue_cancel`, for an id that is set.
  abbrev pub enqueue_cancel : Option String → Desk W → Desk W
  enqueue_cancel none w = w
  enqueue_cancel (some i) w = if str_eq i "" then w else record w { cancels = i ∷ w.cancels }
