-- ===== src/Execution/Mode.antt =====
-- engine/trading_mode.py: whether a signal is dropped, traded on paper or sent to the broker.
use quant_dss.Base.{
  ◌≡◌, refl, ap, ◌↔◌, ◌≢◌, Bool-cases, inl, inr, or_default, Bool, true, false, not, Option, some,
  none, String, arith, if◌then◌else◌,
}
use quant_dss.Base.Text.{Text, codes, lower, text_eq}
use text.Mathlib.Text.{◌==◌ as str_eq}
use text.Mathlib.TextEquality.{eq_iff}

pub data TradingMode : Type 0 where
  disabled paper live : TradingMode

-- The columns `enabled` and `mode` of the auto trade configuration.
pub record AutoTradeConfig : Type 0 where
  pub enabled : Bool
  pub mode : Option String

-- `TradingMode(value.lower())`; `none` for the ValueError.
unfoldable pub parse_mode : Text → Option TradingMode
parse_mode value =
    if text_eq (lower value) (codes "disabled")
    then some disabled
    else if text_eq (lower value) (codes "paper")
    then some paper
    else if text_eq (lower value) (codes "live")
    then some live
    else none

-- `TradingMode.from_str`
abbrev pub from_str : Text → TradingMode
from_str value = or_default paper (parse_mode value)

-- `cfg.mode or "paper"`
abbrev pub mode_or_paper : Option String → String
mode_or_paper none = "paper"
mode_or_paper (some m) = if str_eq m "" then "paper" else m

-- `get_mode`, with `is_live_lock_set()`.
unfoldable pub get_mode : (lock : Bool) → Option AutoTradeConfig → TradingMode
get_mode lock none = disabled
get_mode lock (some cfg) =
    if cfg.enabled
    then elim (from_str (codes (mode_or_paper cfg.mode))) [
      | live ↦ if lock then live else paper
      | disabled ↦ disabled
      | paper ↦ paper
    ]
    else disabled

abbrev pub is_disabled : TradingMode → Bool
is_disabled disabled = true
is_disabled m = false

-- `should_execute`, with `is_halted` of the state of the day where there is one.
unfoldable pub should_execute :
    (lock : Bool) → Option AutoTradeConfig → (is_halted : Option Bool) → Bool
should_execute lock cfg (some true) = false
should_execute lock cfg (some false) = not (is_disabled (get_mode lock cfg))
should_execute lock cfg none = not (is_disabled (get_mode lock cfg))

pub data Route : Type 0 where
  to_paper to_broker : Route

-- `route_execution`
unfoldable pub route_execution :
    (lock : Bool) → Option AutoTradeConfig → (is_halted : Option Bool) → Option Route
route_execution lock cfg halted =
    if should_execute lock cfg halted
    then elim (get_mode lock cfg) [
      | live ↦ some to_broker
      | disabled ↦ some to_paper
      | paper ↦ some to_paper
    ]
    else none

-- `validate_mode_switch`: the mode that is accepted.
unfoldable pub validate_mode_switch : (lock : Bool) → (requested : String) → Option TradingMode
validate_mode_switch lock requested = elim (parse_mode (codes requested)) [
  | none ↦ none
  | some live ↦ if lock then some live else none
  | some disabled ↦ some disabled
  | some paper ↦ some paper
]

-- All that has to hold for an order to reach the broker.
abbrev pub IsCleared : (lock : Bool) → AutoTradeConfig → (is_halted : Option Bool) → Type 0
IsCleared lock cfg is_halted =
    (lock ≡ true)
    × (cfg.enabled ≡ true)
    × (parse_mode (codes (mode_or_paper cfg.mode)) ≡ some live)
    × (is_halted ≢ some true)

broker_of :
    (lock : Bool) (x c : AutoTradeConfig)
    → c ≡ x
    → (is_halted : Option Bool) → IsCleared lock x is_halted
    → route_execution lock (some c) is_halted ≡ some to_broker
unfolding route_execution should_execute get_mode
broker_of lock x c e none k = rw e (ground (arith, k.0, k.1, k.2))
broker_of lock x c e (some true) k = absurd (k.3 refl)
broker_of lock x c e (some false) k = rw e (ground (arith, k.0, k.1, k.2))

-- `route_execution` answers the broker exactly when there is a configuration that is enabled and
-- asks for the live mode, the lock of the server is set and the day is not halted.
pub route_execution-broker_iff :
    (lock : Bool) (cfg : Option AutoTradeConfig) (is_halted : Option Bool)
    → (route_execution lock cfg is_halted ≡ some to_broker)
      ↔ ((c : AutoTradeConfig) × (cfg ≡ some c) × IsCleared lock c is_halted)
unfolding route_execution should_execute get_mode
route_execution-broker_iff lock none is_halted =
    (λ h. ground (arith, h), λ (x, e, k). ground (arith, e))
route_execution-broker_iff lock (some c) is_halted = (
  λ h. (
    c,
    refl,
    (ground (arith, h), ground (arith, h), ground (arith, h), λ e. ground (arith, h, e)),
  ),
  λ (x, e, k). broker_of lock x c (ap (or_default x) e) is_halted k,
)

empty : (requested : String) → requested ≡ "" → parse_mode (codes requested) ≡ none
unfolding parse_mode
empty requested e = rw e refl

-- A switch of the mode that is accepted is the mode in which an enabled configuration that stores
-- the request trades, while the lock stays as it is.
pub validate_mode_switch-get_mode :
    (lock : Bool) (requested : String) (mode : TradingMode)
    → validate_mode_switch lock requested ≡ some mode
    → get_mode lock (some (record { enabled = true; mode = some requested })) ≡ mode
unfolding validate_mode_switch get_mode
validate_mode_switch-get_mode lock requested mode h = elim (Bool-cases (str_eq requested "")) [
  | inl e ↦ ground (arith, h, e, empty requested ((eq_iff requested "").0 e))
  | inr e ↦ ground (arith, h, e)
]
