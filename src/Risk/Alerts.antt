-- ===== src/Risk/Alerts.antt =====
-- engine/risk_engine.py: `_send_deduped_alert`, which keeps one alert per key and five minutes.
use quant_dss.Base.{ℕ, ◌-◌, ◌*◌, Bool, ◌∷◌, String, ltb, or_default, if◌then◌else◌}
use quant_dss.Base.Dict.{string_key, lookup, insert}
use quant_dss.Risk.Types.{EngineState}

-- `_ALERT_COOLDOWN_S`, in microseconds.
abbrev pub alert_cooldown : ℕ
alert_cooldown = 300 * 1_000_000

-- The key is recorded before the loop is looked up, so it counts as sent without a loop too.
-- The monotonic clock never goes back, and a difference below 0 would be a suppressed alert too.
unfoldable pub send_deduped_alert :
    {W : Type 0} → String → (now : ℕ) (loop_running : Bool) → EngineState W → EngineState W
send_deduped_alert key now loop_running s =
    if ltb (now - or_default 0 (lookup key s.cooldowns)) alert_cooldown then s else record s {
      cooldowns = insert key now s.cooldowns;
      alerts = if loop_running then key ∷ s.alerts else s.alerts;
    }
