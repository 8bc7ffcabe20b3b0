-- ===== src/Ingestion/Health.antt =====
-- ingestion/health_monitor.py: the connection of the broker as a state machine.
pub mod Retries
mod Tests
use quant_dss.Base.{ℕ, ◌+◌, Bool, true, false, Option, none, some, ltb, if◌then◌else◌}

pub data ConnectionState : Type 0 where
  disconnected connecting connected retrying reconnecting failed : ConnectionState

-- The fields of the monitor; the times are those of the clock when a handler runs.
pub record HealthMonitor : Type 0 where
  pub state : ConnectionState
  pub retry_count : ℕ
  pub last_tick_at : Option ℕ
  pub connected_since : Option ℕ

abbrev pub max_retries : ℕ
max_retries = 5

abbrev pub new_monitor : HealthMonitor
new_monitor = record {
  state = disconnected;
  retry_count = 0;
  last_tick_at = none;
  connected_since = none;
}

unfoldable pub on_connect : (now : ℕ) → HealthMonitor → HealthMonitor
on_connect now m = record m { state = connected; retry_count = 0; connected_since = some now }

unfoldable pub on_disconnect : HealthMonitor → HealthMonitor
on_disconnect m = record m { state = reconnecting }

-- The answer says whether the retry should proceed. The seconds of the backoff are only logged.
unfoldable pub on_retry : HealthMonitor → Bool × HealthMonitor
on_retry m =
    let count = m.retry_count + 1 in
    if ltb max_retries count
    then (false, record m { state = failed; retry_count = count })
    else (true, record m { state = retrying; retry_count = count })

unfoldable pub on_tick_received : (now : ℕ) → HealthMonitor → HealthMonitor
on_tick_received now m = record m { last_tick_at = some now }
