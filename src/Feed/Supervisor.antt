-- ===== src/Feed/Supervisor.antt =====
-- ingestion/websocket_manager.py: `_reconnect_supervisor`, one turn of its loop at a time.
use quant_dss.Base.{ℕ, ◌+◌, ◌*◌, Bool, true, false, leb, List, [], ◌∷◌, if◌then◌else◌}

-- The fields and the variable of the loop, the delay in seconds.
pub record Supervisor : Type 0 where
  pub running : Bool
  pub reconnect_count : ℕ
  pub backoff_delay : ℕ

-- What happens by the next turn, and, where the turn calls `connect`, whether it succeeds: `lost` says
-- that the listener finds the connection closed before the turn.
pub record Event : Type 0 where
  pub lost : Bool
  pub connects : Bool

-- What a turn does after its second of sleep: nothing, the slow wait of five minutes, or an attempt
-- after a delay.
pub data Action : Type 0 where
  healthy slow_wait : Action
  attempt : (delay : ℕ) → Action

abbrev pub max_attempts : ℕ
max_attempts = 10

abbrev pub capped : ℕ → ℕ
capped delay = if leb delay 60 then delay else 60

-- `connect`, as far as the flag and the counter: it resets the counter where it succeeds.
unfoldable pub connect : (success : Bool) → Supervisor → Supervisor
connect true s = record s { running = true; reconnect_count = 0 }
connect false s = record s { running = false }

abbrev pub heard : (lost : Bool) → Supervisor → Supervisor
heard true s = record s { running = false }
heard false s = s

-- The turn, on the flag as the listener leaves it.
unfoldable pub turn : (connects : Bool) → Supervisor → Action × Supervisor
turn connects s =
    if s.running
    then (healthy, record s { reconnect_count = 0; backoff_delay = 1 })
    else if leb max_attempts s.reconnect_count
    then (slow_wait, record s { reconnect_count = 0 })
    else (
      attempt s.backoff_delay,
      connect connects (record s {
        reconnect_count = s.reconnect_count + 1;
        backoff_delay = capped (s.backoff_delay * 2);
      }),
    )

unfoldable pub step : Event → Supervisor → Action × Supervisor
step e s = turn e.connects (heard e.lost s)

-- The actions of the turns, first one first.
unfoldable pub supervise : List Event → Supervisor → List Action
supervise [] s = []
supervise (e ∷ l) s = let (a, s') = step e s in a ∷ supervise l s'

-- The loop begins with a delay of one second.
abbrev pub started : (running : Bool) → Supervisor
started running = record { running = running; reconnect_count = 0; backoff_delay = 1 }
