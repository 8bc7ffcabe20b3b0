-- ===== src/Feed/Volume.antt =====
-- ingestion/websocket_manager.py: `VolumeDeltaTracker`, which turns the volume of the day so far into
-- the volume of a tick.
use quant_dss.Base.{ℕ, ◌+◌, ◌-◌, Option, none, some, [], String, ltb, if◌then◌else◌}
use quant_dss.Base.Dict.{Dict, string_key, lookup, insert, erase}

-- `_prev_vtt`
abbrev pub Tracker : Type 0
Tracker = Dict String ℕ

abbrev pub reset_threshold : ℕ
reset_threshold = 10_000

abbrev pub max_first_tick : ℕ
max_first_tick = 50_000

-- The volume of a tick, after the last reading of its instrument. Subtraction on ℕ is `max(0, a - b)`.
unfoldable pub delta_of : (prev : Option ℕ) → (current : ℕ) → ℕ
delta_of none current = if ltb max_first_tick current then max_first_tick else current
delta_of (some prev) current = if ltb (current + reset_threshold) prev then 0 else current - prev

-- `get_delta`: each of its branches stores the reading.
unfoldable pub get_delta : (key : String) → (current : ℕ) → Tracker → ℕ × Tracker
get_delta key current s = (delta_of (lookup key s) current, insert key current s)

-- `reset` and `reset_all`
abbrev pub reset : (key : String) → Tracker → Tracker
reset key s = erase key s

abbrev pub reset_all : Tracker → Tracker
reset_all s = []
