-- ===== src/Ingestion/Health/Retries.antt =====
-- ingestion/health_monitor.py: how many retries a lost connection gets, whatever else is called.
use quant_dss.Base.{ℕ, ◌+◌, ◌-◌, ◌≡◌, List, [], ◌∷◌, arith, if◌then◌else◌}
use Prim.Native.Nat.{min}
use quant_dss.Ingestion.Health.{
  HealthMonitor, max_retries, on_connect, on_disconnect, on_retry, on_tick_received,
}

-- The calls of the handlers of one monitor.
pub data Call : Type 0 where
  connect tick : ℕ → Call
  disconnect retry : Call

abbrev pub step : Call → HealthMonitor → HealthMonitor
step (connect now) m = on_connect now m
step (tick now) m = on_tick_received now m
step disconnect m = on_disconnect m
step retry m = (on_retry m).1

abbrev pub run : List Call → HealthMonitor → HealthMonitor
run [] m = m
run (c ∷ cs) m = run cs (step c m)

-- How many of the retries among the calls may proceed.
abbrev pub granted : List Call → HealthMonitor → ℕ
granted [] m = 0
granted (retry ∷ cs) m =
    let rest = granted cs (step retry m) in if (on_retry m).0 then rest + 1 else rest
granted (c ∷ cs) m = granted cs (step c m)

-- How many of the calls are retries.
abbrev pub retries : List Call → ℕ
retries [] = 0
retries (retry ∷ cs) = retries cs + 1
retries (c ∷ cs) = retries cs

-- None of the calls is a connect.
abbrev pub IsOffline : List Call → Type 0
IsOffline [] = Unit
IsOffline (connect now ∷ cs) = ⊥
IsOffline (c ∷ cs) = IsOffline cs

-- Until a connect comes, as many retries may proceed as are asked for or as are left of five,
-- whichever is less, whatever disconnects and ticks come between them.
pub granted_exact :
    (cs : List Call) (m : HealthMonitor)
    → IsOffline cs
    → granted cs m ≡ min (retries cs) (max_retries - m.retry_count)
unfolding on_retry on_disconnect on_tick_received
granted_exact [] m h = omega arith
granted_exact (connect now ∷ cs) m h = absurd h
granted_exact (tick now ∷ cs) m h = granted_exact cs (step (tick now) m) h
granted_exact (disconnect ∷ cs) m h = granted_exact cs (step disconnect m) h
granted_exact (retry ∷ cs) m h = ground (arith, granted_exact cs (step retry m) h)
