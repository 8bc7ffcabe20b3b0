-- ===== src/Ingestion/Health/Tests.antt =====
-- Runs of the monitor, and its theorem at a concrete input.
use Prim.Native.Nat.{min}
use quant_dss.Base.{◌-◌, ◌≡◌, refl, List, [], ◌∷◌}
use quant_dss.Ingestion.Health.{
  failed, reconnecting, max_retries, new_monitor, on_connect, on_disconnect, on_retry,
  on_tick_received,
}
use quant_dss.Ingestion.Health.Retries.{
  Call, connect, tick, disconnect, retry, run, granted, retries, granted_exact,
}

abbrev outage : List Call
outage =
    disconnect ∷ retry ∷ retry ∷ tick 3 ∷ retry ∷ disconnect ∷ retry ∷ retry ∷ retry ∷ retry ∷ []

outage_fails : (run outage (on_connect 7 new_monitor)).state ≡ failed
unfolding on_connect on_disconnect on_retry on_tick_received
outage_fails = refl

five_of_outage : granted outage (on_connect 7 new_monitor) ≡ 5
unfolding on_connect on_disconnect on_retry on_tick_received
five_of_outage = refl

connect_resets : (run (connect 9 ∷ disconnect ∷ []) (run outage new_monitor)).state ≡ reconnecting
unfolding on_connect on_disconnect on_retry on_tick_received
connect_resets = refl

granted_exact_example :
    granted outage (on_connect 7 new_monitor)
    ≡ min (retries outage) (max_retries - (on_connect 7 new_monitor).retry_count)
granted_exact_example = granted_exact outage (on_connect 7 new_monitor) tt
