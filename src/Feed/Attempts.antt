-- ===== src/Feed/Attempts.antt =====
-- ingestion/websocket_manager.py: how often and how fast the supervisor tries to connect.
use quant_dss.Base.{
  ℕ, ◌+◌, ◌*◌, ◌≤◌, ◌<◌, ◌≡◌, refl, sym, Bool, true, false, List, [], ◌∷◌, arith, leb,
  if◌then◌else◌, elim_if,
}
use quant_dss.Feed.Supervisor.{
  Supervisor, Event, Action, healthy, slow_wait, attempt, max_attempts, capped, connect, heard,
  turn, step, supervise,
}

-- A delay is of one second to sixty.
abbrev pub IsDelay : ℕ → Type 0
IsDelay d = (1 ≤ d) × (d ≤ 60)

-- With so many attempts that have failed in a row before: each delay is of one second to sixty, and no
-- more than ten attempts fail in a row.
abbrev pub ArePatient : ℕ → List Event → List Action → Type 0
ArePatient k l [] = Unit
ArePatient k [] (a ∷ r) = Unit
ArePatient k (e ∷ l) (healthy ∷ r) = ArePatient 0 l r
ArePatient k (e ∷ l) (slow_wait ∷ r) = ArePatient 0 l r
ArePatient k (e ∷ l) (attempt d ∷ r) =
    IsDelay d × (k < 10) × ArePatient (if e.connects then 0 else k + 1) l r

capped-IsDelay : (d : ℕ) → IsDelay d → IsDelay (capped (d * 2))
capped-IsDelay d h = ground (arith, h)

-- What a turn leaves, after its action.
abbrev Goes : Event → List Event → Supervisor → Action × Supervisor → Type 0
Goes e l s y =
    ((s' : Supervisor)
      → IsDelay s'.backoff_delay
      → ArePatient s'.reconnect_count l (supervise l s'))
    → ArePatient s.reconnect_count (e ∷ l) (y.0 ∷ supervise l y.1)

attempt-Goes :
    (e : Event) (b : Bool) (l : List Event) (s s' : Supervisor)
    → e.connects ≡ b
    → IsDelay s.backoff_delay
    → s.reconnect_count < 10
    → IsDelay s'.backoff_delay
    → s'.reconnect_count ≡ s.reconnect_count + 1
    → Goes e l s (attempt s.backoff_delay, connect b s')
unfolding connect
attempt-Goes e true l s s' c h k d n go =
    (h, k, rw c (go (record s' { running = true; reconnect_count = 0 }) d))
attempt-Goes e false l s s' c h k d n go =
    (h, k, rw (c, sym n) (go (record s' { running = false }) d))

turn-Goes :
    (e : Event) (l : List Event) (s : Supervisor)
    → IsDelay s.backoff_delay
    → Goes e l s (turn e.connects s)
unfolding turn
turn-Goes e l s h =
    elim_if (Goes e l s) s.running _ _
      (λ r go. go (record s { reconnect_count = 0; backoff_delay = 1 }) (omega arith, omega arith))
      (λ r.
        elim_if (Goes e l s) (leb max_attempts s.reconnect_count) _ _
          (λ many go. go (record s { reconnect_count = 0 }) h)
          (λ few.
            attempt-Goes e e.connects l s _ refl h (ground (arith, few))
              (capped-IsDelay s.backoff_delay h) refl))

step-Goes :
    (e : Event) (b : Bool) (l : List Event) (s : Supervisor)
    → IsDelay s.backoff_delay
    → Goes e l s (turn e.connects (heard b s))
step-Goes e true l s h = turn-Goes e l (record s { running = false }) h
step-Goes e false l s h = turn-Goes e l s h

-- Whatever the listener and the connections do, from a delay of one second to sixty: every attempt
-- comes after a delay of one second to sixty, and after ten attempts that fail in a row none comes
-- before the slow wait.
pub supervise-ArePatient :
    (l : List Event) (s : Supervisor)
    → IsDelay s.backoff_delay
    → ArePatient s.reconnect_count l (supervise l s)
unfolding supervise step
supervise-ArePatient [] s h = tt
supervise-ArePatient (e ∷ l) s h = step-Goes e e.lost l s h (λ s' h'. supervise-ArePatient l s' h')
