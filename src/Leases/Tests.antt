-- ===== src/Leases/Tests.antt =====
-- The locks and keys of Redis at concrete inputs.
use quant_dss.Base.{◌≡◌, refl, true, false, none, List, [], ◌∷◌, arith}
use quant_dss.Base.Dict.{string_key}
use quant_dss.Leases.Dedup.{answers, trues, is_duplicate-once}
use quant_dss.Leases.Keys.{Keys, keys_redis, keys-IsRedis}
use quant_dss.Leases.Lock.{
  Act, attempt, release, lock_run, lease_run, attempt_lock, release_lock, refusals,
  lock_run-lease_run, lock_run-exclusive,
}

-- A holds the lock for ten seconds, does not release it, and B gets it after that; the late release
-- of A does not take it from B.
abbrev acts : List Act
acts =
    attempt 0 "A"
    ∷ attempt 5_000_000 "B"
    ∷ attempt 10_000_000 "B"
    ∷ release 11_000_000 "A"
    ∷ attempt 12_000_000 "C"
    ∷ []

late_release_is_ignored :
    lock_run {S = Keys} "lock:x" 10 acts [] ≡ true ∷ false ∷ true ∷ true ∷ false ∷ []
unfolding attempt_lock release_lock
late_release_is_ignored = refl

lock_run-lease_run_example : lock_run {S = Keys} "lock:x" 10 acts [] ≡ lease_run 10 acts none
lock_run-lease_run_example =
    lock_run-lease_run keys-IsRedis "lock:x" 10 0 acts [] none
      (omega arith, (omega arith, (omega arith, (omega arith, (omega arith, tt))))) (λ t h. refl)

lock_run-exclusive_example :
    lock_run {S = Keys} "lock:x" 10
      (attempt 0 "A" ∷ attempt 5_000_000 "B" ∷ release 6_000_000 "B" ∷ [])
      []
    ≡ true ∷ refusals (attempt 5_000_000 "B" ∷ release 6_000_000 "B" ∷ [])
lock_run-exclusive_example =
    lock_run-exclusive keys-IsRedis "lock:x" "A" 10 0
      (attempt 5_000_000 "B" ∷ release 6_000_000 "B" ∷ []) [] (λ t h. refl)
      (omega arith, (omega arith, tt)) (omega arith, ((omega arith, refl), tt))

is_duplicate-once_example :
    answers {S = Keys} 600 "dedup:sig:1:7:t" (0 ∷ 1_000_000 ∷ 599_000_000 ∷ []) []
    ≡ false ∷ trues (1_000_000 ∷ 599_000_000 ∷ [])
is_duplicate-once_example =
    is_duplicate-once keys-IsRedis 600 0 "dedup:sig:1:7:t" (1_000_000 ∷ 599_000_000 ∷ []) [] refl
      (omega arith, omega arith, (omega arith, omega arith, tt))
