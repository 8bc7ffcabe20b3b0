-- ===== src/Execution/Sharding.antt =====
-- engine/sharding.py: the worker of a symbol. MD5 is a function into numbers, which is a parameter.
use quant_dss.Base.{
  ℕ, ◌%◌, ◌≤◌, ◌≡◌, ◌↔◌, sym, subst, Bool, true, Option, some, none, String, arith, ltb, leb, ◌==◌,
  ◌||◌, if◌then◌else◌,
}

pub record ShardManager : Type 0 where
  pub worker_id : ℕ
  pub total_workers : ℕ

-- The constructor raises ValueError on other numbers; those below zero are not numbers here.
unfoldable pub new_shard : (worker_id total_workers : ℕ) → Option ShardManager
new_shard worker_id total_workers =
    if ltb total_workers 1 || leb total_workers worker_id
    then none
    else some (record { worker_id = worker_id; total_workers = total_workers })

module _ (hash_symbol : String → ℕ) where
  unfoldable pub get_shard : ShardManager → String → ℕ
  get_shard m symbol = hash_symbol symbol % m.total_workers

  unfoldable pub owns : ShardManager → String → Bool
  owns m symbol = if leb m.total_workers 1 then true else get_shard m symbol == m.worker_id

  -- A manager that could be made and owns the symbol.
  abbrev pub Serves : (worker_id total_workers : ℕ) → String → Type 0
  Serves w n symbol = (m : ShardManager) × (new_shard w n ≡ some m) × (owns m symbol ≡ true)

  some-Serves : (n : ℕ) (symbol : String) → 1 ≤ n → Serves (hash_symbol symbol % n) n symbol
  unfolding new_shard owns get_shard
  some-Serves n symbol h = (
    record { worker_id = hash_symbol symbol % n; total_workers = n },
    ground (arith, h),
    ground arith,
  )

  served-worker :
      (w n : ℕ) (symbol : String) → Serves w n symbol → (1 ≤ n) × (w ≡ hash_symbol symbol % n)
  unfolding new_shard owns get_shard
  served-worker w n symbol h = ground (arith, h.1, h.2)

  -- Whatever the hash is, a worker's manager can be made and owns the symbol exactly when there is a
  -- worker at all and the worker is the one that the hash names, so one worker serves each symbol.
  pub Serves-iff :
      (w n : ℕ) (symbol : String) → Serves w n symbol ↔ ((1 ≤ n) × (w ≡ hash_symbol symbol % n))
  Serves-iff w n symbol = (
    served-worker w n symbol,
    λ (h, e). subst (λ v. Serves v n symbol) (sym e) (some-Serves n symbol h),
  )
