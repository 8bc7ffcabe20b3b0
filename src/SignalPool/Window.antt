-- ===== src/SignalPool/Window.antt =====
-- engine/signal_pool.py: after a check no symbol has waited for the whole window.
use quant_dss.Base.{
  ℕ, ◌≡◌, ◌⊎◌, true, false, Option, none, some, List, [], ◌∷◌, String, if◌then◌else◌,
}
use quant_dss.Base.Dict.{Dict, nat_key, string_key, lookup, contains, insert}
use quant_dss.Signal.{CandidateSignal}
use quant_dss.SignalPool.{SignalPool, add_signal, is_mature, check_and_flush}

-- The item is in the list.
abbrev IsItem : ℕ × ℕ → List (ℕ × ℕ) → Type 0
IsItem x [] = ⊥
IsItem x (y ∷ l) = (x ≡ y) ⊎ IsItem x l

-- The times after a signal of the symbol.
abbrev timed : (now sid : ℕ) → Dict ℕ ℕ → Dict ℕ ℕ
timed now sid d = if contains sid d then d else insert sid now d

module _ {W : Type 0} where
  -- What a check leaves of an item: it is young, or it is still to be looked at.
  abbrev IsYoungOr : (now : ℕ) → SignalPool W → List (ℕ × ℕ) → ℕ × ℕ → Type 0
  IsYoungOr now p l x = (is_mature now x.1 p ≡ false) ⊎ IsItem x l

  -- Each symbol of the pool has a first time.
  abbrev pub IsTimed : SignalPool W → Type 0
  IsTimed p =
      (sid : ℕ) (d : Dict String (CandidateSignal W))
      → lookup sid p.pool ≡ some d
      → (t : ℕ) × (lookup sid p.first_signal_time ≡ some t)

  -- A call at its time: a signal that is added, or a check.
  abbrev pub call : ℕ × Option (CandidateSignal W) → SignalPool W → SignalPool W
  call (now, some s) p = add_signal now s p
  call (now, none) p = (check_and_flush true now p).0

  abbrev pub calls : List (ℕ × Option (CandidateSignal W)) → SignalPool W → SignalPool W
  calls [] p = p
  calls (c ∷ l) p = calls l (call c p)
