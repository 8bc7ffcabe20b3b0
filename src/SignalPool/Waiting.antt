-- ===== src/SignalPool/Waiting.antt =====
-- engine/signal_pool.py: no signal waits for longer than the window, and none is dropped.
use quant_dss.Base.{
  ℕ, ◌≡◌, refl, ap, ◌∙◌, ◌⊎◌, inl, inr, true, some, List, [], ◌∷◌, ◌++◌, String, ==_iff, ◌==◌,
  or_default, elim_if, Bool-cases,
}
use quant_dss.Base.Dict.{Dict, nat_key, string_key, lookup, lookup-erase}
use quant_dss.Signal.{CandidateSignal}
use quant_dss.SignalPool.{
  SignalPool, Group, values, signals_of, is_mature, forwarded, cleared, flush_items,
  check_and_flush,
}

module _ {W : Type 0} where
  -- The group is among those that are handed out.
  abbrev pub IsOut : Group W → List (Group W) → Type 0
  IsOut g [] = ⊥
  IsOut g (h ∷ l) = (g ≡ h) ⊎ IsOut g l

  IsOut-append : (g : Group W) (l r : List (Group W)) → IsOut g l → IsOut g (l ++ r)
  IsOut-append g [] r h = absurd h
  IsOut-append g (x ∷ l) r (inl e) = inl e
  IsOut-append g (x ∷ l) r (inr h) = inr (IsOut-append g l r h)

  IsOut-last : (g : Group W) (l : List (Group W)) → IsOut g (l ++ (g ∷ []))
  IsOut-last g [] = inl refl
  IsOut-last g (x ∷ l) = inr (IsOut-last g l)

  forwarded-IsOut : (g h : Group W) (l : List (Group W)) → IsOut g l → IsOut g (forwarded h l)
  forwarded-IsOut g [] l k = k
  forwarded-IsOut g (s ∷ h) l k = IsOut-append g l ((s ∷ h) ∷ []) k

  flush_items-IsOut :
      (now : ℕ) (items : List (ℕ × ℕ)) (p : SignalPool W) (out : List (Group W)) (g : Group W)
      → IsOut g out
      → IsOut g (flush_items now items p out).1
  unfolding flush_items
  flush_items-IsOut now [] p out g h = h
  flush_items-IsOut now ((sid, first) ∷ l) p out g h =
      elim_if (λ (r : SignalPool W × List (Group W)). IsOut g r.1) (is_mature now first p) _ _
        (λ c.
          flush_items-IsOut now l (cleared sid p) (forwarded (values (signals_of sid p)) out) g
            (forwarded-IsOut g (values (signals_of sid p)) out h))
        (λ c. flush_items-IsOut now l p out g h)

  -- A symbol's signals are where they were, or they are handed out.
  abbrev pub IsKept :
      (sid : ℕ) → Dict String (CandidateSignal W) → SignalPool W × List (Group W) → Type 0
  IsKept sid d r = (lookup sid r.0.pool ≡ some d) ⊎ IsOut (values d) r.1

  flush_items-IsKept :
      (now : ℕ) (items : List (ℕ × ℕ)) (p : SignalPool W) (out : List (Group W)) (sid : ℕ)
      (name : String) (s : CandidateSignal W) (d : Dict String (CandidateSignal W))
      → lookup sid p.pool ≡ some ((name, s) ∷ d)
      → IsKept sid ((name, s) ∷ d) (flush_items now items p out)
  unfolding flush_items
  flush_items-IsKept now [] p out sid name s d h = inl h
  flush_items-IsKept now ((k, first) ∷ l) p out sid name s d h =
      elim_if (IsKept sid ((name, s) ∷ d)) (is_mature now first p) _ _
        (λ c. elim (Bool-cases (k == sid)) [
          | inl same ↦
              let e : k ≡ sid = (==_iff k sid).0 same in
              let group : signals_of k p ≡ (name, s) ∷ d =
                ap (or_default []) (ap (λ i. lookup i p.pool) e ∙ h) in
              inr (
                flush_items-IsOut now l (cleared k p) (forwarded (values (signals_of k p)) out)
                  (s ∷ values d) (rw group (IsOut-last (s ∷ values d) out)))
          | inr other ↦
              flush_items-IsKept now l (cleared k p) (forwarded (values (signals_of k p)) out) sid
                name s d (rw (lookup-erase k sid p.pool, other) h)
        ])
        (λ c. flush_items-IsKept now l p out sid name s d h)

  -- The signals of a symbol that are in the pool are there after a check too, or the callback gets
  -- them all as one group.
  pub check_and_flush-IsKept :
      (now : ℕ) (p : SignalPool W) (sid : ℕ) (name : String) (s : CandidateSignal W)
      (d : Dict String (CandidateSignal W))
      → lookup sid p.pool ≡ some ((name, s) ∷ d)
      → IsKept sid ((name, s) ∷ d) (check_and_flush true now p)
  unfolding check_and_flush
  check_and_flush-IsKept now p sid name s d h =
      flush_items-IsKept now p.first_signal_time p [] sid name s d h
