-- ===== src/Leases/Dedup.antt =====
-- engine/signal_dedup.py: a signal is new once.
use quant_dss.Base.{
  ℕ, ◌+◌, ◌≤◌, ◌<◌, ◌≡◌, refl, ap, ◌∙◌, Bool, true, false, not, none, some, List, [], ◌∷◌, String,
  arith,
}
use quant_dss.Leases.{Redis, IsRedis}
use quant_dss.Leases.Lock.{micros}

abbrev pub trues : List ℕ → List Bool
trues [] = []
trues (t ∷ ts) = true ∷ trues ts

-- Each time is at or after the one before it, and before the end.
abbrev pub IsWithin : (now end : ℕ) → List ℕ → Type 0
IsWithin now end [] = Unit
IsWithin now end (t ∷ ts) = (now ≤ t) × (t < end) × IsWithin t end ts

-- The key is the text that `_make_key` formats from the two ids and the time of the candle.
module _ {S : Type 0} ⦃r : Redis S⦄ where
  -- `is_duplicate`, from the key on, with the time to live in seconds.
  unfoldable pub is_duplicate : (ttl now : ℕ) → (key : String) → S → Bool × S
  is_duplicate ttl now key s =
      let (is_new, s') = r.set_nx now key "1" (micros ttl) s in (not is_new, s')

  -- The answers to calls with one key at the times.
  abbrev pub answers : (ttl : ℕ) → (key : String) → (times : List ℕ) → S → List Bool
  answers ttl key [] s = []
  answers ttl key (t ∷ ts) s = let (b, s') = is_duplicate ttl t key s in b ∷ answers ttl key ts s'

  known :
      (laws : IsRedis S) (ttl now end : ℕ) (key v : String) (ts : List ℕ) (s : S)
      → ((t : ℕ) → now ≤ t → t < end → r.get t key s ≡ some v)
      → IsWithin now end ts
      → answers ttl key ts s ≡ trues ts
  unfolding is_duplicate
  known laws ttl now end key v [] s h w = refl
  known laws ttl now end key v (t ∷ ts) s h w =
      let s' = (r.set_nx t key "1" (micros ttl) s).1 in
      let x = laws.set_taken t (micros ttl) key "1" v s (h t w.0 w.1) in
      let ih =
        known laws ttl t end key v ts s' (λ u a b. x.1 u a ∙ h u (omega (arith, w.0, a)) b) w.2 in
      ap (λ b. not b ∷ answers ttl key ts s') x.0 ∙ ap (λ l. true ∷ l) ih

  -- If Redis keeps its documented behaviour and does not have the key of a signal, then of calls
  -- for it, one after the other within the time to live of the first, only the first one finds it
  -- new.
  pub is_duplicate-once :
      (laws : IsRedis S) (ttl now : ℕ) (key : String) (ts : List ℕ) (s : S)
      → r.get now key s ≡ none
      → IsWithin now (now + micros ttl) ts
      → answers ttl key (now ∷ ts) s ≡ false ∷ trues ts
  unfolding is_duplicate
  is_duplicate-once laws ttl now key ts s free w =
      let s' = (r.set_nx now key "1" (micros ttl) s).1 in
      let x = laws.set_free now (micros ttl) key "1" s free in
      let held : (t : ℕ) → now ≤ t → t < now + micros ttl → r.get t key s' ≡ some "1" =
        λ t a b. x.1 t a ∙ ground (arith, b) in
      ap (λ b. not b ∷ answers ttl key ts s') x.0
      ∙ ap (λ l. false ∷ l) (known laws ttl now (now + micros ttl) key "1" ts s' held w)
