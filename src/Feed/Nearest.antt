-- ===== src/Feed/Nearest.antt =====
-- ingestion/websocket_manager.py: the price of an hour ago.
use quant_dss.Base.{
  ℕ, ◌≤◌, ◌<◌, ◌≡◌, ◌≢◌, refl, sym, subst, ◌⊎◌, inl, inr, Option, none, some, List, [], ◌∷◌, String,
  arith, elim_if, All, All-map, leb, ltb, if◌then◌else◌, ltb→lt,
}
use quant_dss.Feed.Cache.{Cache, history_of, gap, closer, nearest, get_ltp_1h_ago}

module _ {A : Type 0} where
  -- An item of a list.
  abbrev pub IsAmong : A → List A → Type 0
  IsAmong x [] = x ≢ x
  IsAmong x (y ∷ l) = (x ≡ y) ⊎ IsAmong x l

module _ {W : Type 0} (now lookback : ℕ) where
  -- An entry of a list, no entry of which is nearer.
  abbrev pub IsNearest : List (ℕ × W) → Option (ℕ × W) → Type 0
  IsNearest l none = l ≡ []
  IsNearest l (some b) = IsAmong b l × All (λ e. gap now lookback b ≤ gap now lookback e) l

  closer-IsNearest :
      (e : ℕ × W) (l : List (ℕ × W)) (best : Option (ℕ × W))
      → IsNearest l best
      → IsNearest (e ∷ l) (closer now lookback e best)
  closer-IsNearest e l none h = rw h (inl refl, (omega arith, tt))
  closer-IsNearest e l (some b) h =
      elim_if (IsNearest (e ∷ l)) (ltb (gap now lookback e) (gap now lookback b)) (some e) (some b)
        (λ near.
          let lt = ltb→lt (gap now lookback e) (gap now lookback b) near in
          (inl refl, (omega arith, All-map l (λ x k. omega (arith, k, lt)) h.1)))
        (λ far. (inr h.0, (ground (arith, far), h.1)))

  nearest-IsNearest : (l : List (ℕ × W)) → IsNearest l (nearest now lookback l)
  unfolding nearest
  nearest-IsNearest [] = refl
  nearest-IsNearest (e ∷ l) = closer-IsNearest e l (nearest now lookback l) (nearest-IsNearest l)

  -- An answer is the price of an entry within five minutes of the time that is asked for, and no entry
  -- is nearer; without an answer every entry is farther away.
  abbrev pub IsHourOld : List (ℕ × W) → Option W → Type 0
  IsHourOld l none = All (λ e. 300_000_000 < gap now lookback e) l
  IsHourOld l (some p) =
      (b : ℕ × W) × (b.1 ≡ p) × (gap now lookback b ≤ 300_000_000) × IsNearest l (some b)

  within-IsHourOld :
      (l : List (ℕ × W)) (b : ℕ × W)
      → IsNearest l (some b)
      → IsHourOld l (if leb (gap now lookback b) 300_000_000 then some b.1 else none)
  within-IsHourOld l b h =
      elim_if (IsHourOld l) (leb (gap now lookback b) 300_000_000) (some b.1) none
        (λ near. (b, refl, ground (arith, near), h))
        (λ far. All-map l (λ x k. ground (arith, k, far)) h.1)

  answer-IsHourOld :
      (l : List (ℕ × W)) (o : Option (ℕ × W))
      → IsNearest l o
      → IsHourOld l (elim o [
        | none ↦ none
        | some e ↦ if leb (gap now lookback e) 300_000_000 then some e.1 else none
      ])
  answer-IsHourOld l none h = subst (λ m. IsHourOld m none) (sym h) tt
  answer-IsHourOld l (some b) h = within-IsHourOld l b h

  -- Whatever the cache is: the price of an hour ago is that of a kept entry of the instrument within
  -- five minutes of the time that is asked for, than which no kept entry is nearer, and where there is
  -- none every kept entry is farther away.
  pub get_ltp_1h_ago-IsHourOld :
      (key : String) (s : Cache W)
      → IsHourOld (history_of key s) (get_ltp_1h_ago now lookback key s)
  unfolding get_ltp_1h_ago
  get_ltp_1h_ago-IsHourOld key s =
      answer-IsHourOld (history_of key s) (nearest now lookback (history_of key s))
        (nearest-IsNearest (history_of key s))
