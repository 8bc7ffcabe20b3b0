-- ===== src/AutoTrader/Queue.antt =====
-- engine/auto_trader_engine.py: the bounded queue between the scanner and the batches.
use quant_dss.Base.{
  ℕ, zero, suc, ◌-◌, ◌≤◌, ◌<◌, ◌≡◌, refl, sym, subst, ap, ◌∙◌, List, [], ◌∷◌, ◌++◌, arith, ltb,
  Bool-cases, inl, inr, ltb→lt, if◌then◌else◌, length, length-append,
}

abbrev pub maxsize : ℕ
maxsize = 100

module _ {P : Type 0} where
  abbrev put_if_free : P → List P → List P
  put_if_free p l = if ltb (length l) maxsize then l ++ p ∷ [] else l

  -- `enqueue`: `put_nowait`, and on QueueFull `get_nowait` first.
  unfoldable pub enqueue : P → List P → List P
  enqueue p [] = p ∷ []
  enqueue p (q ∷ l) = if ltb (length (q ∷ l)) maxsize then (q ∷ l) ++ p ∷ [] else put_if_free p l

  abbrev pub enqueue_all : List P → List P → List P
  enqueue_all [] queue = queue
  enqueue_all (p ∷ l) queue = enqueue_all l (enqueue p queue)

  abbrev pub drop : ℕ → List P → List P
  drop zero l = l
  drop (suc n) [] = []
  drop (suc n) (x ∷ l) = drop n l

  -- The last items, as many as the queue holds.
  abbrev pub newest : List P → List P
  newest l = drop (length l - maxsize) l

  drop-append : (n : ℕ) (l m : List P) → n ≤ length l → drop n (l ++ m) ≡ drop n l ++ m
  drop-append zero l m h = refl
  drop-append (suc n) [] m h = absurd (omega (arith, h))
  drop-append (suc n) (x ∷ l) m h = drop-append n l m (omega (arith, h))

  length-drop : (n : ℕ) (l : List P) → length (drop n l) ≡ length l - n
  length-drop zero l = omega arith
  length-drop (suc n) [] = omega arith
  length-drop (suc n) (x ∷ l) = omega (arith, length-drop n l)

  tail_of_drop : (n : ℕ) (l : List P) → drop 1 (drop n l) ≡ drop (suc n) l
  tail_of_drop zero [] = refl
  tail_of_drop zero (x ∷ l) = refl
  tail_of_drop (suc n) [] = refl
  tail_of_drop (suc n) (x ∷ l) = tail_of_drop n l

  -- One more item on a queue of at most `maxsize`.
  enqueue-short : (p : P) (l : List P) → length l < maxsize → enqueue p l ≡ l ++ p ∷ []
  unfolding enqueue
  enqueue-short p [] h = refl
  enqueue-short p (q ∷ l) h = ground (arith, h)

  enqueue-full : (p : P) (l : List P) → length l ≡ maxsize → enqueue p l ≡ drop 1 l ++ p ∷ []
  unfolding enqueue
  enqueue-full p [] h = absurd (omega (arith, h))
  enqueue-full p (q ∷ l) h = ground (arith, h)

  at_most : (p : P) (l : List P) → length l < maxsize → enqueue p (newest l) ≡ newest (l ++ p ∷ [])
  at_most p l h =
      ap (λ n. enqueue p (drop n l)) (the_zero l h)
      ∙ enqueue-short p l h
      ∙ ap (λ n. drop n (l ++ p ∷ [])) (sym (the_zero_after p l h))
    where
      the_zero : (l : List P) → length l < maxsize → length l - maxsize ≡ 0
      the_zero l h = omega (arith, h)

      the_zero_after :
          (p : P) (l : List P) → length l < maxsize → length (l ++ p ∷ []) - maxsize ≡ 0
      the_zero_after p l h = omega (arith, h, length-append l (p ∷ []))

  more : (p : P) (l : List P) → maxsize ≤ length l → enqueue p (newest l) ≡ newest (l ++ p ∷ [])
  more p l h =
      enqueue-full p (newest l) (omega (arith, h, length-drop (length l - maxsize) l))
      ∙ ap (λ m. m ++ p ∷ []) (tail_of_drop (length l - maxsize) l)
      ∙ sym (drop-append (suc (length l - maxsize)) l (p ∷ []) (omega (arith, h)))
      ∙ ap (λ n. drop n (l ++ p ∷ [])) (one_more p l h)
    where
      one_more :
          (p : P) (l : List P)
          → maxsize ≤ length l
          → suc (length l - maxsize) ≡ length (l ++ p ∷ []) - maxsize
      one_more p l h = omega (arith, h, length-append l (p ∷ []))

  enqueue-newest : (p : P) (l : List P) → enqueue p (newest l) ≡ newest (l ++ p ∷ [])
  enqueue-newest p l = elim (Bool-cases (ltb (length l) maxsize)) [
    | inl h ↦ at_most p l (ltb→lt (length l) maxsize h)
    | inr h ↦ more p l (ground (arith, h))
  ]

  append_assoc : (l : List P) (p : P) (m : List P) → (l ++ p ∷ []) ++ m ≡ l ++ p ∷ m
  append_assoc [] p m = refl
  append_assoc (x ∷ l) p m = ap (λ r. x ∷ r) (append_assoc l p m)

  append_nil : (l : List P) → l ≡ l ++ []
  append_nil [] = refl
  append_nil (x ∷ l) = ap (λ r. x ∷ r) (append_nil l)

  all-newest : (l history : List P) → enqueue_all l (newest history) ≡ newest (history ++ l)
  all-newest [] history = ap newest (append_nil history)
  all-newest (p ∷ l) history =
      ap (enqueue_all l) (enqueue-newest p history)
      ∙ all-newest l (history ++ p ∷ [])
      ∙ ap newest (append_assoc history p l)

  -- A queue that holds the newest payloads of a history holds those of the longer one after any
  -- more are added: the oldest are dropped, and never more than a hundred wait.
  pub enqueue_all-newest :
      (l history : List P)
      → (enqueue_all l (newest history) ≡ newest (history ++ l))
        × (length (enqueue_all l (newest history)) ≤ maxsize)
  enqueue_all-newest l history = (
    all-newest l history,
    subst (λ m. length m ≤ maxsize) (sym (all-newest l history))
        (omega (arith, length-drop (length (history ++ l) - maxsize) (history ++ l))),
  )
