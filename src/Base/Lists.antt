-- ===== src/Base/Lists.antt =====
-- Lists over the native numbers, under the library's names, and Python's `or` on an optional value.
use Prim.Native.Nat.{ℕ, zero, suc, ◌+◌, ◌≤◌}
use mathlib.Core.Path.{◌≡◌, refl, ap}
use mathlib.Core.Logic.{◌⊎◌, inl, inr}
use mathlib.Core.Bool.{Bool, true, false, ◌||◌, ◌&&◌}
use mathlib.Core.Option.{Option, none, some}
use mathlib.Core.List.{List, [], ◌∷◌, ◌++◌}
use native.Mathlib.Omega.{arith}
use quant_dss.Base.Tests.{if◌then◌else◌}

-- `x if x is not None else d`
abbrev pub or_default {ℓ} : {A : Type ℓ} → A → Option A → A
or_default d none = d
or_default d (some a) = a

module _ {ℓ} {A : Type ℓ} where
  abbrev pub length : List A → ℕ
  length [] = 0
  length (x ∷ xs) = suc (length xs)

  -- A `deque(maxlen=n)` keeps the last `n` items: `take` of the newest first.
  abbrev pub take : ℕ → List A → List A
  take zero xs = []
  take (suc n) [] = []
  take (suc n) (x ∷ xs) = x ∷ take n xs

  -- `any(p(x) for x in xs)`
  abbrev pub any : (A → Bool) → List A → Bool
  any p [] = false
  any p (x ∷ xs) = p x || any p xs

  -- `sum(1 for x in xs if p(x))`
  abbrev pub count_if : (A → Bool) → List A → ℕ
  count_if p [] = 0
  count_if p (x ∷ xs) = elim (p x) [ true ↦ suc (count_if p xs) | false ↦ count_if p xs ]

  pub length-append : (xs ys : List A) → length (xs ++ ys) ≡ length xs + length ys
  length-append [] ys = omega arith
  length-append (x ∷ xs) ys = omega (arith, length-append xs ys)

  pub count_if-append :
      (p : A → Bool) (l : List A) (x : A)
      → count_if p (l ++ x ∷ []) ≡ count_if p l + (if p x then 1 else 0)
  count_if-append p [] x = ground arith
  count_if-append p (y ∷ l) x = ground (arith, count_if-append p l x)

  pub length-take : (n : ℕ) (xs : List A) → length (take n xs) ≤ n
  length-take zero xs = omega arith
  length-take (suc n) [] = omega arith
  length-take (suc n) (x ∷ xs) = omega (arith, length-take n xs)

-- A predicate that holds of every item.
abbrev pub All {ℓ κ} : {A : Type ℓ} → (A → Type κ) → List A → Type κ
All P [] = Unit
All P (x ∷ xs) = P x × All P xs

pub All-map {ℓ κ ν} :
    {A : Type ℓ} {P : A → Type κ} {Q : A → Type ν} (l : List A)
    → ((x : A) → P x → Q x)
    → All P l
    → All Q l
All-map [] h p = tt
All-map (x ∷ l) h p = (h x p.0, All-map l h p.1)

module _ {ℓ} {A : Type ℓ} where
  abbrev pub filter : (A → Bool) → List A → List A
  filter p [] = []
  filter p (x ∷ xs) = let rest = filter p xs in elim (p x) [ true ↦ x ∷ rest | false ↦ rest ]

  pub any-filter : (p q : A → Bool) (l : List A) → any p (filter q l) ≡ any (λ x. q x && p x) l
  any-filter p q [] = refl
  any-filter p q (x ∷ l) = ground (arith, any-filter p q l)

  pub List-cases : (l : List A) → (l ≡ []) ⊎ ((x : A) × (r : List A) × (l ≡ x ∷ r))
  List-cases [] = inl refl
  List-cases (x ∷ r) = inr (x, r, refl)

  pub take-take : (m n : ℕ) (l : List A) → m ≤ n → take m (take n l) ≡ take m l
  take-take zero n l h = refl
  take-take (suc m) zero l h = absurd (omega arith)
  take-take (suc m) (suc n) [] h = refl
  take-take (suc m) (suc n) (x ∷ l) h = ap (λ r. x ∷ r) (take-take m n l (omega arith))

-- What holds of each outcome of a case split or a conditional holds of the split, with the equation
-- of its case.
pub elim_option {ℓ κ ν} :
    {A : Type ℓ} {B : Type κ} (P : B → Type ν) (o : Option A) (x : B) (g : A → B)
    → (o ≡ none → P x)
    → ((a : A) → o ≡ some a → P (g a))
    → P (elim o [ none ↦ x | some a ↦ g a ])
elim_option P none x g h k = h refl
elim_option P (some a) x g h k = k a refl

pub elim_if {κ ν} :
    {B : Type κ} (P : B → Type ν) (c : Bool) (x y : B)
    → (c ≡ true → P x)
    → (c ≡ false → P y)
    → P (if c then x else y)
elim_if P true x y h k = h refl
elim_if P false x y h k = k refl
