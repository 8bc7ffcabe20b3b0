-- ===== src/Base/Exec.antt =====
-- Python code that may raise and that changes a state. What was written before a raise stays written.
use mathlib.Core.Path.{◌≡◌, refl}
use mathlib.Core.Logic.{◌⊎◌, inl, inr}
use mathlib.Core.Option.{none, some}
use quant_dss.Base.Tests.{if◌then◌else◌}
use quant_dss.Base.Int.{ℤ}
use quant_dss.Base.Float.{Float, nought}

-- ZeroDivisionError, the ValueError or OverflowError of `math.floor` and `int`, SQLAlchemy's
-- MultipleResultsFound, TypeError, another error of the database, and
-- UnboundLocalError.
pub data Exn : Type 0 where
  zero_division not_finite multiple_rows type_error database_error unbound_local : Exn

pub data Result (A : Type 0) : Type 0 where
  ok : A → Result A
  raised : Exn → Result A

abbrev pub Exec : Type 0 → Type 0 → Type 0
Exec S A = S → Result A × S

module _ {S A : Type 0} where
  abbrev pub pure : A → Exec S A
  pure a s = (ok a, s)

  abbrev pub lift : Result A → Exec S A
  lift r s = (r, s)

infixl 5 ◌>>=◌
abbrev pub ◌>>=◌ : {S A B : Type 0} → Exec S A → (A → Exec S B) → Exec S B
◌>>=◌ m f s = let (r, s') = m s in elim r [ ok a ↦ f a s' | raised e ↦ (raised e, s') ]

-- The same for code that only may raise.
abbrev pub then_ok : {A B : Type 0} → Result A → (A → Result B) → Result B
then_ok (ok a) k = k a
then_ok (raised e) k = raised e

module _ {W : Type 0} ⦃f : Float W⦄ where
  -- `a / b`
  abbrev pub divide : W → W → Result W
  divide a b = if f.eq b nought then raised zero_division else ok (f.quotient a b)

  -- `math.floor(x)`
  abbrev pub floor : W → Result ℤ
  floor x = elim (f.floor x) [ some n ↦ ok n | none ↦ raised not_finite ]

pub Result-cases :
    {A : Type 0} (r : Result A) → ((a : A) × (r ≡ ok a)) ⊎ ((x : Exn) × (r ≡ raised x))
Result-cases (ok a) = inl (a, refl)
Result-cases (raised x) = inr (x, refl)

-- What holds of each outcome of a split on a result holds of the split.
pub elim_result {ℓ κ} :
    {A : Type 0} {B : Type ℓ} (P : B → Type κ) (r : Result A) (x : Exn → B) (g : A → B)
    → ((e : Exn) → r ≡ raised e → P (x e))
    → ((a : A) → r ≡ ok a → P (g a))
    → P (elim r [ raised e ↦ x e | ok a ↦ g a ])
elim_result P (raised e) x g h k = h e refl
elim_result P (ok a) x g h k = k a refl
