-- ===== src/Base/Text.antt =====
-- The text operations that the code calls, over the code points of a string.
use Prim.Native.Nat.{ℕ, ◌+◌, ◌-◌}
use Prim.Native.Char.{code}
use Prim.Native.String.{String}
use mathlib.Core.Bool.{Bool, true, false, ◌&&◌, ◌||◌}
use mathlib.Core.List.{List, [], ◌∷◌}
use quant_dss.Base.Tests.{leb, ◌==◌, if◌then◌else◌}

abbrev pub Text : Type 0
Text = List ℕ

abbrev pub codes : String → Text
codes String.[] = []
codes (String.◌∷◌ c s) = code c ∷ codes s

abbrev pub text_eq : Text → Text → Bool
text_eq [] [] = true
text_eq (a ∷ s) (b ∷ t) = (a == b) && text_eq s t
text_eq _ _ = false

abbrev pub has_prefix : Text → Text → Bool
has_prefix [] t = true
has_prefix (a ∷ s) [] = false
has_prefix (a ∷ s) (b ∷ t) = (a == b) && has_prefix s t

-- `p in t`
abbrev pub has_infix : Text → Text → Bool
has_infix p [] = has_prefix p []
has_infix p (b ∷ t) = has_prefix p (b ∷ t) || has_infix p t

-- `t.upper()` and `t.lower()` on ASCII.
abbrev pub upper : Text → Text
upper [] = []
upper (c ∷ t) = (if leb b'a' c && leb c b'z' then c - 32 else c) ∷ upper t

abbrev pub lower : Text → Text
lower [] = []
lower (c ∷ t) = (if leb b'A' c && leb c b'Z' then c + 32 else c) ∷ lower t

-- `t.replace(a, b)` for single characters.
abbrev pub replace : ℕ → ℕ → Text → Text
replace a b [] = []
replace a b (c ∷ t) = (if c == a then b else c) ∷ replace a b t
