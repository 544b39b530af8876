-- ===== src/Base/Text.antt =====
-- Go strings that the code computes on, as the list of their bytes (ASCII where a literal stands).
use Prim.Native.Nat.{ℕ, ◌+◌}
use Prim.Native.Char.{code}
use Prim.Native.String.{String}
use mathlib.Core.Path.{◌≡◌, refl}
use mathlib.Core.Bool.{Bool, true, false, ◌&&◌, ◌||◌}
use mathlib.Core.List.{List, [], ◌∷◌, map, reverse}
use native.Mathlib.Omega.{arith}
use cni_plugins.Base.Tests.{ltb, leb, ◌==◌, if◌then◌else◌}

abbrev pub Text : Type 0
Text = List ℕ

-- The bytes of a literal.
abbrev pub codes : String → Text
codes String.[] = []
codes (String.◌∷◌ c s) = code c ∷ codes s

-- `==` on strings.
abbrev pub same_text : Text → Text → Bool
same_text [] [] = true
same_text (a ∷ s) (b ∷ t) = a == b && same_text s t
same_text _ _ = false

-- `>=` on strings, byte by byte: `text_ge s t` is `s >= t`.
abbrev pub text_ge : Text → Text → Bool
text_ge s [] = true
text_ge [] (b ∷ t) = false
text_ge (a ∷ s) (b ∷ t) = if a == b then text_ge s t else ltb b a

-- `strings.HasPrefix`
abbrev pub has_prefix : Text → Text → Bool
has_prefix s [] = true
has_prefix [] (b ∷ t) = false
has_prefix (a ∷ s) (b ∷ t) = a == b && has_prefix s t

abbrev pub contains_byte : Text → ℕ → Bool
contains_byte [] c = false
contains_byte (a ∷ s) c = a == c || contains_byte s c

-- `strings.TrimLeft(s, cutset)`, `strings.Trim(s, cutset)`, for ASCII cutsets.
abbrev pub trim_left : Text → Text → Text
trim_left [] cutset = []
trim_left (a ∷ s) cutset =
    let rest = trim_left s cutset in if contains_byte cutset a then rest else a ∷ s

abbrev pub trim : Text → Text → Text
trim s cutset = reverse (trim_left (reverse (trim_left s cutset)) cutset)

-- The white space that `strings.TrimSpace` cuts from an ASCII text: `\t \n \v \f \r` and blank.
abbrev pub white_space : Text
white_space = 9 ∷ 10 ∷ 11 ∷ 12 ∷ 13 ∷ 32 ∷ []

abbrev pub trim_space : Text → Text
trim_space s = trim s white_space

abbrev pub to_lower : ℕ → ℕ
to_lower c = if leb b'A' c && leb c b'Z' then c + 32 else c

-- `strings.EqualFold` on ASCII texts.
abbrev pub equal_fold : Text → Text → Bool
equal_fold s t = same_text (map to_lower s) (map to_lower t)

pub same_text_self : (s : Text) → same_text s s ≡ true
same_text_self [] = refl
same_text_self (a ∷ s) = ground (arith, same_text_self s)

pub eq_of_same_text : (s t : Text) → same_text s t ≡ true → s ≡ t
eq_of_same_text [] [] h = refl
eq_of_same_text [] (b ∷ t) h = cc
eq_of_same_text (a ∷ s) [] h = cc
eq_of_same_text (a ∷ s) (b ∷ t) h = ground (arith, eq_of_same_text s t)
