-- ===== src/Prelude/Text.antt =====
-- Texts as lists of code points, and `str.strip`.
use Prim.Native.Nat.{ℕ, Ordering, compare}
use Prim.Native.String.{String}
use Prim.Native.Char.{Char, char, code, nul, IsScalar}
use mathlib.Core.Path.{◌≡◌, refl}
use mathlib.Core.Bool.{Bool, true, false, ◌&&◌, ◌||◌}
use mathlib.Core.Option.{Option, none, some}
use mathlib.Core.List.{List, [], ◌∷◌}
use eeebot_self_evolving.Prelude.Tests.{◌==◌, leb, if◌then◌else◌}

abbrev pub codes : String → List ℕ
codes String.[] = []
codes (String.◌∷◌ c s) = code c ∷ codes s

abbrev pub name_eq : List ℕ → List ℕ → Bool
name_eq [] [] = true
name_eq (x ∷ xs) (y ∷ ys) = x == y && name_eq xs ys
name_eq _ _ = false

-- The white space that `str.strip` removes.
abbrev pub is_space : ℕ → Bool
is_space c =
    (leb 9 c && leb c 13)
    || ((leb 28 c && leb c 32)
        || (c == 133
            || (c == 160
                || (c == 5760
                    || ((leb 8192 c && leb c 8202)
                        || (c == 8232
                            || (c == 8233 || (c == 8239 || (c == 8287 || c == 12288)))))))))

abbrev pub lstrip : List ℕ → List ℕ
lstrip [] = []
lstrip (c ∷ cs) = let rest = lstrip cs in if is_space c then rest else c ∷ cs

abbrev pub rstrip : List ℕ → List ℕ
rstrip [] = []
rstrip (c ∷ cs) = elim (rstrip cs) [ [] ↦ if is_space c then [] else c ∷ [] | d ∷ ds ↦ c ∷ d ∷ ds ]

-- `text.strip()`
abbrev pub strip : List ℕ → List ℕ
strip text = lstrip (rstrip text)

abbrev scalar :
    (n : ℕ) (o p q : Ordering)
    → compare n 55296 ≡ o
    → compare 57343 n ≡ p
    → compare n 1114112 ≡ q
    → Option (IsScalar n)
scalar n Ordering.lt p q e f g = some (rw e tt)
scalar n Ordering.gt Ordering.lt Ordering.lt e f g = some (rw (e, f, g) tt)
scalar n o p q e f g = none

-- The character of a code point, and U+0000 for a number that is none.
abbrev chr : ℕ → Char
chr n = elim (scalar n _ _ _ refl refl refl) [ none ↦ nul | some p ↦ char n p ]

-- The text of code points.
abbrev pub text_of : List ℕ → String
text_of [] = String.[]
text_of (c ∷ cs) = String.◌∷◌ (chr c) (text_of cs)
