-- ===== src/Prelude/Texts.antt =====
-- Equality of texts (identifiers, keys, names), which the program only compares.
use mathlib.Core.Path.{◌≡◌}
use mathlib.Core.Bool.{Bool, true, false}
use mathlib.Core.List.{List, [], ◌∷◌}
use mathlib.Core.Bool.{◌||◌}
use Prim.Native.String.{String, ◌++◌}
use text.Mathlib.Text.{◌==◌}
use text.Mathlib.TextEquality.{eq_iff}
use text.Mathlib.TextPositions.{eq_refl}
use mathlib.Core.Logic.{◌↔◌}

abbrev pub str_eq : String → String → Bool
str_eq a b = a == b

abbrev pub str_append : String → String → String
str_append a b = a ++ b

pub str_iff : (a b : String) → ((str_eq a b) ≡ true) ↔ (a ≡ b)
str_iff a b = eq_iff a b

pub str_refl : (a : String) → (str_eq a a) ≡ true
str_refl a = eq_refl a

-- `new Set(xs).has(a)` over texts
abbrev pub has : List String → String → Bool
has [] a = false
has (x ∷ xs) a = str_eq x a || has xs a
