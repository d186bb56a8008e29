-- ===== src/Base/Text.antt =====
-- Equality of Go strings.
use Prim.Native.String.{String, ◌++◌}
use mathlib.Core.Path.{◌≡◌}
use mathlib.Core.Bool.{Bool, true, false}
use mathlib.Core.Option.{none, some}
use text.Mathlib.Text.{◌==◌, find?}
use text.Mathlib.TextPositions.{eq_refl}

abbrev pub str_eq : String → String → Bool
str_eq a b = a == b

pub str_eq_refl : (s : String) → str_eq s s ≡ true
str_eq_refl s = eq_refl s

-- Go's `+` on strings.
abbrev pub cat : String → String → String
cat a b = a ++ b

-- `strings.Contains`
unfoldable pub contains : String → String → Bool
contains s t = elim (find? s t) [ none ↦ false | some n ↦ true ]
