-- ===== src/Base/Format.antt =====
-- The verbs of Go's fmt that the code prints and scans numbers with: `%d` and `%x`.
use Prim.Native.Nat.{ℕ, zero, suc, ◌+◌, ◌-◌, ◌*◌, ◌/◌, ◌%◌, ◌<◌}
use Prim.Native.Char.{Char, code}
use Prim.Native.String.{String}
use mathlib.Core.Path.{◌≡◌, refl, ap, ◌∙◌}
use mathlib.Core.Bool.{Bool, true, ◌&&◌}
use mathlib.Core.Option.{Option, none, some}
use native.Mathlib.Omega.{arith}
use update_service.Base.Test.{leb, ltb, ◌==◌, if◌then◌else◌, Bool-cases}
use mathlib.Core.Logic.{inl, inr}

-- The digit of a value below sixteen.
abbrev pub digit : ℕ → Char
digit zero = "0"
digit (suc zero) = "1"
digit (suc (suc zero)) = "2"
digit (suc (suc (suc zero))) = "3"
digit (suc (suc (suc (suc zero)))) = "4"
digit (suc (suc (suc (suc (suc zero))))) = "5"
digit (suc (suc (suc (suc (suc (suc zero)))))) = "6"
digit (suc (suc (suc (suc (suc (suc (suc zero))))))) = "7"
digit (suc (suc (suc (suc (suc (suc (suc (suc zero)))))))) = "8"
digit (suc (suc (suc (suc (suc (suc (suc (suc (suc zero))))))))) = "9"
digit (suc (suc (suc (suc (suc (suc (suc (suc (suc (suc n)))))))))) =
    if n == 0
    then "a"
    else if n == 1
    then "b"
    else if n == 2
    then "c"
    else if n == 3
    then "d"
    else if n == 4
    then "e"
    else "f"

-- The digits of `n` in front of `out`, with at least one round; more fuel than `n` is enough.
unfoldable pub emit : ℕ → ℕ → ℕ → String → String
emit base zero n out = out
emit base (suc fuel) n out =
    let rest = emit base fuel (n / base) (String.◌∷◌ (digit (n % base)) out) in
    if ltb n base then String.◌∷◌ (digit n) out else rest

-- `%d`
unfoldable pub decimal : ℕ → String
unfolding emit
decimal n = emit 10 (suc n) n ""

-- `%x` of a number
unfoldable pub hex_number : ℕ → String
unfolding emit
hex_number n = emit 16 (suc n) n ""

-- `%x` of a text: two digits for each byte (the code's texts are ASCII).
unfoldable pub hex_text : String → String
hex_text String.[] = ""
hex_text (String.◌∷◌ c s) =
    String.◌∷◌ (digit (code c / 16)) (String.◌∷◌ (digit (code c % 16)) (hex_text s))

abbrev pub is_digit : ℕ → Bool
is_digit c = leb b'0' c && leb c b'9'

-- The digits at the start of a text, read after `n`.
unfoldable pub scan_digits : ℕ → String → ℕ
scan_digits n String.[] = n
scan_digits n (String.◌∷◌ c s) =
    let rest = scan_digits (n * 10 + (code c - b'0')) s in if is_digit (code c) then rest else n

-- `fmt.Sscanf(s, "%d", &n)` of a text that has no sign: an error if no digit comes first.
unfoldable pub scan_decimal : String → Option ℕ
unfolding scan_digits
scan_decimal String.[] = none
scan_decimal (String.◌∷◌ c s) =
    if is_digit (code c) then some (scan_digits 0 (String.◌∷◌ c s)) else none

decimal-65536 : decimal 65536 ≡ "65536"
unfolding decimal
decimal-65536 = refl

hex_number-255 : hex_number 0xcafe ≡ "cafe"
unfolding hex_number
hex_number-255 = refl

pub code-digit : (d : ℕ) → d < 10 → code (digit d) ≡ b'0' + d
code-digit zero h = refl
code-digit (suc zero) h = refl
code-digit (suc (suc zero)) h = refl
code-digit (suc (suc (suc zero))) h = refl
code-digit (suc (suc (suc (suc zero)))) h = refl
code-digit (suc (suc (suc (suc (suc zero))))) h = refl
code-digit (suc (suc (suc (suc (suc (suc zero)))))) h = refl
code-digit (suc (suc (suc (suc (suc (suc (suc zero))))))) h = refl
code-digit (suc (suc (suc (suc (suc (suc (suc (suc zero)))))))) h = refl
code-digit (suc (suc (suc (suc (suc (suc (suc (suc (suc zero))))))))) h = refl
code-digit (suc (suc (suc (suc (suc (suc (suc (suc (suc (suc n)))))))))) h = absurd (omega arith)

pub is_digit-digit : (d : ℕ) → d < 10 → is_digit (code (digit d)) ≡ true
is_digit-digit d h = rw (code-digit d h) (ground arith)

scan-digit :
    (n d : ℕ) (s : String)
    → d < 10
    → scan_digits n (String.◌∷◌ (digit d) s) ≡ scan_digits (n * 10 + d) s
unfolding scan_digits
scan-digit n d s h =
    let e : code (digit d) - b'0' ≡ d = omega (arith, code-digit d h) in rw (is_digit-digit d h, e)

scan-first :
    (d : ℕ) (s : String) → d < 10 → scan_decimal (String.◌∷◌ (digit d) s) ≡ some (scan_digits d s)
unfolding scan_decimal
scan-first d s h =
    let e : 0 * 10 + (code (digit d) - b'0') ≡ d = omega (arith, code-digit d h) in
    rw (is_digit-digit d h, e)

scan-emit :
    (fuel n : ℕ) (out : String)
    → n < fuel
    → scan_decimal (emit 10 fuel n out) ≡ some (scan_digits n out)
unfolding emit
scan-emit zero n out h = absurd (omega arith)
scan-emit (suc fuel) n out h = elim (Bool-cases (ltb n 10)) [
  | inl small ↦ rw small (scan-first n out (ground arith))
  | inr large ↦
      let e : n / 10 * 10 + n % 10 ≡ n = omega arith in
      rw (large) (
        scan-emit fuel (n / 10) (String.◌∷◌ (digit (n % 10)) out) (ground arith)
        ∙ ap some (rw e at (scan-digit (n / 10) (n % 10) out (omega arith))))
]

-- `%d` and back.
pub scan_decimal-decimal : (n : ℕ) → scan_decimal (decimal n) ≡ some n
unfolding decimal scan_digits
scan_decimal-decimal n = scan-emit (suc n) n "" (omega arith)
