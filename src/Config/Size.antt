-- ===== src/Config/Size.antt =====
-- config.go: what ParseSize makes of a number and a unit.
use Prim.Native.Char.{Char, code}
use Prim.Native.String.{count}
use mathlib.Core.Option
use text.Mathlib.TextLemmas.{append-nil, nil-append, cons-append, length-append, length-cons}
use text.Mathlib.TextEquality.{eq_iff}
use update_service.Base.{
  ℕ, zero, suc, ◌+◌, ◌-◌, ◌*◌, ◌/◌, ◌%◌, ◌^◌, ◌<◌, ◌≤◌, ◌≡◌, refl, ap, ◌∙◌, sym, inl, inr,
  Bool-cases, String, false, Option, none, some, ltb, leb, ◌==◌, str_eq, cat, decimal, emit, digit,
  arith, code-digit, is_digit-digit,
}
use update_service.Config.{trim_suffix, scan_uint, parse_int, parse_size, max_uint64}

-- A text that is longer than the suffix is not it.
longer : (c : Char) (d u t : String) → count u ≡ count t → str_eq (String.◌∷◌ c (cat d u)) t ≡ false
longer c d u t h = elim (Bool-cases (str_eq (String.◌∷◌ c (cat d u)) t)) [
  | inl e ↦
      let same : String.◌∷◌ c (cat d u) ≡ t = (eq_iff (String.◌∷◌ c (cat d u)) t).0 e in
      absurd (omega (arith, h, ap count same, length-cons c (cat d u), length-append d u))
  | inr e ↦ e
]

map-none_or : (o : Option String) → o ≡ Option.map (cat "") o
map-none_or none = refl
map-none_or (some r) = ap some (sym (nil-append r))

map-map :
    (c : Char) (d : String) (o : Option String)
    → Option.map (String.◌∷◌ c) (Option.map (cat d) o) ≡ Option.map (cat (String.◌∷◌ c d)) o
map-map c d none = refl
map-map c d (some r) = ap some (sym (cons-append c d r))

-- A suffix of the same length is looked for at the end.
trim_suffix-cat :
    (d u t : String)
    → count u ≡ count t
    → trim_suffix t (cat d u) ≡ Option.map (cat d) (trim_suffix t u)
unfolding trim_suffix
trim_suffix-cat String.[] u t h = ap (trim_suffix t) (nil-append u) ∙ map-none_or (trim_suffix t u)
trim_suffix-cat (String.◌∷◌ c d) u t h =
    rw (cons-append c d u, longer c d u t h)
      (ap (Option.map (String.◌∷◌ c)) (trim_suffix-cat d u t h) ∙ map-map c d (trim_suffix t u))

-- A digit is read and the rest behind it, if the number so far is a uint64.
scan_uint-digit :
    (n d : ℕ) (s : String)
    → d < 10
    → n * 10 + d ≤ max_uint64
    → scan_uint n (String.◌∷◌ (digit d) s) ≡ scan_uint (n * 10 + d) s
unfolding scan_uint
scan_uint-digit n d s h k =
    let e : code (digit d) - b'0' ≡ d = omega (arith, code-digit d h) in
    let fits : ltb max_uint64 (n * 10 + d) ≡ false = ground (arith, k) in
    rw (is_digit-digit d h, e, fits) refl

scan_uint-emit :
    (fuel n : ℕ) (out : String)
    → n < fuel
    → n ≤ max_uint64
    → scan_uint 0 (emit 10 fuel n out) ≡ scan_uint n out
unfolding emit
scan_uint-emit zero n out h k = absurd (omega arith)
scan_uint-emit (suc fuel) n out h k = elim (Bool-cases (ltb n 10)) [
  | inl small ↦
      let z : 0 * 10 + n ≡ n = omega arith in
      rw small (rw z at (scan_uint-digit 0 n out (ground arith) (omega (arith, k))))
  | inr large ↦
      let e : n / 10 * 10 + n % 10 ≡ n = omega arith in
      rw large (
        scan_uint-emit fuel (n / 10) (String.◌∷◌ (digit (n % 10)) out) (ground arith)
          (omega (arith, k))
        ∙ (rw e at (scan_uint-digit (n / 10) (n % 10) out (omega arith) (omega (arith, e, k)))))
]

-- `%d` gives a text that starts with a digit.
digits :
    (fuel n : ℕ) (out : String)
    → n < fuel
    → (d : ℕ) × ((s : String) × ((d < 10) × (emit 10 fuel n out ≡ String.◌∷◌ (digit d) s)))
unfolding emit
digits zero n out h = absurd (omega arith)
digits (suc fuel) n out h = elim (Bool-cases (ltb n 10)) [
  | inl small ↦ rw small (n, (out, (ground arith, refl)))
  | inr large ↦ rw large (digits fuel (n / 10) (String.◌∷◌ (digit (n % 10)) out) (ground arith))
]

parse_digit :
    (d n : ℕ) (s : String)
    → d < 10
    → n < 2 ^ 63
    → scan_uint 0 (String.◌∷◌ (digit d) s) ≡ some n
    → parse_int (String.◌∷◌ (digit d) s) ≡ n
unfolding parse_int
parse_digit d n s h k read =
    let plus : (code (digit d) == b'+') ≡ false = ground (arith, code-digit d h) in
    let minus : (code (digit d) == b'-') ≡ false = ground (arith, code-digit d h) in
    let fits : leb (2 ^ 63) n ≡ false = ground (arith, k) in rw (plus, minus, read, fits) refl

-- A number is read back.
parse_int-decimal : (n : ℕ) → n < 2 ^ 63 → parse_int (decimal n) ≡ n
unfolding decimal scan_uint
parse_int-decimal n h =
    let first = digits (suc n) n "" (omega arith) in
    let read : scan_uint 0 (emit 10 (suc n) n "") ≡ some n =
      scan_uint-emit (suc n) n "" (omega arith) (omega (arith, h)) in
    rw first.1.1.1 (parse_digit first.0 n first.1.0 first.1.1.0 h (rw first.1.1.1 at read))

-- The units, their suffixes and their sizes.
pub data SizeUnit : Type 0 where
  kib mib gib : SizeUnit

abbrev pub suffix : SizeUnit → String
suffix kib = "KiB"
suffix mib = "MiB"
suffix gib = "GiB"

abbrev pub unit_bytes : SizeUnit → ℕ
unit_bytes kib = 1024
unit_bytes mib = 1024 ^ 2
unit_bytes gib = 1024 ^ 3

nonempty : (d u : String) → count u ≡ 3 → str_eq (cat d u) "" ≡ false
nonempty d u h = elim (Bool-cases (str_eq (cat d u) "")) [
  | inl e ↦
      let same : cat d u ≡ "" = (eq_iff (cat d u) "").0 e in
      absurd (omega (arith, h, ap count same, length-append d u, none_left))
  | inr e ↦ e
]
  where
    none_left : count "" ≡ 0
    none_left = refl

-- A number of units below 2 ^ 63 is read as the number of its bytes, modulo 2 ^ 64: exactly, as long as
-- that is an int64, and wrapped around without an error beyond.
pub parse_size-decimal :
    (n : ℕ) (u : SizeUnit)
    → n < 2 ^ 63
    → parse_size (cat (decimal n) (suffix u)) ≡ n * unit_bytes u % 2 ^ 64
unfolding parse_size
parse_size-decimal n kib h =
    rw
      (
        nonempty (decimal n) "KiB" refl,
        trim_suffix-cat (decimal n) "KiB" "KiB" refl,
        append-nil (decimal n),
        parse_int-decimal n h,
      )
      refl
parse_size-decimal n mib h =
    rw
      (
        nonempty (decimal n) "MiB" refl,
        trim_suffix-cat (decimal n) "MiB" "KiB" refl,
        trim_suffix-cat (decimal n) "MiB" "MiB" refl,
        append-nil (decimal n),
        parse_int-decimal n h,
      )
      refl
parse_size-decimal n gib h =
    rw
      (
        nonempty (decimal n) "GiB" refl,
        trim_suffix-cat (decimal n) "GiB" "KiB" refl,
        trim_suffix-cat (decimal n) "GiB" "MiB" refl,
        trim_suffix-cat (decimal n) "GiB" "GiB" refl,
        append-nil (decimal n),
        parse_int-decimal n h,
      )
      refl
