-- ===== src/Config.antt =====
-- internal/config/config.go: `ParseSize` and `Validate`. An int64 is its two's complement, a number
-- below 2 ^ 64; strconv.ParseInt gives 0 for a text that is no number and the nearest int64 for one
-- out of range, and `ParseSize` drops the error.
pub mod Size
use Prim.Native.Char.{Char, code}
use mathlib.Core.Option
use update_service.Base.{
  ℕ, zero, suc, ◌+◌, ◌-◌, ◌*◌, ◌%◌, ◌^◌, String, Bool, true, false, not, Option, none, some, List,
  [], ◌∷◌, ltb, leb, ◌==◌, if◌then◌else◌, str_eq, cat, is_digit,
}

-- `strings.HasSuffix` and `strings.TrimSuffix`: the text in front of the suffix, if it ends so.
unfoldable pub trim_suffix : String → String → Option String
trim_suffix suffix String.[] = if str_eq "" suffix then some "" else none
trim_suffix suffix (String.◌∷◌ c s) =
    let rest = trim_suffix suffix s in
    if str_eq (String.◌∷◌ c s) suffix then some "" else Option.map (String.◌∷◌ c) rest

abbrev pub max_uint64 : ℕ
max_uint64 = 2 ^ 64 - 1

-- The loop of strconv.ParseUint, which stops at the first digit that is one too many.
unfoldable pub scan_uint : ℕ → String → Option ℕ
scan_uint n String.[] = some n
scan_uint n (String.◌∷◌ c s) =
    let next = n * 10 + (code c - b'0') in
    let rest = scan_uint next s in
    if not (is_digit (code c)) then none else if ltb max_uint64 next then some max_uint64 else rest

abbrev pub parse_uint : String → Option ℕ
parse_uint String.[] = none
parse_uint (String.◌∷◌ c s) = scan_uint 0 (String.◌∷◌ c s)

abbrev pub clipped : Option ℕ → ℕ
clipped none = 0
clipped (some n) = if leb (2 ^ 63) n then 2 ^ 63 - 1 else n

abbrev pub negated : Option ℕ → ℕ
negated none = 0
negated (some n) = if ltb (2 ^ 63) n then 2 ^ 63 else (2 ^ 64 - n) % 2 ^ 64

-- `n, _ := strconv.ParseInt(s, 10, 64)`
unfoldable pub parse_int : String → ℕ
unfolding scan_uint
parse_int String.[] = 0
parse_int (String.◌∷◌ c s) =
    if code c == b'+'
    then clipped (parse_uint s)
    else if code c == b'-'
    then negated (parse_uint s)
    else clipped (parse_uint (String.◌∷◌ c s))

abbrev pub times : ℕ → ℕ → ℕ
times n unit = n * unit % 2 ^ 64

-- The cases of `ParseSize` from the unit KiB, MiB or GiB on.
abbrev pub parse_gib : String → Option String → ℕ
parse_gib s none = parse_int s
parse_gib s (some digits) = times (parse_int digits) (2 ^ 30)

abbrev pub parse_mib : String → Option String → ℕ
parse_mib s none = parse_gib s (trim_suffix "GiB" s)
parse_mib s (some digits) = times (parse_int digits) (2 ^ 20)

abbrev pub parse_kib : String → Option String → ℕ
parse_kib s none = parse_mib s (trim_suffix "MiB" s)
parse_kib s (some digits) = times (parse_int digits) (2 ^ 10)

-- `ParseSize`
unfoldable pub parse_size : String → ℕ
unfolding trim_suffix parse_int
parse_size s = if str_eq s "" then 2 ^ 20 else parse_kib s (trim_suffix "KiB" s)

-- The settings that `Validate` looks at.
pub record ApplicationConfig : Type 0 where
  pub node_id : String
  pub node_role : String
  pub nats_url : String
  pub db_host : String
  pub db_name : String
  pub db_username : String

-- `Validate`: the error's text, or `none` for nil.
unfoldable pub validate : ApplicationConfig → Option String
validate c =
    if str_eq c.node_id ""
    then some "NODE_ID is required"
    else if str_eq c.node_role ""
    then some "NODE_ROLE is required"
    else if str_eq c.nats_url ""
    then some "NATS_URL is required"
    else if str_eq c.db_host ""
    then some "DB_HOST is required"
    else if str_eq c.db_name ""
    then some "DB_NAME is required"
    else if str_eq c.db_username ""
    then some "DB_USER is required"
    else none
