-- ===== src/Text.antt =====
-- The operations of Go's `strings` package that the controllers use, on native strings.
-- Case mapping covers ASCII: the CRDs admit only the scopes ACCOUNT, ORG and PROJECT.
pub mod Trim
pub mod Order
use Prim.Native.Char.{Char, code}
use Prim.Native.Nat.{◌/◌, ◌%◌}
use Prim.Native.String.{char_at, compare}
use text.Mathlib.Text.{find?, is_lt}
use harness_gitops_agent_ope.Common.{
  ℕ, zero, suc, ◌-◌, String, Bool, true, false, ◌&&◌, ◌||◌, Option, none, some, if◌then◌else◌, leb,
  ltb, nat_eq,
}
pub use text.Mathlib.Text.{◌==◌}
pub use text.Mathlib.TextEquality.{eq_iff}
pub use text.Mathlib.TextPositions.{eq_refl}

-- `a ++ b` on strings
infixr 65 ◌<>◌
abbrev pub ◌<>◌ : String → String → String
◌<>◌ = Prim.Native.String.◌++◌

-- unicode.IsSpace
is_space : ℕ → Bool
is_space c =
    (leb 9 c && leb c 13)
    || nat_eq c 32
    || nat_eq c 0x85
    || nat_eq c 0xa0
    || nat_eq c 0x1680
    || (leb 0x2000 c && leb c 0x200a)
    || nat_eq c 0x2028
    || nat_eq c 0x2029
    || nat_eq c 0x202f
    || nat_eq c 0x205f
    || nat_eq c 0x3000

trim_left : String → String
trim_left String.[] = ""
trim_left (String.◌∷◌ c s) = if is_space (code c) then trim_left s else String.◌∷◌ c s

-- A character in front of a trimmed rest.
trim_cons : Char → String → String
trim_cons c String.[] = if is_space (code c) then "" else String.◌∷◌ c ""
trim_cons c (String.◌∷◌ d s) = String.◌∷◌ c (String.◌∷◌ d s)

trim_right : String → String
trim_right String.[] = ""
trim_right (String.◌∷◌ c s) = trim_cons c (trim_right s)

-- strings.TrimSpace
unfoldable pub trim_space : String → String
unfolding trim_left trim_right trim_cons is_space
trim_space s = trim_right (trim_left s)

upper_char : Char → Char
upper_char c =
    if leb b'a' (code c) && leb (code c) b'z'
    then char_at "ABCDEFGHIJKLMNOPQRSTUVWXYZ" (code c - b'a')
    else c

lower_char : Char → Char
lower_char c =
    if leb b'A' (code c) && leb (code c) b'Z'
    then char_at "abcdefghijklmnopqrstuvwxyz" (code c - b'A')
    else c

-- strings.ToUpper
unfoldable pub to_upper : String → String
unfolding upper_char
to_upper String.[] = ""
to_upper (String.◌∷◌ c s) = String.◌∷◌ (upper_char c) (to_upper s)

-- strings.ToLower
unfoldable pub to_lower : String → String
unfolding lower_char
to_lower String.[] = ""
to_lower (String.◌∷◌ c s) = String.◌∷◌ (lower_char c) (to_lower s)

-- strings.EqualFold, against a constant with no K or S
unfoldable pub equal_fold : String → String → Bool
unfolding to_upper
equal_fold s t = to_upper s == to_upper t

-- strings.SplitN(s, ".", 2): the part behind the first dot, if there is a dot
unfoldable pub after_dot : String → Option String
after_dot String.[] = none
after_dot (String.◌∷◌ c s) = if nat_eq (code c) b'.' then some s else after_dot s

-- strings.Contains
unfoldable pub contains : String → String → Bool
contains s t = elim (find? s t) [ none ↦ false | some at ↦ true ]

-- Go's `<` on strings compares bytes, which is the order of the code points.
unfoldable pub str_lt : String → String → Bool
str_lt s t = is_lt (compare s t)

escape : Char → String
escape c =
    if nat_eq (code c) b'"' || nat_eq (code c) 92
    then String.◌∷◌ (char_at "\\" 0) (String.◌∷◌ c "")
    else String.◌∷◌ c ""

escape_all : String → String
escape_all String.[] = ""
escape_all (String.◌∷◌ c s) = escape c <> escape_all s

-- The verb %q, for text with no control characters.
unfoldable pub quote : String → String
unfolding escape_all escape
quote s = "\"" <> escape_all s <> "\""

decimal_onto : ℕ → ℕ → String → String
decimal_onto zero n rest = rest
decimal_onto (suc fuel) n rest =
    let digits = String.◌∷◌ (char_at "0123456789" (n % 10)) rest in
    let more = decimal_onto fuel (n / 10) digits in if ltb n 10 then digits else more

-- The verb %d. A number has at most as many digits as its successor, so the fuel is enough.
unfoldable pub decimal : ℕ → String
unfolding decimal_onto
decimal n = decimal_onto (suc n) n ""
