-- ===== src/ApiGateway/Numbers.antt =====
-- strconv.ParseInt(s, 10, bits), as internal/apigateway calls it.
use Prim.Native.Char.{code}
use go_chat_msa.Common.{
  ℕ, ◌+◌, ◌-◌, ◌*◌, ◌^◌, String, Bool, true, false, not, ◌&&◌, ◌||◌, Option, none, some, leb, ◌==◌,
  if◌then◌else◌, mod_64,
}

-- A number with its sign.
pub record Signed : Type 0 where
  pub negative : Bool
  pub magnitude : ℕ

unfoldable digits : ℕ → String → Option ℕ
digits n String.[] = some n
digits n (String.◌∷◌ c s) =
    let rest = digits (n * 10 + (code c - b'0')) s in
    if leb b'0' (code c) && leb (code c) b'9' then rest else none

abbrev magnitude : String → Option ℕ
magnitude String.[] = none
magnitude (String.◌∷◌ c s) = digits 0 (String.◌∷◌ c s)

abbrev in_range : ℕ → Bool → Option ℕ → Option Signed
in_range bits negative none = none
in_range bits negative (some n) =
    if leb (2 ^ (bits - 1) + (if negative then 1 else 0)) n
    then none
    else some (record { negative = negative; magnitude = n })

unfoldable pub parse_int : ℕ → String → Option Signed
unfolding digits
parse_int bits String.[] = none
parse_int bits (String.◌∷◌ c s) =
    if code c == b'+'
    then in_range bits false (magnitude s)
    else if code c == b'-'
    then in_range bits true (magnitude s)
    else in_range bits false (magnitude (String.◌∷◌ c s))

abbrev pub below_zero : Signed → Bool
below_zero x = x.negative && not (x.magnitude == 0)

-- `x <= 0`.
abbrev pub not_positive : Signed → Bool
not_positive x = x.negative || x.magnitude == 0

abbrev pub pattern_64 : Signed → ℕ
pattern_64 x = if below_zero x then mod_64 - x.magnitude else x.magnitude
