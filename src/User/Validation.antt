-- ===== src/User/Validation.antt =====
-- internal/user/validation.go. A text is its code points; `int` bounds are numbers, `int32` values
-- are bit patterns.
use Prim.Native.Char.{code}
use Prim.Native.String.{count, len}
use go_chat_msa.Common.{
  ℕ, ◌+◌, String, Bool, true, false, not, ◌&&◌, ◌||◌, leb, ◌==◌, sle_32, slt_32, List, [], ◌∷◌,
}

abbrev pub codes : String → List ℕ
codes String.[] = []
codes (String.◌∷◌ c s) = code c ∷ codes s

abbrev pub all : (ℕ → Bool) → List ℕ → Bool
all p [] = true
all p (c ∷ cs) = p c && all p cs

abbrev pub any : (ℕ → Bool) → List ℕ → Bool
any p [] = false
any p (c ∷ cs) = p c || any p cs

abbrev pub between : ℕ → ℕ → ℕ → Bool
between lo hi c = leb lo c && leb c hi

abbrev pub is_upper : ℕ → Bool
is_upper = between b'A' b'Z'

abbrev pub is_lower : ℕ → Bool
is_lower = between b'a' b'z'

abbrev pub is_digit : ℕ → Bool
is_digit = between b'0' b'9'

-- The 32 printable ASCII characters that are neither letters, digits nor the space.
abbrev pub is_special : ℕ → Bool
is_special c = between 33 47 c || between 58 64 c || between 91 96 c || between 123 126 c

-- A precomposed syllable of Hangul.
abbrev pub is_hangul : ℕ → Bool
is_hangul = between 0xAC00 0xD7A3

-- `^[class]+$`.
abbrev pub matches_all : (ℕ → Bool) → List ℕ → Bool
matches_all p [] = false
matches_all p (c ∷ cs) = all p (c ∷ cs)

pub record Limits : Type 0 where
  pub min_username_length : ℕ
  pub max_username_length : ℕ
  pub min_password_length : ℕ
  pub max_password_length : ℕ

-- Whether the function returns no error.
unfoldable pub validate_username : Limits → String → Bool
validate_username l username =
    leb l.min_username_length (count username)
    && leb (count username) l.max_username_length
    && matches_all (λ c. is_lower c || is_upper c || is_digit c || is_hangul c) (codes username)

unfoldable pub validate_room_name : ℕ → String → Bool
validate_room_name max_length name = not (count name == 0) && leb (count name) max_length

unfoldable pub validate_capacity : ℕ → ℕ → Bool
validate_capacity max_capacity capacity = slt_32 0 capacity && sle_32 capacity max_capacity

abbrev pub one_if : Bool → ℕ
one_if true = 1
one_if false = 0

unfoldable pub matched_types : List ℕ → ℕ
matched_types cs =
    one_if (any is_upper cs)
    + one_if (any is_lower cs)
    + one_if (any is_digit cs)
    + one_if (any is_special cs)

unfoldable pub validate_password : Limits → String → Bool
validate_password l password =
    leb l.min_password_length (len password)
    && leb (len password) l.max_password_length
    && matches_all (λ c. is_lower c || is_upper c || is_digit c || is_special c) (codes password)
    && leb 3 (matched_types (codes password))
