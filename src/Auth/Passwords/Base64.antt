-- ===== src/Auth/Passwords/Base64.antt =====
-- The URL-safe base64 without padding of backend/app/auth/security.py, on bytes as numbers.
pub mod Decoded
use ot_soc_fusion_x.Base.{
  true, false, ℕ, ◌+◌, ◌-◌, ◌*◌, ◌/◌, ◌%◌, Text, Bool, ◌&&◌, ◌||◌, not, Option, none, some, List,
  [], ◌∷◌, leb, ltb, ◌==◌, if◌then◌else◌, any,
}

-- The character of a group of six bits.
unfoldable pub character : ℕ → ℕ
character i =
    if ltb i 26
    then i + 65
    else if ltb i 52
    then i + 71
    else if ltb i 62
    then i - 4
    else if i == 62
    then 45
    else 95

-- [A-Za-z0-9_-]
unfoldable pub is_base64 : ℕ → Bool
is_base64 c =
    (leb 65 c && leb c 90)
    || (leb 97 c && leb c 122)
    || (leb 48 c && leb c 57)
    || c == 95
    || c == 45

-- The six bits of a character.
unfoldable pub sextet : ℕ → ℕ
sextet c =
    if leb 97 c && leb c 122
    then c - 71
    else if leb 65 c && leb c 90
    then c - 65
    else if leb 48 c && leb c 57
    then c + 4
    else if c == 45
    then 62
    else 63

-- base64.urlsafe_b64encode(value).decode("ascii").rstrip("=")
unfoldable pub encode : List ℕ → Text
unfolding character
encode [] = []
encode (a ∷ []) = character (a / 4) ∷ character (a % 4 * 16) ∷ []
encode (a ∷ b ∷ []) =
    character (a / 4) ∷ character (a % 4 * 16 + b / 16) ∷ character (b % 16 * 4) ∷ []
encode (a ∷ b ∷ c ∷ rest) =
    character (a / 4)
    ∷ character (a % 4 * 16 + b / 16)
    ∷ character (b % 16 * 4 + c / 64)
    ∷ character (c % 64)
    ∷ encode rest

-- The bytes of a group of characters.
abbrev first_byte : ℕ → ℕ → ℕ
first_byte x y = x * 4 + y / 16

abbrev second_byte : ℕ → ℕ → ℕ
second_byte y z = y % 16 * 16 + z / 4

abbrev third_byte : ℕ → ℕ → ℕ
third_byte z w = z % 4 * 64 + w

-- base64.b64decode with the padding restored; a single character in the last group is an error.
unfoldable pub decode_groups : Text → Option (List ℕ)
unfolding sextet
decode_groups [] = some []
decode_groups (x ∷ []) = none
decode_groups (x ∷ y ∷ []) = some (first_byte (sextet x) (sextet y) ∷ [])
decode_groups (x ∷ y ∷ z ∷ []) =
    some (first_byte (sextet x) (sextet y) ∷ second_byte (sextet y) (sextet z) ∷ [])
decode_groups (x ∷ y ∷ z ∷ w ∷ rest) = elim (decode_groups rest) [
  | none ↦ none
  | some bytes ↦ some (
      first_byte (sextet x) (sextet y)
      ∷ second_byte (sextet y) (sextet z)
      ∷ third_byte (sextet z) (sextet w)
      ∷ bytes)
]

abbrev is_empty : Text → Bool
is_empty [] = true
is_empty (c ∷ rest) = false

-- The bytes, or the error.
unfoldable pub decode : Text → Option (List ℕ)
unfolding decode_groups is_base64
decode value =
    if is_empty value || any (λ c. not (is_base64 c)) value then none else decode_groups value
