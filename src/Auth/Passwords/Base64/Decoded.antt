-- ===== src/Auth/Passwords/Base64/Decoded.antt =====
-- Decoding what was encoded.
use ot_soc_fusion_x.Base.{
  ℕ, ◌<◌, ◌+◌, ◌*◌, ◌/◌, ◌%◌, ◌≡◌, refl, Bool, true, false, not, some, List, [], ◌∷◌, All, any,
  ◌==◌, arith, ap,
}
use ot_soc_fusion_x.Auth.Passwords.Base64.{
  character, sextet, is_base64, encode, decode, decode_groups, is_empty, first_byte, second_byte,
  third_byte,
}

-- The numbers are bytes.
abbrev pub AreBytes : List ℕ → Type 0
AreBytes bytes = All (λ b. b < 256) bytes

sextet-character : (i : ℕ) → i < 64 → sextet (character i) ≡ i
unfolding sextet character
sextet-character i h = ground arith

character-is_base64 : (i : ℕ) → i < 64 → is_base64 (character i) ≡ true
unfolding is_base64 character
character-is_base64 i h = ground arith

-- The sextets of three bytes, and the bytes of these sextets.
module _ (a b c : ℕ) (ha : a < 256) (hb : b < 256) (hc : c < 256) where
  first : sextet (character (a / 4)) ≡ a / 4
  first = sextet-character (a / 4) (omega (arith, ha))

  second : sextet (character (a % 4 * 16 + b / 16)) ≡ a % 4 * 16 + b / 16
  second = sextet-character (a % 4 * 16 + b / 16) (omega (arith, hb))

  third : sextet (character (b % 16 * 4 + c / 64)) ≡ b % 16 * 4 + c / 64
  third = sextet-character (b % 16 * 4 + c / 64) (omega (arith, hc))

  fourth : sextet (character (c % 64)) ≡ c % 64
  fourth = sextet-character (c % 64) (omega arith)

  byte_one : first_byte (a / 4) (a % 4 * 16 + b / 16) ≡ a
  byte_one = omega (arith, hb)

  byte_two : second_byte (a % 4 * 16 + b / 16) (b % 16 * 4 + c / 64) ≡ b
  byte_two = omega (arith, hb, hc)

  byte_three : third_byte (b % 16 * 4 + c / 64) (c % 64) ≡ c
  byte_three = omega (arith, hc)

byte_only : (a : ℕ) → first_byte (a / 4) (a % 4 * 16) ≡ a
byte_only a = omega arith

byte_last : (a b : ℕ) → b < 256 → second_byte (a % 4 * 16 + b / 16) (b % 16 * 4) ≡ b
byte_last a b h = omega (arith, h)

decode_groups-encode : (bytes : List ℕ) → AreBytes bytes → decode_groups (encode bytes) ≡ some bytes
unfolding decode_groups encode
decode_groups-encode [] h = refl
decode_groups-encode (a ∷ []) h =
    let ha = h.0 in
    rw (sextet-character (a / 4) (omega (arith, ha)), sextet-character (a % 4 * 16) (omega arith))
      (ap (λ x. some (x ∷ [])) (byte_only a))
decode_groups-encode (a ∷ b ∷ []) h =
    let ha = h.0 in
    let hb = h.1.0 in
    let zero : 0 < 256 = omega arith in
    rw
      (
        first a b 0 ha hb zero,
        second a b 0 ha hb zero,
        sextet-character (b % 16 * 4) (omega arith),
        byte_one a b 0 ha hb zero,
        byte_last a b hb,
      )
      refl
decode_groups-encode (a ∷ b ∷ c ∷ rest) h =
    let ha = h.0 in
    let hb = h.1.0 in
    let hc = h.1.1.0 in
    rw
      (
        decode_groups-encode rest h.1.1.1,
        first a b c ha hb hc,
        second a b c ha hb hc,
        third a b c ha hb hc,
        fourth a b c ha hb hc,
        byte_one a b c ha hb hc,
        byte_two a b c ha hb hc,
        byte_three a b c ha hb hc,
      )
      refl

character-separator : (i : ℕ) → i < 64 → (character i == 36) ≡ false
unfolding character
character-separator i h = ground arith

character-valid : (i : ℕ) → i < 64 → not (is_base64 (character i)) ≡ false
character-valid i h = rw (character-is_base64 i h) refl

nonempty : (b : ℕ) (bytes : List ℕ) → is_empty (encode (b ∷ bytes)) ≡ false
unfolding encode
nonempty b [] = refl
nonempty b (c ∷ []) = refl
nonempty b (c ∷ d ∷ rest) = refl

-- Every character passes a test that the characters of the sextets pass.
encode-characters :
    (test : ℕ → Bool) (bytes : List ℕ)
    → ((i : ℕ) → i < 64 → test (character i) ≡ false)
    → AreBytes bytes
    → any test (encode bytes) ≡ false
unfolding encode
encode-characters test [] t h = refl
encode-characters test (a ∷ []) t h =
    rw (t (a / 4) (omega (arith, h.0)), t (a % 4 * 16) (omega arith)) refl
encode-characters test (a ∷ b ∷ []) t h =
    let hb = h.1.0 in
    rw
      (
        t (a / 4) (omega (arith, h.0)),
        t (a % 4 * 16 + b / 16) (omega (arith, hb)),
        t (b % 16 * 4) (omega arith),
      )
      refl
encode-characters test (a ∷ b ∷ c ∷ rest) t h =
    let hb = h.1.0 in
    let hc = h.1.1.0 in
    rw
      (
        t (a / 4) (omega (arith, h.0)),
        t (a % 4 * 16 + b / 16) (omega (arith, hb)),
        t (b % 16 * 4 + c / 64) (omega (arith, hc)),
        t (c % 64) (omega arith),
        encode-characters test rest t h.1.1.1,
      )
      refl

-- The separator of the fields does not occur.
pub encode-separator : (bytes : List ℕ) → AreBytes bytes → any (λ c. c == 36) (encode bytes) ≡ false
encode-separator bytes h = encode-characters (λ c. c == 36) bytes character-separator h

pub decode-encode :
    (b : ℕ) (bytes : List ℕ) → AreBytes (b ∷ bytes) → decode (encode (b ∷ bytes)) ≡ some (b ∷ bytes)
unfolding decode
decode-encode b bytes h =
    rw
      (
        encode-characters (λ c. not (is_base64 c)) (b ∷ bytes) character-valid h,
        decode_groups-encode (b ∷ bytes) h,
        nonempty b bytes,
      )
      refl
