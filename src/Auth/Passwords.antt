-- ===== src/Auth/Passwords.antt =====
-- backend/app/auth/security.py: the password hashes.
pub mod Base64
pub mod Fields
pub mod Checked
use ot_soc_fusion_x.Base.{
  ℕ, Text, Bool, false, ◌&&◌, Option, none, some, List, [], ◌∷◌, ◌++◌, ◌==◌, if◌then◌else◌, any,
  length, codes, is_nat, is_surrogate, same_text, Result, ok, ◌>>◌, map,
}
use ot_soc_fusion_x.Auth.Store.{AuthError, Primitives}
use ot_soc_fusion_x.Auth.Security.{validate_password}
use ot_soc_fusion_x.Auth.Passwords.Base64.{encode, decode}

-- "otsoc-scrypt", version 1, n = 2 ** 15, r = 8, p = 1, 32 bytes: the fields before the salt.
abbrev pub fields : List Text
fields = map codes ("otsoc-scrypt" ∷ "1" ∷ "32768" ∷ "8" ∷ "1" ∷ "32" ∷ [])

-- "$".join(parts)
unfoldable pub join_fields : List Text → Text
join_fields [] = []
join_fields (part ∷ []) = part
join_fields (part ∷ next ∷ rest) = part ++ 36 ∷ join_fields (next ∷ rest)

-- A character before the first of the parts.
abbrev grown : ℕ → List Text → List Text
grown c [] = (c ∷ []) ∷ []
grown c (part ∷ rest) = (c ∷ part) ∷ rest

-- value.split("$")
unfoldable pub split_fields : Text → List Text
split_fields [] = [] ∷ []
split_fields (c ∷ rest) =
    let later = split_fields rest in if c == 36 then [] ∷ later else grown c later

module _ (primitives : Primitives) where
  derive : Text → List ℕ → List ℕ
  derive password salt = primitives.scrypt password salt 32768 8 1 32

  -- `salt` is what `secrets.token_bytes` gives.
  unfoldable pub hash_password : List ℕ → Text → Result AuthError Text
  unfolding derive encode join_fields
  hash_password salt password =
      validate_password password
      >> ok (join_fields (fields ++ encode salt ∷ encode (derive password salt) ∷ []))

  -- int(part) == value, where a part that is no integer raises
  abbrev is_int : Text → ℕ → Bool
  is_int part value = elim (primitives.int_text part) [ none ↦ false | some n ↦ is_nat n value ]

  -- The comparison of the derived key, once the parameters are the expected ones.
  unfoldable pub verify_derived : Text → Option (List ℕ) → Option (List ℕ) → Bool
  unfolding derive
  verify_derived password (some salt) (some expected) =
      length salt == 16
      && length expected == 32
      && (if any is_surrogate password then false else same_text (derive password salt) expected)
  verify_derived password _ _ = false

  -- Every error on the way gives False.
  unfoldable pub verify_parts : Text → List Text → Bool
  unfolding verify_derived decode
  verify_parts password (scheme ∷ version ∷ n ∷ r ∷ p ∷ dklen ∷ salt ∷ expected ∷ []) =
      same_text scheme (codes "otsoc-scrypt")
      && is_int version 1
      && is_int n 32768
      && is_int r 8
      && is_int p 1
      && is_int dklen 32
      && verify_derived password (decode salt) (decode expected)
  verify_parts password _ = false

  unfoldable pub verify_password : Text → Text → Bool
  unfolding verify_parts split_fields
  verify_password password encoded_hash = verify_parts password (split_fields encoded_hash)

  -- parts[:6] == […] and len(parts) == 8
  unfoldable pub supported_parts : List Text → Bool
  supported_parts (scheme ∷ version ∷ n ∷ r ∷ p ∷ dklen ∷ salt ∷ expected ∷ []) =
      same_text scheme (codes "otsoc-scrypt")
      && same_text version (codes "1")
      && same_text n (codes "32768")
      && same_text r (codes "8")
      && same_text p (codes "1")
      && same_text dklen (codes "32")
  supported_parts _ = false

  unfoldable pub supported_hash_shape : Text → Bool
  unfolding supported_parts split_fields
  supported_hash_shape encoded_hash = supported_parts (split_fields encoded_hash)

  -- The verification against the dummy hash has no effect but its time.
  unfoldable pub verify_password_or_dummy : Text → Option Text → Bool
  unfolding supported_hash_shape verify_password
  verify_password_or_dummy password none = false
  verify_password_or_dummy password (some encoded_hash) =
      if supported_hash_shape encoded_hash then verify_password password encoded_hash else false
