-- ===== src/Auth/Passwords/Checked.antt =====
-- A password is accepted against its own hash.
use ot_soc_fusion_x.Base.{
  ℕ, ◌≡◌, refl, Bool, true, false, List, [], ◌∷◌, ◌++◌, length, any, some, pos, codes, str_int,
  Text, ok, arith, All, same_text_self, is_surrogate, map, suc, >>-eq-ok, ok-injective, ◌&&◌,
}
use ot_soc_fusion_x.Auth.Store.{Primitives}
use ot_soc_fusion_x.Auth.Security.{validate_password}
use ot_soc_fusion_x.Auth.Passwords.{
  hash_password, verify_password_or_dummy, verify_password, verify_parts, verify_derived,
  supported_hash_shape, supported_parts, split_fields, join_fields, fields, derive, is_int,
}
use ot_soc_fusion_x.Auth.Passwords.Base64.{encode, decode}
use ot_soc_fusion_x.Auth.Passwords.Base64.Decoded.{AreBytes, encode-separator, decode-encode}
use ot_soc_fusion_x.Auth.Passwords.Fields.{IsField, split_fields-join}

-- What the library functions promise: `int` reads back the numbers of the hash as `str` writes them, and
-- the derived key has the length that is asked for, in bytes.
pub record IsLibrary (primitives : Primitives) : Type 0 where
  pub reads :
      All (λ n. primitives.int_text (codes (str_int n)) ≡ some (pos n)) (1 ∷ 32768 ∷ 8 ∷ 32 ∷ [])
  pub derives :
      (password : Text) (salt : List ℕ) (n r p dklen : ℕ)
      → (length (primitives.scrypt password salt n r p dklen) ≡ dklen)
        × AreBytes (primitives.scrypt password salt n r p dklen)

decoded :
    (n : ℕ) (bytes : List ℕ)
    → length bytes ≡ suc n
    → AreBytes bytes
    → decode (encode bytes) ≡ some bytes
decoded n [] l h = absurd (omega (arith, l))
decoded n (b ∷ bytes) l h = decode-encode b bytes h

-- A password that the policy admits can be encoded.
validated :
    (password : Text) → validate_password password ≡ ok tt → any is_surrogate password ≡ false
unfolding validate_password
validated password h = ground arith

all_true :
    {a b c d e : Bool}
    → a ≡ true
    → b ≡ true
    → c ≡ true
    → d ≡ true
    → e ≡ true
    → (a && b && c && a && d && e) ≡ true
all_true h i j k l = rw (h, i, j, k, l) refl

module _ (primitives : Primitives) (library : IsLibrary primitives) where
  abbrev parts : List ℕ → Text → List Text
  parts salt password = fields ++ encode salt ∷ encode (derive primitives password salt) ∷ []

  abbrev rest_of : List ℕ → Text → List Text
  rest_of salt password =
      map codes ("1" ∷ "32768" ∷ "8" ∷ "1" ∷ "32" ∷ [])
      ++ encode salt ∷ encode (derive primitives password salt) ∷ []

  parts-fields :
      (salt : List ℕ) (password : Text) → AreBytes salt → All IsField (parts salt password)
  unfolding derive
  parts-fields salt password h =
      let (_, bytes) = library.derives password salt 32768 8 1 32 in
      (
        refl,
        (
          refl,
          (
            refl,
            (
              refl,
              (
                refl,
                (
                  refl,
                  (
                    encode-separator salt h,
                    (encode-separator (primitives.scrypt password salt 32768 8 1 32) bytes, tt),
                  ),
                ),
              ),
            ),
          ),
        ),
      )

  hash_password-inversion :
      (salt : List ℕ) (password : Text) {hash : Text}
      → hash_password primitives salt password ≡ ok hash
      → (validate_password password ≡ ok tt) × (join_fields (parts salt password) ≡ hash)
  unfolding hash_password
  hash_password-inversion salt password h =
      let (valid, out) = >>-eq-ok (validate_password password) _ h in (valid, ok-injective out)

  verified :
      (salt : List ℕ) (password : Text)
      → length salt ≡ 16
      → AreBytes salt
      → any is_surrogate password ≡ false
      → verify_derived primitives password
          (decode (encode salt))
          (decode (encode (derive primitives password salt)))
        ≡ true
  unfolding verify_derived derive
  verified salt password l h e =
      let (l', h') = library.derives password salt 32768 8 1 32 in
      rw
        (
          decoded 15 salt l h,
          decoded 31 (primitives.scrypt password salt 32768 8 1 32) l' h',
          l,
          l',
          e,
          same_text_self (primitives.scrypt password salt 32768 8 1 32),
        )
        refl

  reads_fields :
      (primitives.int_text (codes "1") ≡ some (pos 1))
      × (primitives.int_text (codes "32768") ≡ some (pos 32768))
      × (primitives.int_text (codes "8") ≡ some (pos 8))
      × (primitives.int_text (codes "32") ≡ some (pos 32))
  unfolding str_int
  reads_fields = (library.reads.0, library.reads.1.0, library.reads.1.1.0, library.reads.1.1.1.0)

  supported :
      (salt : List ℕ) (password : Text) → supported_parts primitives (parts salt password) ≡ true
  unfolding supported_parts
  supported salt password = refl

  is_int-read :
      (part : Text) (n : ℕ)
      → primitives.int_text part ≡ some (pos n)
      → is_int primitives part n ≡ true
  is_int-read part n h = rw (is_int, h) (ground arith)

  verified_parts :
      (salt : List ℕ) (password : Text)
      → length salt ≡ 16
      → AreBytes salt
      → any is_surrogate password ≡ false
      → verify_parts primitives password (parts salt password) ≡ true
  unfolding verify_parts
  verified_parts salt password l h e =
      let (one, n, r, dklen) = reads_fields in
      all_true (is_int-read (codes "1") 1 one) (is_int-read (codes "32768") 32768 n)
        (is_int-read (codes "8") 8 r) (is_int-read (codes "32") 32 dklen)
        (verified salt password l h e)

  -- The hash of a password that the policy admits is accepted for this password, whatever the salt, if
  -- `int` reads back what `str` writes and scrypt derives as many bytes as it is asked for.
  pub verify-hash :
      (salt : List ℕ) (password hash : Text)
      → length salt ≡ 16
      → AreBytes salt
      → hash_password primitives salt password ≡ ok hash
      → verify_password_or_dummy primitives password (some hash) ≡ true
  unfolding verify_password_or_dummy supported_hash_shape verify_password verify_parts
  verify-hash salt password hash l h e =
      let (valid, joined) = hash_password-inversion salt password e in
      let split : split_fields hash ≡ parts salt password = rw (← joined) (
        split_fields-join (codes "otsoc-scrypt") (rest_of salt password)
          (parts-fields salt password h)) in
      rw
        (
          split,
          supported salt password,
          verified_parts salt password l h (validated password valid),
        )
        refl
