-- ===== src/Auth/Security.antt =====
-- backend/app/auth/security.py: the normal form of user names, the password policy, and the opaque tokens
-- with their keyed digests. The password hashes are in Passwords.antt.
use ot_soc_fusion_x.Base.{
  ℕ, String, Text, Bool, false, ◌&&◌, ◌||◌, not, Option, none, some, [], ◌∷◌, leb, ltb, ◌==◌,
  if◌then◌else◌, any, length, codes, join, split, strip, is_control, is_surrogate, utf8_size,
  Result, ok, err,
}
use ot_soc_fusion_x.Platform.{Sha256}
use ot_soc_fusion_x.Auth.Store.{
  AuthError, identity_validation_error, password_policy_error, value_error, runtime_error,
  Primitives,
}
use ot_soc_fusion_x.Auth.Audit.{casefold, is_ascii}

abbrev is_between : ℕ → ℕ → ℕ → Bool
is_between low high n = leb low n && leb n high

abbrev is_lower_or_digit : ℕ → Bool
is_lower_or_digit c = is_between 97 122 c || is_between 48 57 c

-- [a-z0-9._-]
abbrev is_name_character : ℕ → Bool
is_name_character c = is_lower_or_digit c || c == 46 || c == 95 || c == 45

-- USERNAME_PATTERN.fullmatch(value)
unfoldable pub is_username : Text → Bool
is_username [] = false
is_username (c ∷ rest) =
    is_lower_or_digit c
    && is_between 2 63 (length rest)
    && not (any (λ d. not (is_name_character d)) rest)

-- [A-Za-z0-9_-]
abbrev is_token_character : ℕ → Bool
is_token_character c = is_lower_or_digit c || is_between 65 90 c || c == 95 || c == 45

-- OPAQUE_TOKEN_PATTERN.fullmatch(value)
unfoldable pub is_token : Text → Bool
is_token value = length value == 43 && not (any (λ c. not (is_token_character c)) value)

unfoldable pub safe_token_shape : Option Text → Bool
unfolding is_token
safe_token_shape none = false
safe_token_shape (some token) = is_token token

-- The token that `secrets.token_urlsafe` gives, once it has the expected shape.
unfoldable pub new_opaque_token : Text → Result AuthError Text
unfolding is_token
new_opaque_token token =
    if is_token token
    then ok token
    else err (runtime_error "The generated authentication token has an unexpected shape.")

unfoldable pub normalize_display_name : String → Result AuthError String
unfolding is_control split strip
normalize_display_name value =
    let normalized = join " " (split (strip value)) in
    if any is_control (codes value)
    then err (identity_validation_error "Display name contains unsupported control characters.")
    else if not (is_between 1 120 (length (codes normalized)))
    then err (identity_validation_error "Display name must contain 1-120 characters.")
    else ok normalized

unfoldable pub validate_password : Text → Result AuthError (Unit {0})
unfolding is_control utf8_size
validate_password password =
    if not (is_between 12 128 (length password))
    then err (password_policy_error "Password must contain 12-128 characters.")
    else if any is_surrogate password
    then err (password_policy_error "Password contains unsupported Unicode data.")
    else if ltb 512 (utf8_size password)
    then err (password_policy_error "Password exceeds the encoded byte limit.")
    else if any is_control password
    then err (password_policy_error "Password contains unsupported control characters.")
    else ok tt

module _ (primitives : Primitives) where
  unfoldable pub normalize_username : String → Result AuthError Text
  unfolding is_username strip casefold
  normalize_username value =
      let normalized = casefold primitives (codes (strip value)) in
      if is_username normalized
      then ok normalized
      else err (
          identity_validation_error
            "Username must contain 3-64 lowercase letters, digits, dots, underscores, or hyphens.")

  -- A text that cannot be encoded raises a UnicodeEncodeError, which is a ValueError.
  unfoldable pub keyed_token_digest : Text → Text → Result AuthError Sha256
  unfolding utf8_size
  keyed_token_digest secret token =
      if any is_surrogate secret
      then err (value_error "The secret cannot be encoded.")
      else if ltb (utf8_size secret) 32
      then err (value_error "The authentication session secret is too short.")
      else if not (is_ascii token)
      then err (value_error "The token cannot be encoded.")
      else ok (primitives.hmac_sha256 secret token)
