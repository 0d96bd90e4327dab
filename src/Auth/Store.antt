-- ===== src/Auth/Store.antt =====
-- The tables of backend/app/auth, its settings and its exceptions, and what it takes from Python's
-- libraries. A function that raises returns the error alone, since the session is rolled back.
use ot_soc_fusion_x.Base.{
  ℕ, ℤ, String, Text, Option, List, [], ◌∷◌, find, str_eq, same_text, if◌then◌else◌,
}
use ot_soc_fusion_x.Platform.{Uuid, Sha256}
use ot_soc_fusion_x.Auth.Model.{LocalUser, AuthSession, SocAuditEvent}

-- Functions of Python's libraries. The first two are `str` methods, and are called only on texts that
-- are not ASCII; nothing is assumed of them but where a theorem says so.
pub record Primitives : Type 0 where
  -- value.casefold()
  pub casefold : Text → Text
  -- value.upper()
  pub upper : Text → Text
  -- int(value), or the ValueError
  pub int_text : Text → Option ℤ
  -- hmac.new(secret.encode("utf-8"), token.encode("ascii"), hashlib.sha256).hexdigest()
  pub hmac_sha256 : Text → Text → Sha256
  -- hashlib.scrypt(password.encode("utf-8"), salt=salt, n=n, r=r, p=p, maxmem=…, dklen=dklen)
  pub scrypt : Text → List ℕ → ℕ → ℕ → ℕ → ℕ → List ℕ

-- What the random generators give to a request: `uuid.uuid4`, `secrets.token_urlsafe(32)` and
-- `secrets.token_bytes(16)`, named for what they are drawn for.
pub record Draws : Type 0 where
  pub session_token : Text
  pub csrf_token : Text
  pub session_id : Uuid
  pub user_id : Uuid
  pub audit_event_id : Uuid
  pub salt : List ℕ

-- The settings that the package reads.
pub record Settings : Type 0 where
  pub auth_session_secret : Text
  pub auth_session_ttl_minutes : ℕ
  pub auth_session_cookie_name : String
  pub auth_csrf_cookie_name : String
  pub cors_origin_strings : List Text

pub record AuthStore : Type 0 where
  pub local_users : List LocalUser
  pub auth_sessions : List AuthSession
  pub soc_audit_events : List SocAuditEvent

-- The exceptions of backend/app/auth, with their messages, and that of a violated constraint.
pub data AuthError : Type 0 where
  auth_not_found_error : String → AuthError
  auth_conflict_error : String → AuthError
  auth_version_conflict_error : String → AuthError
  final_administrator_error : String → AuthError
  auth_no_change_error : String → AuthError
  auth_service_error : String → AuthError
  identity_validation_error : String → AuthError
  password_policy_error : String → AuthError
  audit_payload_error : String → AuthError
  value_error : String → AuthError
  runtime_error : String → AuthError
  integrity_error : String → AuthError
  http_exception : ℕ → String → AuthError

-- session.get(LocalUser, user_id)
unfoldable pub find_user : Uuid → List LocalUser → Option LocalUser
find_user user_id = find (λ u. str_eq u.user_id user_id)

-- select(LocalUser).where(LocalUser.username == username)
unfoldable pub find_username : Text → List LocalUser → Option LocalUser
find_username username = find (λ u. same_text u.username username)

-- The row with the primary key of the given one is replaced.
unfoldable pub put_user : LocalUser → List LocalUser → List LocalUser
put_user user [] = []
put_user user (u ∷ rest) =
    if str_eq u.user_id user.user_id then user ∷ rest else u ∷ put_user user rest

-- select(AuthSession).where(AuthSession.token_digest == digest)
unfoldable pub find_session : Sha256 → List AuthSession → Option AuthSession
find_session digest = find (λ s. str_eq s.token_digest digest)

unfoldable pub put_session : AuthSession → List AuthSession → List AuthSession
put_session session [] = []
put_session session (s ∷ rest) =
    if str_eq s.session_id session.session_id then session ∷ rest else s ∷ put_session session rest
