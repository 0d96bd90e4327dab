-- ===== src/Auth/Guards.antt =====
-- backend/app/auth/dependencies.py: what a route requires of a request before it runs.
pub mod Accepted
pub mod Mutations
use ot_soc_fusion_x.Base.{
  ℕ, ◌+◌, String, Text, Bool, false, ◌&&◌, ◌||◌, not, Option, none, some, List, [], ◌∷◌, codes,
  if◌then◌else◌, str_eq, same_text, leb, ◌==◌, is_some, any, Result, ok, guard, or_raise, ◌>>=◌,
  ◌>>◌,
}
use ot_soc_fusion_x.Platform.{Datetime}
use ot_soc_fusion_x.Auth.Model.{
  LocalUser, AuthSession, Permission, permission_value, role_permissions,
}
use ot_soc_fusion_x.Auth.Store.{
  AuthStore, AuthError, http_exception, Primitives, Settings, find_session, find_user, put_session,
}
use ot_soc_fusion_x.Auth.Audit.{upper}
use ot_soc_fusion_x.Auth.Security.{keyed_token_digest, safe_token_shape}

-- What the guards read of a request.
pub record Request : Type 0 where
  pub method : Text
  -- request.cookies.get(name)
  pub cookie : String → Option Text
  -- request.headers.get(name)
  pub header : String → Option Text

-- Its role and its permissions are those of the user.
pub record AuthPrincipal : Type 0 where
  pub user : LocalUser
  pub session : AuthSession
  pub permissions : List Permission

unfoldable pub has_permission : AuthPrincipal → Permission → Bool
has_permission principal permission =
    any (λ p. str_eq (permission_value p) (permission_value permission)) principal.permissions

abbrev pub authentication_required : AuthError
authentication_required = http_exception 401 "Authentication is required."

abbrev pub csrf_rejected : AuthError
csrf_rejected = http_exception 403 "The CSRF validation failed."

-- timedelta(minutes=5)
abbrev last_seen_write_interval : ℕ
last_seen_write_interval = 300000000

-- auth_session.revoked_at is not None or auth_session.expires_at <= now or not user.active
unfoldable pub is_ended : Datetime → AuthSession → LocalUser → Bool
is_ended now auth_session user =
    is_some auth_session.revoked_at || leb auth_session.expires_at now || not user.active

-- The time at which the session was last seen is written at most every five minutes.
unfoldable pub seen : Datetime → AuthSession → AuthSession
seen now auth_session =
    if leb (auth_session.last_seen_at + last_seen_write_interval) now
    then record auth_session { last_seen_at = now }
    else auth_session

abbrev slash_free_from : ℕ → Text → Text
slash_free_from c [] = if c == 47 then [] else c ∷ []
slash_free_from c (d ∷ rest) = c ∷ d ∷ rest

-- value.rstrip("/")
unfoldable pub strip_slashes : Text → Text
strip_slashes [] = []
strip_slashes (c ∷ rest) = slash_free_from c (strip_slashes rest)

abbrev unsafe_methods : List String
unsafe_methods = "POST" ∷ "PUT" ∷ "PATCH" ∷ "DELETE" ∷ []

-- origin is not None and origin.rstrip("/") in allowed_origins
unfoldable pub is_allowed_origin : Settings → Option Text → Bool
unfolding strip_slashes
is_allowed_origin settings none = false
is_allowed_origin settings (some origin) =
    any (λ allowed. same_text (strip_slashes allowed) (strip_slashes origin))
      settings.cors_origin_strings

-- The token that the header and the cookie both carry.
unfoldable pub double_submitted : Option Text → Option Text → Option Text
unfolding safe_token_shape
double_submitted (some header) (some cookie) =
    if safe_token_shape (some header) && safe_token_shape (some cookie) && same_text header cookie
    then some header
    else none
double_submitted _ _ = none

module _ (primitives : Primitives) (settings : Settings) where
  -- `now` is the time that `datetime.now(UTC)` gives. The session with its user, and the tables.
  unfoldable pub require_authenticated :
      Datetime → Request → AuthStore → Result AuthError (AuthPrincipal × AuthStore)
  unfolding safe_token_shape keyed_token_digest find_session find_user put_session is_ended seen
  require_authenticated now request store = do
    let raw_token = request.cookie settings.auth_session_cookie_name
    guard (safe_token_shape raw_token) authentication_required
    token ← or_raise authentication_required raw_token
    digest ← keyed_token_digest primitives settings.auth_session_secret token
    auth_session ← or_raise authentication_required (find_session digest store.auth_sessions)
    user ← or_raise authentication_required (find_user auth_session.user_id store.local_users)
    guard (not (is_ended now auth_session user)) authentication_required
    let auth_session' = seen now auth_session
    ok (
      record { user = user; session = auth_session'; permissions = role_permissions user.role },
      record store { auth_sessions = put_session auth_session' store.auth_sessions },
    )

  -- request.method.upper() in _UNSAFE_METHODS
  unfoldable pub changes_state : Request → Bool
  unfolding upper
  changes_state request =
      any (λ m. same_text (codes m) (upper primitives request.method)) unsafe_methods

  -- The token of the request, from an approved origin.
  unfoldable pub submitted_token : Request → Result AuthError Text
  unfolding is_allowed_origin double_submitted
  submitted_token request = do
    guard (is_allowed_origin settings (request.header "Origin"))
        (http_exception 403 "The request origin is not approved for local session mutation.")
    or_raise csrf_rejected (
        double_submitted (request.header "X-CSRF-Token")
          (request.cookie settings.auth_csrf_cookie_name))

  unfoldable pub require_csrf_protection : Request → AuthPrincipal → Result AuthError AuthPrincipal
  unfolding changes_state submitted_token keyed_token_digest
  require_csrf_protection request principal =
      if not (changes_state request) then ok principal else (do
        token ← submitted_token request
        presented_digest ← keyed_token_digest primitives settings.auth_session_secret token
        guard (str_eq presented_digest principal.session.csrf_digest) csrf_rejected
        ok principal)

  unfoldable pub check_permission : Permission → AuthPrincipal → Result AuthError AuthPrincipal
  unfolding has_permission
  check_permission permission principal = do
    guard (has_permission principal permission)
        (http_exception 403 "The authenticated local user does not have the required permission.")
    ok principal

  unfoldable pub require_permission :
      Permission → Datetime → Request → AuthStore → Result AuthError (AuthPrincipal × AuthStore)
  require_permission permission now request store = do
    (principal, seen_store) ← require_authenticated now request store
    checked ← check_permission permission principal
    ok (checked, seen_store)

  unfoldable pub require_mutation_permission :
      Permission → Datetime → Request → AuthStore → Result AuthError (AuthPrincipal × AuthStore)
  require_mutation_permission permission now request store = do
    (principal, seen_store) ← require_authenticated now request store
    protected ← require_csrf_protection request principal
    checked ← check_permission permission protected
    ok (checked, seen_store)
