-- ===== src/Auth/Login.antt =====
-- backend/app/auth/service.py: login, the CSRF token of a session, and logout.
use ot_soc_fusion_x.Base.{
  String, Text, Bool, true, false, ◌&&◌, Option, none, some, [], ◌∷◌, ◌++◌, if◌then◌else◌, str_eq,
  Result, ok, err, ◌>>=◌,
}
use ot_soc_fusion_x.Platform.{Datetime, or_now}
use ot_soc_fusion_x.Auth.Model.{LocalUser, AuthSession}
use ot_soc_fusion_x.Auth.Store.{
  AuthStore, AuthError, Primitives, Draws, Settings, find_username, put_session,
}
use ot_soc_fusion_x.Auth.Audit.{append_soc_audit_event}
use ot_soc_fusion_x.Auth.Security.{
  normalize_username, new_opaque_token, keyed_token_digest, safe_token_shape,
}
use ot_soc_fusion_x.Auth.Passwords.{verify_password_or_dummy}
use ot_soc_fusion_x.Auth.Attempts.{
  LoginRequest, LoginAttempt, issued_row, failure_entry, success_entry, logout_entry,
}

-- The value, or None where the call raised.
abbrev pub or_none {ℓ} : {A : Type ℓ} → Result AuthError A → Option A
or_none (ok a) = some a
or_none (err error) = none

-- The user with the normalized name.
unfoldable pub named_user : Option Text → AuthStore → Option LocalUser
unfolding find_username
named_user none store = none
named_user (some username) store = find_username username store.local_users

-- The row of a session that ends; a session that has ended keeps its time.
abbrev pub revoked : Datetime → AuthSession → AuthSession
revoked now auth_session = elim auth_session.revoked_at [
  | none ↦ record auth_session { revoked_at = some now }
  | some earlier ↦ auth_session
]

module _ (primitives : Primitives) where
  -- password_valid and user.active
  unfoldable pub is_admitted : Text → LocalUser → Bool
  unfolding verify_password_or_dummy
  is_admitted password user =
      verify_password_or_dummy primitives password (some user.password_hash) && user.active

  unfoldable pub deny_login :
      Draws
      → Datetime
      → LoginRequest
      → Option Text
      → Option LocalUser
      → AuthStore
      → Result AuthError (LoginAttempt × AuthStore)
  unfolding append_soc_audit_event
  deny_login draws now request username user store = do
    audited ←
        append_soc_audit_event primitives draws.audit_event_id now
          (failure_entry now request username user) store
    ok (none, audited)

  unfoldable pub issue_session :
      Settings
      → Draws
      → Datetime
      → LoginRequest
      → LocalUser
      → AuthStore
      → Result AuthError (LoginAttempt × AuthStore)
  unfolding new_opaque_token keyed_token_digest append_soc_audit_event
  issue_session settings draws now request user store = do
    raw_session_token ← new_opaque_token draws.session_token
    raw_csrf_token ← new_opaque_token draws.csrf_token
    token_digest ← keyed_token_digest primitives settings.auth_session_secret raw_session_token
    csrf_digest ← keyed_token_digest primitives settings.auth_session_secret raw_csrf_token
    let auth_session = issued_row settings draws now user token_digest csrf_digest
    audited ←
        append_soc_audit_event primitives draws.audit_event_id now (success_entry now request user)
          (record store { auth_sessions = store.auth_sessions ++ auth_session ∷ [] })
    ok (
      some (record {
        user = user;
        auth_session = auth_session;
        raw_session_token = raw_session_token;
        raw_csrf_token = raw_csrf_token;
      }),
      audited,
    )

  -- `clock` is the time that `datetime.now(UTC)` gives.
  unfoldable pub authenticate_and_create_session :
      Settings
      → Draws
      → Datetime
      → LoginRequest
      → AuthStore
      → Result AuthError (LoginAttempt × AuthStore)
  unfolding normalize_username
  authenticate_and_create_session settings draws clock request store =
      let now = or_now clock request.now in
      let username = or_none (normalize_username primitives request.username) in
      let user = named_user username store in
      elim user [
        | none ↦ deny_login draws now request username none store
        | some u ↦
            if is_admitted request.password u
            then issue_session settings draws now request u store
            else deny_login draws now request username (some u) store
      ]

  -- A new token for the session, whose digest is written to its row.
  unfoldable pub replace_csrf_token :
      Settings
      → Draws
      → AuthSession
      → AuthStore
      → Result AuthError ((Text × Bool) × AuthSession × AuthStore)
  unfolding new_opaque_token keyed_token_digest put_session
  replace_csrf_token settings draws auth_session store = do
    replacement ← new_opaque_token draws.csrf_token
    csrf_digest ← keyed_token_digest primitives settings.auth_session_secret replacement
    let auth_session' : AuthSession = record auth_session { csrf_digest = csrf_digest }
    ok (
      (replacement, true),
      auth_session',
      record store { auth_sessions = put_session auth_session' store.auth_sessions },
    )

  -- The token of the cookie and whether it was replaced, the row of the session, and the tables.
  unfoldable pub csrf_token_for_session :
      Settings
      → Draws
      → AuthSession
      → Option Text
      → AuthStore
      → Result AuthError ((Text × Bool) × AuthSession × AuthStore)
  unfolding safe_token_shape keyed_token_digest
  csrf_token_for_session settings draws auth_session none store =
      replace_csrf_token settings draws auth_session store
  csrf_token_for_session settings draws auth_session (some presented) store =
      if safe_token_shape (some presented)
      then (keyed_token_digest primitives settings.auth_session_secret presented >>= (λ digest.
          if str_eq digest auth_session.csrf_digest
          then ok ((presented, false), auth_session, store)
          else replace_csrf_token settings draws auth_session store))
      else replace_csrf_token settings draws auth_session store

  unfoldable pub revoke_session :
      Draws
      → Datetime
      → AuthSession
      → LocalUser
      → String
      → Option Datetime
      → AuthStore
      → Result AuthError AuthStore
  unfolding append_soc_audit_event put_session
  revoke_session draws clock auth_session actor_user request_id at store =
      let now = or_now clock at in
      append_soc_audit_event primitives draws.audit_event_id clock
        (logout_entry now actor_user request_id)
        (record store {
          auth_sessions = put_session (revoked now auth_session) store.auth_sessions;
        })
