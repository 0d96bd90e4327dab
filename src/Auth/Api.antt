-- ===== src/Auth/Api.antt =====
-- backend/app/api/auth.py: the routes for sessions and local users, each in one database session that
-- is committed if the route returns and rolled back if it raises.
pub mod Steps
pub mod Seen
pub mod Rows
pub mod Logout
pub mod Administrators
pub mod Lockout
pub mod Authorization
pub mod Opened
use ot_soc_fusion_x.Base.{
  String, codes, none, some, List, [], ◌∷◌, Result, ok, err, guard, ◌>>=◌, ◌>>◌,
}
use ot_soc_fusion_x.Platform.{Datetime}
use ot_soc_fusion_x.Auth.Model.{manage_users, assign_incident}
use ot_soc_fusion_x.Auth.Store.{
  AuthStore, AuthError, Primitives, Draws, Settings, http_exception, auth_not_found_error,
  auth_conflict_error, auth_version_conflict_error, final_administrator_error, auth_no_change_error,
  identity_validation_error, password_policy_error, integrity_error,
}
use ot_soc_fusion_x.Auth.Guards.{
  Request, require_authenticated, require_csrf_protection, require_mutation_permission,
  require_permission, AuthPrincipal,
}
use ot_soc_fusion_x.Auth.Login.{
  authenticate_and_create_session, csrf_token_for_session, revoke_session,
}
use ot_soc_fusion_x.Auth.Users.{
  UserUpdate, PasswordReset, update_local_user, reset_local_user_password,
}
use ot_soc_fusion_x.Auth.Sessions.{is_fresh}
use ot_soc_fusion_x.Auth.Registration.{UserCreation, create_local_user}
use ot_soc_fusion_x.Auth.Attempts.{LoginRequest, LoginAttempt}

-- A request to one of the routes, with the identifier of the request where it is logged.
pub data AccountRequest : Type 0 where
  login : LoginRequest → AccountRequest
  read_session : Request → AccountRequest
  logout : Request → String → AccountRequest
  create_user : Request → UserCreation → AccountRequest
  patch_user : Request → UserUpdate → AccountRequest
  reset_user_password : Request → PasswordReset → AccountRequest
  read_users : Request → AccountRequest
  read_incident_assignees : Request → AccountRequest

-- A route takes the requests of its own method.
abbrev pub sent : String → Request → Request
sent method request = record request { method = codes method }

-- except … as exc: raise HTTPException(…)
abbrev as_http : AuthError → AuthError
as_http (auth_not_found_error m) = http_exception 404 m
as_http (auth_conflict_error m) = http_exception 409 m
as_http (auth_version_conflict_error m) = http_exception 409 m
as_http (final_administrator_error m) = http_exception 422 m
as_http (auth_no_change_error m) = http_exception 422 m
as_http (identity_validation_error m) = http_exception 422 m
as_http (password_policy_error m) = http_exception 422 m
as_http error = error

abbrev pub reraised {ℓ} : {A : Type ℓ} → Result AuthError A → Result AuthError A
reraised (ok a) = ok a
reraised (err error) = err (as_http error)

-- The constraints of `auth_sessions` at the commit: an issued session has keys of its own.
unfoldable pub commit_login :
    AuthStore → LoginAttempt × AuthStore → Result AuthError (LoginAttempt × AuthStore)
commit_login before (none, after) = ok (none, after)
commit_login before (some issued, after) = do
  guard (is_fresh issued.auth_session before.auth_sessions)
      (integrity_error "duplicate key value violates unique constraint")
  ok (some issued, after)

-- The arguments that the routes fill in.
abbrev pub creation_by : AuthPrincipal → UserCreation → UserCreation
creation_by p creation = record creation { actor_user_id = some p.user.user_id; now = none }

abbrev pub update_by : AuthPrincipal → UserUpdate → UserUpdate
update_by p update = record update { actor_user_id = p.user.user_id; now = none }

abbrev pub reset_by : AuthPrincipal → PasswordReset → PasswordReset
reset_by p reset = record reset { actor_user_id = p.user.user_id; now = none }

module _ (primitives : Primitives) (settings : Settings) where
  -- The tables after the request.
  unfoldable pub handle : Draws → Datetime → AccountRequest → AuthStore → Result AuthError AuthStore
  unfolding commit_login
  handle draws clock (login request) store = do
    attempt ← authenticate_and_create_session primitives settings draws clock request store
    committed ← commit_login store attempt
    ok committed.1
  handle draws clock (read_session request) store = do
    (principal, seen) ← require_authenticated primitives settings clock request store
    replaced ←
        csrf_token_for_session primitives settings draws principal.session
          (request.cookie settings.auth_csrf_cookie_name) seen
    ok replaced.2
  handle draws clock (logout request request_id) store = do
    (principal, seen) ← require_authenticated primitives settings clock (sent "POST" request) store
    protected ← require_csrf_protection primitives settings (sent "POST" request) principal
    revoke_session primitives draws clock protected.session protected.user request_id none seen
  handle draws clock (create_user request creation) store = do
    (principal, seen) ←
        require_mutation_permission primitives settings manage_users clock (sent "POST" request)
          store
    created ←
        reraised (create_local_user primitives draws clock (creation_by principal creation) seen)
    ok created.1
  handle draws clock (patch_user request update) store = do
    (principal, seen) ←
        require_mutation_permission primitives settings manage_users clock (sent "PATCH" request)
          store
    updated ← reraised (update_local_user primitives draws clock (update_by principal update) seen)
    ok updated.1
  handle draws clock (reset_user_password request reset) store = do
    (principal, seen) ←
        require_mutation_permission primitives settings manage_users clock (sent "POST" request)
          store
    updated ←
        reraised (reset_local_user_password primitives draws clock (reset_by principal reset) seen)
    ok updated.1
  handle draws clock (read_users request) store = do
    seen ← require_permission primitives settings manage_users clock (sent "GET" request) store
    ok seen.1
  handle draws clock (read_incident_assignees request) store = do
    seen ← require_permission primitives settings assign_incident clock (sent "GET" request) store
    ok seen.1

  -- session.rollback()
  abbrev pub after_commit : AuthStore → Result AuthError AuthStore → AuthStore
  after_commit store (ok store') = store'
  after_commit store (err error) = store

  -- The requests one after another, each with what is drawn for it and its time.
  unfoldable pub serve : List (Draws × Datetime × AccountRequest) → AuthStore → AuthStore
  serve [] store = store
  serve ((draws, clock, request) ∷ rest) store =
      serve rest (after_commit store (handle draws clock request store))
