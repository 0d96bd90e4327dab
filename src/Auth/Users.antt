-- ===== src/Auth/Users.antt =====
-- backend/app/auth/service.py: the update of local users and the reset of their passwords. Their creation
-- is in Registration.antt.
pub mod Outcome
pub mod Administrators
pub mod Keys
use ot_soc_fusion_x.Base.{
  ℕ, ◌+◌, String, Text, Bool, true, false, ◌&&◌, ◌||◌, not, Option, none, some, List, [], ◌∷◌, ◌++◌,
  if◌then◌else◌, str_eq, leb, ◌==◌, is_some, select, length, Result, ok, guard, or_raise, ◌>>=◌,
  ◌>>◌,
}
use ot_soc_fusion_x.Platform.{Uuid, Datetime, Value, str, num, flag, texts, or_now}
use ot_soc_fusion_x.Auth.Model.{
  Role, admin, LocalUser, AuthSession, role_value, SocAuditAction, local_user_updated,
  local_user_password_reset, accepted,
}
use ot_soc_fusion_x.Auth.Store.{
  AuthStore, AuthError, Primitives, Draws, find_user, put_user, auth_not_found_error,
  auth_version_conflict_error, final_administrator_error, auth_no_change_error,
}
use ot_soc_fusion_x.Auth.Audit.{append_soc_audit_event, SocAuditEntry}
use ot_soc_fusion_x.Auth.Security.{normalize_display_name}
use ot_soc_fusion_x.Auth.Passwords.{hash_password}

-- The arguments of `update_local_user`.
pub record UserUpdate : Type 0 where
  pub user_id : Uuid
  pub display_name : Option String
  pub role : Option Role
  pub active : Option Bool
  pub expected_version : ℕ
  pub actor_user_id : Uuid
  pub request_id : String
  pub now : Option Datetime

-- The arguments of `reset_local_user_password`.
pub record PasswordReset : Type 0 where
  pub user_id : Uuid
  pub password : Text
  pub expected_version : ℕ
  pub actor_user_id : Uuid
  pub request_id : String
  pub now : Option Datetime

-- role == other
abbrev pub role_is : Role → Role → Bool
role_is a b = str_eq (role_value a) (role_value b)

abbrev pub flag_is : Bool → Bool → Bool
flag_is true b = b
flag_is false b = not b

-- LocalUser.active.is_(True), LocalUser.role == Role.ADMIN.value
abbrev pub is_active_admin : LocalUser → Bool
is_active_admin user = user.active && role_is user.role admin

-- value if value is not None else default
abbrev pub or_default {ℓ} : {A : Type ℓ} → A → Option A → A
or_default default none = default
or_default default (some value) = value

-- The row of a session of the user that had not ended.
abbrev pub is_open_of : Uuid → AuthSession → Bool
is_open_of user_id s = str_eq s.user_id user_id && not (is_some s.revoked_at)

unfoldable pub revoked_sessions : Uuid → Datetime → List AuthSession → List AuthSession
revoked_sessions user_id at [] = []
revoked_sessions user_id at (s ∷ rest) =
    (if is_open_of user_id s then record s { revoked_at = some at } else s)
    ∷ revoked_sessions user_id at rest

-- The number of the rows that are written, and the tables.
unfoldable pub revoke_user_sessions : Uuid → Datetime → AuthStore → ℕ × AuthStore
unfolding revoked_sessions
revoke_user_sessions user_id at store = (
  length (select (is_open_of user_id) store.auth_sessions),
  record store { auth_sessions = revoked_sessions user_id at store.auth_sessions },
)

-- A fixed part of the audit entries on users.
abbrev pub user_entry :
    SocAuditAction
    → String
    → Option Uuid
    → LocalUser
    → List (String × Value)
    → Datetime
    → SocAuditEntry
user_entry action request_id actor_user_id user details now = record {
  action = action;
  result = accepted;
  request_id = request_id;
  actor_user_id = actor_user_id;
  subject_user_id = some user.user_id;
  subject_label = some user.username;
  incident_id = none;
  scenario_run_id = none;
  safe_reason = none;
  details = details;
  occurred_at = some now;
}

-- The user is there, at the expected version.
unfoldable pub locked_user : Uuid → ℕ → AuthStore → Result AuthError LocalUser
unfolding find_user
locked_user user_id expected_version store = do
  target ←
      or_raise (auth_not_found_error "The local user was not found.")
        (find_user user_id store.local_users)
  guard (target.version == expected_version)
      (auth_version_conflict_error "The local-user version is stale.")
  ok target

-- normalize_display_name(display_name) if display_name is not None else target.display_name
unfoldable pub next_display_name : LocalUser → Option String → Result AuthError String
unfolding normalize_display_name
next_display_name target none = ok target.display_name
next_display_name target (some display_name) = normalize_display_name display_name

-- The names of the changed fields in order.
unfoldable pub changed_fields : LocalUser → String → Role → Bool → List String
changed_fields target display_name role active =
    (if flag_is target.active active then [] else "active" ∷ [])
    ++ (if str_eq target.display_name display_name then [] else "display_name" ∷ [])
    ++ (if role_is target.role role then [] else "role" ∷ [])

abbrev is_empty : List String → Bool
is_empty [] = true
is_empty (field ∷ rest) = false

-- target is an active administrator and would not be one
unfoldable pub removes_active_admin : LocalUser → Role → Bool → Bool
removes_active_admin target role active =
    is_active_admin target && (not active || not (role_is role admin))

-- The user with its new values, and the tables.
unfoldable pub write_update :
    Datetime → UserUpdate → LocalUser → String → Role → Bool → AuthStore → LocalUser × AuthStore
unfolding put_user revoke_user_sessions
write_update now request target display_name role active store =
    let target' : LocalUser = record target {
      display_name = display_name;
      role = role;
      active = active;
      version = target.version + 1;
      updated_at = now;
    } in
    let written = record store { local_users = put_user target' store.local_users } in
    (target', if active then written else (revoke_user_sessions target.user_id now written).1)

unfoldable pub write_password : Datetime → Text → LocalUser → AuthStore → LocalUser × AuthStore
unfolding put_user
write_password now password_hash target store =
    let target' : LocalUser = record target {
      password_hash = password_hash;
      password_changed_at = now;
      updated_at = now;
      version = target.version + 1;
    } in
    (target', record store { local_users = put_user target' store.local_users })

module _ (primitives : Primitives) where
  unfoldable pub update_local_user :
      Draws → Datetime → UserUpdate → AuthStore → Result AuthError (LocalUser × AuthStore)
  unfolding append_soc_audit_event removes_active_admin
  update_local_user draws clock request store = do
    let now = or_now clock request.now
    let active_admins = select is_active_admin store.local_users
    target ← locked_user request.user_id request.expected_version store
    display_name ← next_display_name target request.display_name
    let role = or_default target.role request.role
    let active = or_default target.active request.active
    guard (not (removes_active_admin target role active && leb (length active_admins) 1))
        (final_administrator_error "The final active administrator cannot be disabled or demoted.")
    let changed = changed_fields target display_name role active
    guard (not (is_empty changed))
        (auth_no_change_error "The local-user update does not change any values.")
    let written = write_update now request target display_name role active store
    audited ←
        append_soc_audit_event primitives draws.audit_event_id clock
          (user_entry local_user_updated request.request_id (some request.actor_user_id) written.0
            (("changed_fields", texts changed)
              ∷ ("role", str (role_value role))
              ∷ ("active", flag active)
              ∷ ("version", num (target.version + 1))
              ∷ [])
            now)
          written.1
    ok (written.0, audited)

  unfoldable pub reset_local_user_password :
      Draws → Datetime → PasswordReset → AuthStore → Result AuthError (LocalUser × AuthStore)
  unfolding hash_password revoke_user_sessions append_soc_audit_event
  reset_local_user_password draws clock request store = do
    let now = or_now clock request.now
    target ← locked_user request.user_id request.expected_version store
    password_hash ← hash_password primitives draws.salt request.password
    let written = write_password now password_hash target store
    let revoked = revoke_user_sessions target.user_id now written.1
    audited ←
        append_soc_audit_event primitives draws.audit_event_id clock
          (user_entry local_user_password_reset request.request_id (some request.actor_user_id)
            written.0
            (("revoked_sessions", num revoked.0) ∷ ("version", num (target.version + 1)) ∷ []) now)
          revoked.1
    ok (written.0, audited)
