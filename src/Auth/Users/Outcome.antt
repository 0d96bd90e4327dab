-- ===== src/Auth/Users/Outcome.antt =====
-- What the administration of local users leaves when it is accepted.
use ot_soc_fusion_x.Base.{
  ◌≡◌, ℕ, Bool, true, false, ◌&&◌, some, none, [], ◌∷◌, ◌++◌, String, Text, ok, select, length, leb,
  arith,
}
use ot_soc_fusion_x.Platform.{Uuid, Datetime, or_now}
use ot_soc_fusion_x.Auth.Model.{Role, LocalUser}
use ot_soc_fusion_x.Auth.Store.{AuthStore, Primitives, Draws, find_user, find_username}
use ot_soc_fusion_x.Auth.Security.{normalize_username}
use ot_soc_fusion_x.Auth.Audit.{append_soc_audit_event}
use ot_soc_fusion_x.Auth.Passwords.{hash_password}
use ot_soc_fusion_x.Auth.Users.{
  UserUpdate, PasswordReset, update_local_user, reset_local_user_password, locked_user,
  next_display_name, or_default, is_active_admin, removes_active_admin, write_update,
  write_password, revoke_user_sessions, revoked_sessions,
}
use ot_soc_fusion_x.Auth.Registration.{UserCreation, create_local_user, flush_user}

abbrev pub next_role : LocalUser → UserUpdate → Role
next_role target request = or_default target.role request.role

abbrev pub next_active : LocalUser → UserUpdate → Bool
next_active target request = or_default target.active request.active

module _ (primitives : Primitives) (draws : Draws) (clock : Datetime) (store : AuthStore) where
  pub locked_user-inversion :
      (user_id : Uuid) (version : ℕ) {target : LocalUser}
      → locked_user user_id version store ≡ ok target
      → (find_user user_id store.local_users ≡ some target) × (target.version ≡ version)
  unfolding locked_user
  locked_user-inversion user_id version h = (ground arith, ground arith)

  -- The user and the tables that an accepted update writes.
  abbrev pub updated : UserUpdate → LocalUser → String → LocalUser × AuthStore
  updated request target name =
      write_update (or_now clock request.now) request target name (next_role target request)
        (next_active target request) store

  pub update_local_user-inversion :
      (request : UserUpdate) {r : LocalUser × AuthStore}
      → update_local_user primitives draws clock request store ≡ ok r
      → (target : LocalUser) × (name : String) × (locked_user request.user_id
            request.expected_version store
          ≡ ok target)
        × (next_display_name target request.display_name ≡ ok name)
        × ((removes_active_admin target (next_role target request) (next_active target request)
              && leb (length (select is_active_admin store.local_users)) 1)
            ≡ false)
        × (r.0 ≡ (updated request target name).0)
        × (r.1.local_users ≡ (updated request target name).1.local_users)
        × (r.1.auth_sessions ≡ (updated request target name).1.auth_sessions)
  unfolding update_local_user append_soc_audit_event
  update_local_user-inversion request h = ground arith

  pub reset_local_user_password-inversion :
      (request : PasswordReset) {r : LocalUser × AuthStore}
      → reset_local_user_password primitives draws clock request store ≡ ok r
      → (target : LocalUser) × (hash : Text) × (locked_user request.user_id request.expected_version
            store
          ≡ ok target)
        × (hash_password primitives draws.salt request.password ≡ ok hash)
        × (r.0 ≡ (write_password (or_now clock request.now) hash target store).0)
        × (r.1.local_users
            ≡ (write_password (or_now clock request.now) hash target store).1.local_users)
        × (r.1.auth_sessions
            ≡ revoked_sessions target.user_id (or_now clock request.now) store.auth_sessions)
  unfolding reset_local_user_password append_soc_audit_event revoke_user_sessions write_password
  reset_local_user_password-inversion request h = ground arith

  pub create_local_user-inversion :
      (request : UserCreation) {r : LocalUser × AuthStore}
      → create_local_user primitives draws clock request store ≡ ok r
      → (r.1.local_users ≡ store.local_users ++ r.0 ∷ [])
        × (r.0.user_id ≡ draws.user_id)
        × (r.0.active ≡ true)
        × (r.0.role ≡ request.role)
        × (find_user r.0.user_id store.local_users ≡ none)
        × (find_username r.0.username store.local_users ≡ none)
        × (normalize_username primitives request.username ≡ ok r.0.username)
        × (hash_password primitives draws.salt request.password ≡ ok r.0.password_hash)
        × (r.1.auth_sessions ≡ store.auth_sessions)
  unfolding create_local_user append_soc_audit_event flush_user
  create_local_user-inversion request h = ground arith
