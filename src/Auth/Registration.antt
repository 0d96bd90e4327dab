-- ===== src/Auth/Registration.antt =====
-- backend/app/auth/service.py: the creation of local users, and the lists of them.
use ot_soc_fusion_x.Base.{
  ℕ, String, Text, Bool, true, ◌&&◌, ◌||◌, not, Option, List, [], ◌∷◌, ◌++◌, is_some, select,
  length, Result, ok, guard, ◌>>=◌, ◌>>◌, zero, suc,
}
use ot_soc_fusion_x.Platform.{Uuid, Datetime, str, flag, or_now}
use ot_soc_fusion_x.Auth.Model.{Role, admin, LocalUser, role_value, local_user_created, soc_analyst}
use ot_soc_fusion_x.Auth.Store.{
  AuthStore, AuthError, Primitives, Draws, find_user, find_username, auth_conflict_error,
}
use ot_soc_fusion_x.Auth.Audit.{append_soc_audit_event}
use ot_soc_fusion_x.Auth.Security.{normalize_username, normalize_display_name}
use ot_soc_fusion_x.Auth.Passwords.{hash_password}
use ot_soc_fusion_x.Auth.Users.{or_default, role_is, user_entry, flag_is}

-- The arguments of `create_local_user`.
pub record UserCreation : Type 0 where
  pub username : String
  pub display_name : String
  pub role : Role
  pub password : Text
  pub request_id : String
  pub actor_user_id : Option Uuid
  pub now : Option Datetime

-- statement.offset(offset).limit(limit)
abbrev page {ℓ} : {A : Type ℓ} → ℕ → ℕ → List A → List A
page offset limit [] = []
page zero zero (x ∷ xs) = []
page zero (suc limit) (x ∷ xs) = x ∷ page zero limit xs
page (suc offset) limit (x ∷ xs) = page offset limit xs

-- The page and the number of all users that pass the filters. `ordered` is the database's
-- `ORDER BY username, user_id`.
unfoldable pub list_local_users :
    (List LocalUser → List LocalUser)
    → Option Role
    → Option Bool
    → ℕ
    → ℕ
    → AuthStore
    → List LocalUser × ℕ
list_local_users ordered role active limit offset store =
    let users =
      select
        (λ u.
          role_is u.role (or_default u.role role) && flag_is u.active (or_default u.active active))
        store.local_users in
    (page offset limit (ordered users), length users)

-- `ordered` is the database's `ORDER BY display_name, username, user_id`.
unfoldable pub list_assignable_users :
    (List LocalUser → List LocalUser) → AuthStore → List LocalUser
list_assignable_users ordered store = page 0 100 (
    ordered (
      select (λ u. u.active && (role_is u.role admin || role_is u.role soc_analyst))
        store.local_users))

-- The flush fails if the new row has the key or the name of another.
unfoldable pub flush_user : LocalUser → AuthStore → Result AuthError AuthStore
unfolding find_user find_username
flush_user user store = do
  guard
      (not (
        is_some (find_user user.user_id store.local_users)
        || is_some (find_username user.username store.local_users)))
      (auth_conflict_error "The local username already exists.")
  ok (record store { local_users = store.local_users ++ user ∷ [] })

module _ (primitives : Primitives) where
  unfoldable pub create_local_user :
      Draws → Datetime → UserCreation → AuthStore → Result AuthError (LocalUser × AuthStore)
  unfolding normalize_username normalize_display_name find_username hash_password
      append_soc_audit_event
  create_local_user draws clock request store = do
    let now = or_now clock request.now
    username ← normalize_username primitives request.username
    display_name ← normalize_display_name request.display_name
    guard (not (is_some (find_username username store.local_users)))
        (auth_conflict_error "The local username already exists.")
    password_hash ← hash_password primitives draws.salt request.password
    let user : LocalUser = record {
      user_id = draws.user_id;
      username = username;
      display_name = display_name;
      role = request.role;
      password_hash = password_hash;
      active = true;
      version = 1;
      created_at = now;
      updated_at = now;
      password_changed_at = now;
    }
    flushed ← flush_user user store
    audited ←
        append_soc_audit_event primitives draws.audit_event_id clock
          (user_entry local_user_created request.request_id request.actor_user_id user
            (("role", str (role_value request.role)) ∷ ("active", flag true) ∷ []) now)
          flushed
    ok (user, audited)
