-- ===== src/Auth/Users/Administrators.antt =====
-- An accepted update or reset of a local user keeps an active administrator.
use ot_soc_fusion_x.Base.{
  ℕ, ◌+◌, ◌≤◌, ◌≡◌, refl, ap, Bool, true, false, ◌&&◌, some, List, [], ◌∷◌, any, select, length,
  leb, eq_iff, Bool-cases, inl, inr, arith, String, Text,
}
use ot_soc_fusion_x.Platform.{Uuid, Datetime}
use ot_soc_fusion_x.Auth.Model.{LocalUser, Role}
use ot_soc_fusion_x.Auth.Store.{AuthStore, find_user, put_user}
use ot_soc_fusion_x.Auth.Users.{
  is_active_admin, removes_active_admin, write_update, write_password, UserUpdate,
  revoke_user_sessions,
}
use ot_soc_fusion_x.Auth.Users.Outcome.{next_role, next_active}

abbrev pub HasAdministrator : List LocalUser → Type 0
HasAdministrator users = any is_active_admin users ≡ true

abbrev unit_of : Bool → ℕ
unit_of true = 1
unit_of false = 0

abbrev count : (LocalUser → Bool) → List LocalUser → ℕ
count test users = length (select test users)

counted :
    (test : LocalUser → Bool) (users : List LocalUser)
    → 1 ≤ count test users
    → any test users ≡ true
counted test [] h = ground arith
counted test (u ∷ users) h = ground (arith, counted test users)

any-counted :
    (test : LocalUser → Bool) (users : List LocalUser)
    → any test users ≡ true
    → 1 ≤ count test users
any-counted test [] h = cc
any-counted test (u ∷ users) h = ground (arith, any-counted test users)

-- What putting a user over the one with its key does to the number of those that pass a test.
put_user-count :
    (test : LocalUser → Bool) (id : Uuid) (new : LocalUser) (users : List LocalUser)
    {old : LocalUser}
    → new.user_id ≡ id
    → find_user id users ≡ some old
    → count test (put_user new users) + unit_of (test old) ≡ count test users + unit_of (test new)
unfolding find_user put_user
put_user-count test id new [] e h = cc
put_user-count test id new (u ∷ users) {old} e h = ground (
  arith,
  eq_iff u.user_id id,
  eq_iff u.user_id new.user_id,
  put_user-count test id new users {old = old} e,
)

unit_bound : (b : Bool) → unit_of b ≤ 1
unit_bound true = omega arith
unit_bound false = omega arith

many_of : (n : ℕ) → leb n 1 ≡ false → 2 ≤ n
many_of n h = ground arith

-- The values that an accepted update and reset write keep an administrator.
written_administrator :
    (id : Uuid) (new old : LocalUser) (users : List LocalUser)
    → new.user_id ≡ id
    → find_user id users ≡ some old
    → HasAdministrator users
    → (is_active_admin old ≡ true
        → is_active_admin new ≡ false
        → leb (count is_active_admin users) 1 ≡ false)
    → HasAdministrator (put_user new users)
written_administrator id new old users e h has enough =
    let n = put_user-count is_active_admin id new users e h in
    let m = any-counted is_active_admin users has in
    counted is_active_admin (put_user new users) (elim (Bool-cases (is_active_admin new)) [
      | inl t ↦ omega (arith, n, m, ap unit_of t, unit_bound (is_active_admin old))
      | inr f ↦ elim (Bool-cases (is_active_admin old)) [
        | inl o ↦
            let many : 2 ≤ count is_active_admin users = many_of _ (enough o f) in
            omega (arith, n, many, ap unit_of f, ap unit_of o)
        | inr g ↦ omega (arith, n, m, ap unit_of f, ap unit_of g)
      ]
    ])

pub find_user-id :
    (id : Uuid) (users : List LocalUser) {u : LocalUser}
    → find_user id users ≡ some u
    → u.user_id ≡ id
unfolding find_user
find_user-id id [] h = cc
find_user-id id (x ∷ users) {u} h =
    ground (arith, eq_iff x.user_id id, find_user-id id users {u = u})

write_update-users :
    (now : Datetime) (request : UserUpdate) (target : LocalUser) (name : String) (role : Role)
    (active : Bool) (store : AuthStore)
    → (write_update now request target name role active store).1.local_users
      ≡ put_user (write_update now request target name role active store).0 store.local_users
unfolding write_update revoke_user_sessions
write_update-users now request target name role true store = refl
write_update-users now request target name role false store = refl

-- An update that the service accepts.
pub updated_administrator :
    (now : Datetime) (request : UserUpdate) (target : LocalUser) (name : String) (store : AuthStore)
    → find_user request.user_id store.local_users ≡ some target
    → (removes_active_admin target (next_role target request) (next_active target request)
        && leb (count is_active_admin store.local_users) 1)
      ≡ false
    → HasAdministrator store.local_users
    → HasAdministrator
        (write_update now request target name
          (next_role target request)
          (next_active target request)
          store).1.local_users
unfolding removes_active_admin write_update
updated_administrator now request target name store found kept has =
    rw
      (write_update-users now request target name (next_role target request)
        (next_active target request) store)
      (written_administrator request.user_id _ target store.local_users
        (find_user-id request.user_id store.local_users found) found has (λ o f. ground arith))

-- A reset that the service accepts.
pub reset_administrator :
    (now : Datetime) (hash : Text) (id : Uuid) (target : LocalUser) (store : AuthStore)
    → find_user id store.local_users ≡ some target
    → HasAdministrator store.local_users
    → HasAdministrator (write_password now hash target store).1.local_users
unfolding write_password
reset_administrator now hash id target store found has =
    written_administrator id _ target store.local_users (find_user-id id store.local_users found)
      found has (λ o f. cc (o, f))
