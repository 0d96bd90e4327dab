-- ===== src/Auth/Users/Keys.antt =====
-- A user found by name is found by identifier.
use ot_soc_fusion_x.Base.{
  ◌≡◌, refl, ap, List, [], ◌∷◌, Text, true, false, some, str_eq, eq_iff, same_text, any, map, arith,
  Any, Any-find, Bool-cases, inl, inr, subst,
}
use ot_soc_fusion_x.Platform.{Uuid}
use ot_soc_fusion_x.Auth.Model.{LocalUser}
use ot_soc_fusion_x.Auth.Store.{find_user, find_username}
use ot_soc_fusion_x.Auth.Sessions.{distinct}

-- The identifiers of the users are unique, as the primary key of the table says.
abbrev pub HasKeys : List LocalUser → Type 0
HasKeys users = distinct (map (λ (u : LocalUser). u.user_id) users) ≡ true

any-user :
    (k : Uuid) (users : List LocalUser)
    → Any (λ u. u.user_id ≡ k) users
    → any (λ j. str_eq j k) (map (λ (u : LocalUser). u.user_id) users) ≡ true
any-user k [] h = elim h [ ]
any-user k (x ∷ users) (inl h) = ground (arith, eq_iff x.user_id k)
any-user k (x ∷ users) (inr h) = ground (arith, any-user k users h)

-- The user with a name is the user with its identifier.
pub find_username-find_user :
    (name : Text) (users : List LocalUser) {u : LocalUser}
    → HasKeys users
    → find_username name users ≡ some u
    → find_user u.user_id users ≡ some u
unfolding find_username find_user
find_username-find_user name [] keys h = cc
find_username-find_user name (x ∷ users) {u} keys h =
    elim (Bool-cases (same_text x.username name)) [
      | inl t ↦
          let same : x ≡ u = cc (rw t at h) in
          let here : str_eq x.user_id u.user_id ≡ true =
            (eq_iff _ _).1 (ap (λ (v : LocalUser). v.user_id) same) in
          rw here (ap (λ v. some v) same)
      | inr f ↦
          let later = rw f at h in
          let there = any-user u.user_id users (
            Any-find (λ v. v.user_id ≡ u.user_id) (λ v. same_text v.username name) users later
              refl) in
          let found = find_username-find_user name users (ground arith) later in
          elim (Bool-cases (str_eq x.user_id u.user_id)) [
            | inr g ↦ rw g found
            | inl t ↦
                let same : x.user_id ≡ u.user_id = (eq_iff _ _).0 t in
                let first : any (λ j. str_eq j x.user_id) (map (λ (v : LocalUser). v.user_id) users)
                    ≡ false =
                  ground arith in
                let alone =
                  subst
                    (λ k. any (λ j. str_eq j k) (map (λ (v : LocalUser). v.user_id) users) ≡ false)
                    same first in
                cc (alone, there)
          ]
    ]
