-- ===== src/Auth/Api/Rows.antt =====
-- The rows of `auth_sessions` under the routes of backend/app/api/auth.py.
use ot_soc_fusion_x.Base.{
  ◌≡◌, refl, inl, inr, Bool, true, false, none, some, List, if◌then◌else◌, Bool-cases, ap, subst,
  Result, ok, err, >>=-eq-ok, guard-eq-ok, ok-injective, String,
}
use ot_soc_fusion_x.Platform.{Datetime, or_now}
use ot_soc_fusion_x.Auth.Model.{AuthSession, LocalUser, manage_users, assign_incident, Role}
use ot_soc_fusion_x.Auth.Store.{AuthStore, AuthError, Primitives, Draws, Settings}
use ot_soc_fusion_x.Auth.Login.{authenticate_and_create_session, csrf_token_for_session, revoked}
use ot_soc_fusion_x.Auth.Guards.{
  require_authenticated, require_csrf_protection, require_mutation_permission, require_permission,
}
use ot_soc_fusion_x.Auth.Guards.Mutations.{require_csrf_protection-same}
use ot_soc_fusion_x.Auth.Users.{
  UserUpdate, revoked_sessions, update_local_user, reset_local_user_password, write_update,
  revoke_user_sessions,
}
use ot_soc_fusion_x.Auth.Users.Outcome.{
  update_local_user-inversion, reset_local_user_password-inversion, create_local_user-inversion,
  next_role, next_active,
}
use ot_soc_fusion_x.Auth.Sessions.{Rewrite, revoke, add, Rewrites, done, next, is_fresh}
use ot_soc_fusion_x.Auth.Api.{
  AccountRequest, login, read_session, logout, create_user, patch_user, reset_user_password,
  read_users, read_incident_assignees, sent, handle, commit_login, reraised, creation_by, update_by,
  reset_by,
}
use ot_soc_fusion_x.Auth.Api.Steps.{
  authenticate-tables, csrf_token_for_session-tables, revoke_session-tables,
}
use ot_soc_fusion_x.Auth.Registration.{create_local_user}
use ot_soc_fusion_x.Auth.Api.Seen.{
  revoked-IsSuccessor, succeeded, authenticated-Rewrite, mutation-Rewrite,
  require_permission-authenticated,
}
use ot_soc_fusion_x.Auth.Attempts.{LoginRequest, LoginAttempt, issued_row, IssuedSession}

pub reraised-eq-ok : {A : Type 0} (r : Result AuthError A) {a : A} → reraised r ≡ ok a → r ≡ ok a
reraised-eq-ok (ok x) h = h
reraised-eq-ok (err e) h = cc

some-injective {ℓ} : {A : Type ℓ} {x y : A} → some x ≡ some y → x ≡ y
some-injective e = cc

-- An update rewrites the rows only where it disables the user.
pub updated-sessions :
    (now : Datetime) (request : UserUpdate) (target : LocalUser) (name : String) (role : Role)
    (active : Bool) (store : AuthStore)
    → (write_update now request target name role active store).1.auth_sessions ≡ (
        if active
        then store.auth_sessions
        else revoked_sessions target.user_id now store.auth_sessions)
unfolding write_update revoke_user_sessions
updated-sessions now request target name role true store = refl
updated-sessions now request target name role false store = refl

module _ (primitives : Primitives) (settings : Settings) where
  one : {rows rows' : List AuthSession} → Rewrite rows rows' → Rewrites rows rows'
  one {rows} {rows'} w = next rows rows' rows' w (done rows')

  two :
      {rows between rows' : List AuthSession}
      → Rewrite rows between
      → Rewrite between rows'
      → Rewrites rows rows'
  two {rows} {between} {rows'} w v = next rows between rows' w (one v)

  committed-Rewrites :
      (draws : Draws) (clock : Datetime) (request : LoginRequest) (store : AuthStore)
      (attempt committed : LoginAttempt × AuthStore)
      → authenticate_and_create_session primitives settings draws clock request store ≡ ok attempt
      → commit_login store attempt ≡ ok committed
      → Rewrites store.auth_sessions committed.1.auth_sessions
  unfolding commit_login
  committed-Rewrites draws clock request store (none, after) committed e c =
      elim (authenticate-tables primitives settings draws clock request store e) [
        | inl (_, rows, _) ↦ rw (← ok-injective c, rows) (done store.auth_sessions)
        | inr (user, token, csrf, _, i) ↦ cc (i.issued)
      ]
  committed-Rewrites draws clock request store (some x, after) committed e c =
      elim (authenticate-tables primitives settings draws clock request store e) [
        | inl (denied, _, _) ↦ cc denied
        | inr (user, token, csrf, _, i) ↦
            let (fresh, h) = guard-eq-ok (is_fresh x.auth_session store.auth_sessions) _ _ c in
            let row = issued_row settings draws (or_now clock request.now) user token csrf in
            let same : x.auth_session ≡ row =
              ap (λ (y : IssuedSession). y.auth_session) (some-injective i.issued) in
            one (
              rw (← ok-injective h, i.sessions)
                (add row (subst (λ y. is_fresh y store.auth_sessions ≡ true) same fresh)))
      ]

  -- An accepted request rewrites the rows in the four ways only.
  pub handle-Rewrites :
      (draws : Draws) (clock : Datetime) (request : AccountRequest) (store : AuthStore)
      {store' : AuthStore}
      → handle primitives settings draws clock request store ≡ ok store'
      → Rewrites store.auth_sessions store'.auth_sessions
  unfolding handle
  handle-Rewrites draws clock (login request) store h =
      let (attempt, e, h1) =
        >>=-eq-ok (authenticate_and_create_session primitives settings draws clock request store) _
          h in
      let (committed, c, h2) = >>=-eq-ok (commit_login store attempt) _ h1 in
      rw (← ok-injective h2) (committed-Rewrites draws clock request store attempt committed e c)
  handle-Rewrites draws clock (read_session request) store h =
      let (r, e, h1) =
        >>=-eq-ok (require_authenticated primitives settings clock request store) _ h in
      let (w, there, _) = authenticated-Rewrite primitives settings clock request store e in
      let (q, c, h2) =
        >>=-eq-ok
          (csrf_token_for_session primitives settings draws r.0.session
            (request.cookie settings.auth_csrf_cookie_name) r.1)
          _ h1 in
      let out = ok-injective h2 in
      elim (csrf_token_for_session-tables primitives settings draws r.0.session _ r.1 c) [
        | inl same ↦ one (rw (← out) (rw same w))
        | inr (csrf, same) ↦ two w (
            rw (← out) (
              rw same (
                succeeded r.0.session (record r.0.session { csrf_digest = csrf }) r.1.auth_sessions
                  there (record { id = refl; digest = refl; user = refl; revoked = λ z. z }))))
      ]
  handle-Rewrites draws clock (logout request request_id) store h =
      let (r, e, h1) =
        >>=-eq-ok (require_authenticated primitives settings clock (sent "POST" request) store) _
          h in
      let (w, there, _) =
        authenticated-Rewrite primitives settings clock (sent "POST" request) store e in
      let (q, c, h2) =
        >>=-eq-ok (require_csrf_protection primitives settings (sent "POST" request) r.0) _ h1 in
      let same : q ≡ r.0 =
        require_csrf_protection-same primitives settings (sent "POST" request) r.0 c in
      let (rows, _) =
        revoke_session-tables primitives draws clock q.session q.user request_id none r.1 h2 in
      two w (
        rw rows (
          succeeded q.session (revoked clock q.session) r.1.auth_sessions (rw same there)
            (revoked-IsSuccessor clock q.session)))
  handle-Rewrites draws clock (create_user request creation) store {store'} h =
      let (r, e, h1) =
        >>=-eq-ok
          (require_mutation_permission primitives settings manage_users clock (sent "POST" request)
            store)
          _ h in
      let (q, c, h2) =
        >>=-eq-ok
          (reraised (create_local_user primitives draws clock (creation_by r.0 creation) r.1)) _
          h1 in
      let (_, _, _, _, _, _, _, _, rows) =
        create_local_user-inversion primitives draws clock r.1 (creation_by r.0 creation)
          (reraised-eq-ok _ c) in
      let out : store'.auth_sessions ≡ r.1.auth_sessions = cc (h2, rows) in
      one (rw out (mutation-Rewrite primitives settings clock (sent "POST" request) store e))
  handle-Rewrites draws clock (patch_user request update) store {store'} h =
      let (r, e, h1) =
        >>=-eq-ok
          (require_mutation_permission primitives settings manage_users clock (sent "PATCH" request)
            store)
          _ h in
      let (q, c, h2) =
        >>=-eq-ok (reraised (update_local_user primitives draws clock (update_by r.0 update) r.1)) _
          h1 in
      let (target, name, _, _, _, _, _, rows) =
        update_local_user-inversion primitives draws clock r.1 (update_by r.0 update)
          (reraised-eq-ok _ c) in
      let out : store'.auth_sessions ≡ q.1.auth_sessions = cc h2 in
      let w = mutation-Rewrite primitives settings clock (sent "PATCH" request) store e in
      elim (Bool-cases (next_active target update)) [
        | inl t ↦
            let kept =
              updated-sessions clock (update_by r.0 update) target name (next_role target update)
                (next_active target update) r.1 in
            one (rw (out, rows, kept, t) w)
        | inr f ↦
            let ended =
              updated-sessions clock (update_by r.0 update) target name (next_role target update)
                (next_active target update) r.1 in
            two w (rw (out, rows, ended, f) (revoke target.user_id clock))
      ]
  handle-Rewrites draws clock (reset_user_password request reset) store {store'} h =
      let (r, e, h1) =
        >>=-eq-ok
          (require_mutation_permission primitives settings manage_users clock (sent "POST" request)
            store)
          _ h in
      let (q, c, h2) =
        >>=-eq-ok
          (reraised (reset_local_user_password primitives draws clock (reset_by r.0 reset) r.1)) _
          h1 in
      let (target, _, _, _, _, _, rows) =
        reset_local_user_password-inversion primitives draws clock r.1 (reset_by r.0 reset)
          (reraised-eq-ok _ c) in
      let out : store'.auth_sessions ≡ q.1.auth_sessions = cc h2 in
      two (mutation-Rewrite primitives settings clock (sent "POST" request) store e)
        (rw (out, rows) (revoke target.user_id clock))
  handle-Rewrites draws clock (read_users request) store h =
      let (r, e, h1) =
        >>=-eq-ok
          (require_permission primitives settings manage_users clock (sent "GET" request) store) _
          h in
      let (p, a) =
        require_permission-authenticated primitives settings manage_users clock (sent "GET" request)
          store e in
      one (
        rw (← ok-injective h1)
          (authenticated-Rewrite primitives settings clock (sent "GET" request) store a).0)
  handle-Rewrites draws clock (read_incident_assignees request) store h =
      let (r, e, h1) =
        >>=-eq-ok
          (require_permission primitives settings assign_incident clock (sent "GET" request) store)
          _ h in
      let (p, a) =
        require_permission-authenticated primitives settings assign_incident clock
          (sent "GET" request) store e in
      one (
        rw (← ok-injective h1)
          (authenticated-Rewrite primitives settings clock (sent "GET" request) store a).0)
