-- ===== src/Auth/Api/Administrators.antt =====
-- An active administrator remains, whatever is requested of backend/app/api/auth.py.
use ot_soc_fusion_x.Base.{
  ◌≡◌, refl, none, some, List, [], ◌∷◌, inl, inr, any-append, Result, ok, err, >>=-eq-ok,
  ok-injective, guard-eq-ok,
}
use ot_soc_fusion_x.Platform.{Datetime}
use ot_soc_fusion_x.Auth.Model.{manage_users, assign_incident}
use ot_soc_fusion_x.Auth.Store.{AuthStore, AuthError, Primitives, Draws, Settings}
use ot_soc_fusion_x.Auth.Users.{is_active_admin, update_local_user, reset_local_user_password}
use ot_soc_fusion_x.Auth.Users.Outcome.{
  update_local_user-inversion, reset_local_user_password-inversion, create_local_user-inversion,
  locked_user-inversion,
}
use ot_soc_fusion_x.Auth.Login.{authenticate_and_create_session, csrf_token_for_session}
use ot_soc_fusion_x.Auth.Guards.{
  Request, AuthPrincipal, require_authenticated, require_csrf_protection,
  require_mutation_permission, require_permission,
}
use ot_soc_fusion_x.Auth.Guards.Mutations.{require_mutation_permission-inversion}
use ot_soc_fusion_x.Auth.Api.{
  AccountRequest, login, read_session, logout, create_user, patch_user, reset_user_password,
  read_users, read_incident_assignees, sent, handle, commit_login, reraised, creation_by, update_by,
  reset_by, after_commit, serve,
}
use ot_soc_fusion_x.Auth.Api.Steps.{
  authenticate-tables, csrf_token_for_session-tables, revoke_session-tables,
}
use ot_soc_fusion_x.Auth.Api.Rows.{reraised-eq-ok}
use ot_soc_fusion_x.Auth.Sessions.{is_fresh}
use ot_soc_fusion_x.Auth.Registration.{create_local_user}
use ot_soc_fusion_x.Auth.Users.Administrators.{
  HasAdministrator, updated_administrator, reset_administrator,
}
use ot_soc_fusion_x.Auth.Api.Seen.{authenticated-Rewrite, require_permission-authenticated}
use ot_soc_fusion_x.Auth.Attempts.{LoginRequest, LoginAttempt}

committed_same :
    (store : AuthStore) (attempt committed : LoginAttempt × AuthStore)
    → commit_login store attempt ≡ ok committed
    → committed.1 ≡ attempt.1
unfolding commit_login
committed_same store (none, after) committed c = cc c
committed_same store (some issued, after) committed c =
    let (_, h) = guard-eq-ok (is_fresh issued.auth_session store.auth_sessions) _ _ c in cc h

module _ (primitives : Primitives) (settings : Settings) where
  committed_users :
      (draws : Draws) (clock : Datetime) (request : LoginRequest) (store : AuthStore)
      (attempt committed : LoginAttempt × AuthStore)
      → authenticate_and_create_session primitives settings draws clock request store ≡ ok attempt
      → commit_login store attempt ≡ ok committed
      → committed.1.local_users ≡ store.local_users
  unfolding commit_login
  committed_users draws clock request store attempt committed e c =
      let same = committed_same store attempt committed c in
      elim (authenticate-tables primitives settings draws clock request store e) [
        | inl (_, _, users) ↦ rw same users
        | inr (_, _, _, _, i) ↦ rw same (i.users)
      ]

  mutation_users :
      (now : Datetime) (request : Request) (store : AuthStore) {r : AuthPrincipal × AuthStore}
      → require_mutation_permission primitives settings manage_users now request store ≡ ok r
      → r.1.local_users ≡ store.local_users
  mutation_users now request store h =
      let (e, _, _) =
        require_mutation_permission-inversion primitives settings manage_users now request store
          h in
      (authenticated-Rewrite primitives settings now request store e).2

  handle-HasAdministrator :
      (draws : Draws) (clock : Datetime) (request : AccountRequest) (store : AuthStore)
      {store' : AuthStore}
      → handle primitives settings draws clock request store ≡ ok store'
      → HasAdministrator store.local_users
      → HasAdministrator store'.local_users
  unfolding handle
  handle-HasAdministrator draws clock (login request) store h has =
      let (attempt, e, h1) =
        >>=-eq-ok (authenticate_and_create_session primitives settings draws clock request store) _
          h in
      let (committed, c, h2) = >>=-eq-ok (commit_login store attempt) _ h1 in
      rw (← ok-injective h2, committed_users draws clock request store attempt committed e c) has
  handle-HasAdministrator draws clock (read_session request) store h has =
      let (r, e, h1) =
        >>=-eq-ok (require_authenticated primitives settings clock request store) _ h in
      let (_, _, users) = authenticated-Rewrite primitives settings clock request store e in
      let (q, c, h2) =
        >>=-eq-ok
          (csrf_token_for_session primitives settings draws r.0.session
            (request.cookie settings.auth_csrf_cookie_name) r.1)
          _ h1 in
      elim (csrf_token_for_session-tables primitives settings draws r.0.session _ r.1 c) [
        | inl same ↦ rw (← ok-injective h2, same, users) has
        | inr (csrf, same) ↦ rw (← ok-injective h2, same, users) has
      ]
  handle-HasAdministrator draws clock (logout request request_id) store h has =
      let (r, e, h1) =
        >>=-eq-ok (require_authenticated primitives settings clock (sent "POST" request) store) _
          h in
      let (_, _, users) =
        authenticated-Rewrite primitives settings clock (sent "POST" request) store e in
      let (q, c, h2) =
        >>=-eq-ok (require_csrf_protection primitives settings (sent "POST" request) r.0) _ h1 in
      let (_, same) =
        revoke_session-tables primitives draws clock q.session q.user request_id none r.1 h2 in
      rw (same, users) has
  handle-HasAdministrator draws clock (create_user request creation) store {store'} h has =
      let (r, e, h1) =
        >>=-eq-ok
          (require_mutation_permission primitives settings manage_users clock (sent "POST" request)
            store)
          _ h in
      let (q, c, h2) =
        >>=-eq-ok
          (reraised (create_local_user primitives draws clock (creation_by r.0 creation) r.1)) _
          h1 in
      let (users, _, _, _, _, _, _, _, _) =
        create_local_user-inversion primitives draws clock r.1 (creation_by r.0 creation)
          (reraised-eq-ok _ c) in
      rw
        (
          ← ok-injective h2,
          users,
          mutation_users clock (sent "POST" request) store e,
          any-append is_active_admin store.local_users (q.0 ∷ []),
          has,
        )
        refl
  handle-HasAdministrator draws clock (patch_user request update) store {store'} h has =
      let (r, e, h1) =
        >>=-eq-ok
          (require_mutation_permission primitives settings manage_users clock (sent "PATCH" request)
            store)
          _ h in
      let (q, c, h2) =
        >>=-eq-ok (reraised (update_local_user primitives draws clock (update_by r.0 update) r.1)) _
          h1 in
      let (target, name, locked, _, kept, _, users, _) =
        update_local_user-inversion primitives draws clock r.1 (update_by r.0 update)
          (reraised-eq-ok _ c) in
      let (found, _) =
        locked_user-inversion primitives draws clock r.1 update.user_id update.expected_version
          locked in
      rw (← ok-injective h2, users)
        (updated_administrator clock (update_by r.0 update) target name r.1 found kept
          (rw (mutation_users clock (sent "PATCH" request) store e) has))
  handle-HasAdministrator draws clock (reset_user_password request reset) store {store'} h has =
      let (r, e, h1) =
        >>=-eq-ok
          (require_mutation_permission primitives settings manage_users clock (sent "POST" request)
            store)
          _ h in
      let (q, c, h2) =
        >>=-eq-ok
          (reraised (reset_local_user_password primitives draws clock (reset_by r.0 reset) r.1)) _
          h1 in
      let (target, hash, locked, _, _, users, _) =
        reset_local_user_password-inversion primitives draws clock r.1 (reset_by r.0 reset)
          (reraised-eq-ok _ c) in
      let (found, _) =
        locked_user-inversion primitives draws clock r.1 reset.user_id reset.expected_version
          locked in
      rw (← ok-injective h2, users)
        (reset_administrator clock hash reset.user_id target r.1 found
          (rw (mutation_users clock (sent "POST" request) store e) has))
  handle-HasAdministrator draws clock (read_users request) store h has =
      let (r, e, h1) =
        >>=-eq-ok
          (require_permission primitives settings manage_users clock (sent "GET" request) store) _
          h in
      let (p, a) =
        require_permission-authenticated primitives settings manage_users clock (sent "GET" request)
          store e in
      rw (← ok-injective h1)
        (rw ((authenticated-Rewrite primitives settings clock (sent "GET" request) store a).2) has)
  handle-HasAdministrator draws clock (read_incident_assignees request) store h has =
      let (r, e, h1) =
        >>=-eq-ok
          (require_permission primitives settings assign_incident clock (sent "GET" request) store)
          _ h in
      let (p, a) =
        require_permission-authenticated primitives settings assign_incident clock
          (sent "GET" request) store e in
      rw (← ok-injective h1)
        (rw ((authenticated-Rewrite primitives settings clock (sent "GET" request) store a).2) has)

  after_commit-HasAdministrator :
      (draws : Draws) (clock : Datetime) (request : AccountRequest) (store : AuthStore)
      (r : Result AuthError AuthStore)
      → handle primitives settings draws clock request store ≡ r
      → HasAdministrator store.local_users
      → HasAdministrator (after_commit primitives settings store r).local_users
  after_commit-HasAdministrator draws clock request store (ok store') e has =
      handle-HasAdministrator draws clock request store e has
  after_commit-HasAdministrator draws clock request store (err error) e has = has

  -- If there is an active administrator, then there is one after any sequence of requests to the routes
  -- for sessions and users, whoever sends them.
  pub serve-HasAdministrator :
      (requests : List (Draws × Datetime × AccountRequest)) (store : AuthStore)
      → HasAdministrator store.local_users
      → HasAdministrator (serve primitives settings requests store).local_users
  unfolding serve
  serve-HasAdministrator [] store has = has
  serve-HasAdministrator ((draws, clock, request) ∷ rest) store has =
      let result = handle primitives settings draws clock request store in
      serve-HasAdministrator rest (after_commit primitives settings store result)
        (after_commit-HasAdministrator draws clock request store result refl has)
