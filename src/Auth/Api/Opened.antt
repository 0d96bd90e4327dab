-- ===== src/Auth/Api/Opened.antt =====
-- Who can log in with backend/app/auth/service.py, and what the issued token is good for.
use ot_soc_fusion_x.Base.{
  ◌≡◌, ◌<◌, ◌↔◌, ◌+◌, refl, List, [], ◌∷◌, ◌++◌, Result, ok, err, Text, true, false, some, none,
  str_eq, eq_iff, any, arith, Bool-cases, Option-cases, inl, inr, ◌⊎◌,
}
use ot_soc_fusion_x.Platform.{Sha256, Datetime, or_now}
use ot_soc_fusion_x.Auth.Model.{AuthSession, LocalUser}
use ot_soc_fusion_x.Auth.Store.{
  AuthStore, AuthError, Primitives, Draws, Settings, find_session, find_username,
}
use ot_soc_fusion_x.Auth.Security.{normalize_username}
use ot_soc_fusion_x.Auth.Passwords.{verify_password_or_dummy}
use ot_soc_fusion_x.Auth.Login.{authenticate_and_create_session, named_user, or_none, is_admitted}
use ot_soc_fusion_x.Auth.Guards.{Request, require_authenticated}
use ot_soc_fusion_x.Auth.Guards.Accepted.{require_authenticated_of, principal_of, seen_store}
use ot_soc_fusion_x.Auth.Sessions.{is_fresh, fresh-keys, digests}
use ot_soc_fusion_x.Auth.Api.Steps.{IsIssued, issue_session-IsIssued, deny_login-tables}
use ot_soc_fusion_x.Auth.Attempts.{LoginRequest, LoginAttempt, IssuedSession, issued_row, minutes}
use ot_soc_fusion_x.Auth.Users.Keys.{HasKeys, find_username-find_user}

find_session-append :
    (d : Sha256) (rows : List AuthSession) (s : AuthSession)
    → s.token_digest ≡ d
    → any (λ k. str_eq k d) (digests rows) ≡ false
    → find_session d (rows ++ s ∷ []) ≡ some s
unfolding find_session
find_session-append d [] s e h = ground (arith, eq_iff s.token_digest d)
find_session-append d (x ∷ rows) s e h = ground (arith, find_session-append d rows s e)

named-inversion :
    (n : Result AuthError Text) (store : AuthStore) {u : LocalUser}
    → named_user (or_none n) store ≡ some u
    → (name : Text) × (n ≡ ok name) × (find_username name store.local_users ≡ some u)
unfolding named_user
named-inversion (ok name) store h = (name, refl, h)
named-inversion (err e) store h = cc

module _ (primitives : Primitives) (settings : Settings) where
  -- The name is that of the user, the password is the user's, and the user is active.
  pub record IsAdmitted (request : LoginRequest) (store : AuthStore) (user : LocalUser)
      : Type 0 where
    pub name : Text
    pub normalized : normalize_username primitives request.username ≡ ok name
    pub found : find_username name store.local_users ≡ some user
    pub verified :
        verify_password_or_dummy primitives request.password (some user.password_hash) ≡ true
    pub active : user.active ≡ true

  admitted :
      (request : LoginRequest) (store : AuthStore) (user : LocalUser)
      → named_user (or_none (normalize_username primitives request.username)) store ≡ some user
      → is_admitted primitives request.password user ≡ true
      → IsAdmitted request store user
  unfolding is_admitted
  admitted request store user h a =
      let (name, normalized, found) = named-inversion _ store h in
      record {
        name = name;
        normalized = normalized;
        found = found;
        verified = ground arith;
        active = ground arith;
      }

  is_admitted_of :
      (request : LoginRequest) (store : AuthStore) (user : LocalUser)
      → IsAdmitted request store user
      → is_admitted primitives request.password user ≡ true
  unfolding is_admitted
  is_admitted_of request store user i = rw (i.verified, i.active) refl

  named_of :
      (request : LoginRequest) (store : AuthStore) (user : LocalUser)
      → IsAdmitted request store user
      → named_user (or_none (normalize_username primitives request.username)) store ≡ some user
  unfolding named_user
  named_of request store user i = rw (i.normalized) (i.found)

  -- A login that returns has issued a session for the user exactly if the user is admitted.
  login_outcome :
      (draws : Draws) (clock : Datetime) (request : LoginRequest) (store : AuthStore)
      {r : LoginAttempt × AuthStore}
      → authenticate_and_create_session primitives settings draws clock request store ≡ ok r
      → (r.0 ≡ none) × ((user : LocalUser) → ¬ IsAdmitted request store user)
        ⊎ ((user : LocalUser) × (token : Sha256) × (csrf : Sha256) × IsAdmitted request store user
            × IsIssued primitives settings draws (or_now clock request.now) user token csrf store r)
  unfolding authenticate_and_create_session
  login_outcome draws clock request store {r} h =
      let now = or_now clock request.now in
      let username = or_none (normalize_username primitives request.username) in
      elim (Option-cases (named_user username store)) [
        | inl unknown ↦
            let (denied, _, _) =
              deny_login-tables primitives draws now request username none store
                (rw (authenticate_and_create_session, unknown) at h) in
            inl (denied, λ user i. cc (unknown, named_of request store user i))
        | inr (u, known) ↦ elim (Bool-cases (is_admitted primitives request.password u)) [
          | inr f ↦
              let (denied, _, _) =
                deny_login-tables primitives draws now request username (some u) store
                  (rw (authenticate_and_create_session, known, f) at h) in
              inl (
                denied,
                λ user i.
                    cc (
                      known,
                      named_of request store user i,
                      f,
                      is_admitted_of request store user i,
                    ),
              )
          | inl t ↦
              let (token, csrf, i) =
                issue_session-IsIssued primitives settings draws now request u store
                  (rw (authenticate_and_create_session, known, t) at h) in
              inr (u, token, csrf, admitted request store u known t, i)
        ]
      ]

  -- A login that returns has issued a session exactly if the name, once normalized, is that of an active
  -- user with the password.
  pub login_iff :
      (draws : Draws) (clock : Datetime) (request : LoginRequest) (store : AuthStore)
      {r : LoginAttempt × AuthStore}
      → authenticate_and_create_session primitives settings draws clock request store ≡ ok r
      → ((issued : IssuedSession) × (r.0 ≡ some issued))
        ↔ ((user : LocalUser) × IsAdmitted request store user)
  login_iff draws clock request store h = elim (login_outcome draws clock request store h) [
    | inl (denied, none_admitted) ↦
        (λ (issued, e). cc (denied, e), λ (user, i). absurd (none_admitted user i))
    | inr (user, token, csrf, i, w) ↦ (λ z. (user, i), λ z. (_, w.issued))
  ]

  -- The token that a login issues authenticates every request that carries it in its cookie, as the user
  -- that logged in, until the session expires or the tables change, if its keys are new and the
  -- identifiers of the users are unique.
  pub login_opens :
      (draws : Draws) (clock : Datetime) (request : LoginRequest) (store : AuthStore)
      {r : LoginAttempt × AuthStore} (issued : IssuedSession) (now : Datetime) (later : Request)
      → authenticate_and_create_session primitives settings draws clock request store ≡ ok r
      → r.0 ≡ some issued
      → is_fresh issued.auth_session store.auth_sessions ≡ true
      → HasKeys store.local_users
      → later.cookie settings.auth_session_cookie_name ≡ some issued.raw_session_token
      → now < or_now clock request.now + minutes settings.auth_session_ttl_minutes
      → IsAdmitted request store issued.user
        × (require_authenticated primitives settings now later r.1
            ≡ ok (
              principal_of now issued.auth_session issued.user,
              seen_store now issued.auth_session r.1,
            ))
  login_opens draws clock request store {r} issued now later h e fresh keys cookie soon =
      elim (login_outcome draws clock request store h) [
        | inl (denied, none_admitted) ↦ cc (denied, e)
        | inr (user, token, csrf, i, w) ↦
            let row = issued_row settings draws (or_now clock request.now) user token csrf in
            let same : issued ≡ record {
              user = user;
              auth_session = row;
              raw_session_token = draws.session_token;
              raw_csrf_token = draws.csrf_token;
            } =
              cc (e, w.issued) in
            let (_, new) = fresh-keys row store.auth_sessions (rw same at fresh) in
            (
              rw same i,
              rw same (
                  require_authenticated_of primitives settings now later r.1 row user (record {
                    token = draws.session_token;
                    cookie = rw same at cookie;
                    shape = w.shape;
                    digest = token;
                    digested = w.digested;
                    found =
                        rw (w.sessions)
                          (find_session-append token store.auth_sessions row refl new);
                    owner =
                        rw (w.users)
                          (find_username-find_user i.name store.local_users keys i.found);
                    unrevoked = refl;
                    current = soon;
                    active = i.active;
                  })),
            )
      ]
