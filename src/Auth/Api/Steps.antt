-- ===== src/Auth/Api/Steps.antt =====
-- What an accepted request to the routes of backend/app/api/auth.py does to the tables.
use ot_soc_fusion_x.Base.{
  ◌≡◌, Bool, true, Option, none, some, [], ◌∷◌, ◌++◌, str_eq, arith, Bool-cases, Text, String, ok,
  >>=-eq-ok, ◌⊎◌, inl, inr, Option-cases,
}
use ot_soc_fusion_x.Platform.{Uuid, Sha256, Datetime, or_now, Details}
use ot_soc_fusion_x.Auth.Model.{AuthSession, LocalUser}
use ot_soc_fusion_x.Auth.Store.{AuthStore, Primitives, Draws, Settings, put_session}
use ot_soc_fusion_x.Auth.Audit.{
  append_soc_audit_event, validated_details, soc_audit_event, SocAuditEntry,
}
use ot_soc_fusion_x.Auth.Security.{
  keyed_token_digest, new_opaque_token, safe_token_shape, is_token, normalize_username,
}
use ot_soc_fusion_x.Auth.Login.{
  authenticate_and_create_session, issue_session, deny_login, csrf_token_for_session,
  replace_csrf_token, revoke_session, revoked, is_admitted, named_user, or_none,
}
use ot_soc_fusion_x.Auth.Attempts.{LoginRequest, LoginAttempt, issued_row}

module _ (primitives : Primitives) where
  pub append_soc_audit_event-inversion :
      (id : Uuid) (clock : Datetime) (entry : SocAuditEntry) (store : AuthStore)
      {store' : AuthStore}
      → append_soc_audit_event primitives id clock entry store ≡ ok store'
      → (safe_details : Details) × (validated_details primitives entry.details ≡ ok safe_details)
        × (store' ≡ record store {
          soc_audit_events =
              store.soc_audit_events ++ soc_audit_event id clock safe_details entry ∷ [];
        })
  unfolding append_soc_audit_event
  append_soc_audit_event-inversion id clock entry store h = ground arith

  pub deny_login-tables :
      (draws : Draws) (now : Datetime) (request : LoginRequest) (username : Option Text)
      (user : Option LocalUser) (store : AuthStore) {r : LoginAttempt × AuthStore}
      → deny_login primitives draws now request username user store ≡ ok r
      → (r.0 ≡ none)
        × (r.1.auth_sessions ≡ store.auth_sessions)
        × (r.1.local_users ≡ store.local_users)
  unfolding deny_login append_soc_audit_event
  deny_login-tables draws now request username user store h =
      (ground arith, ground arith, ground arith)

  -- What a login that is accepted writes and returns.
  pub record IsIssued (settings : Settings) (draws : Draws) (now : Datetime) (user : LocalUser)
      (token csrf : Sha256) (store : AuthStore) (r : LoginAttempt × AuthStore) : Type 0 where
    pub shape : is_token draws.session_token ≡ true
    pub digested :
        keyed_token_digest primitives settings.auth_session_secret draws.session_token ≡ ok token
    pub csrf_digested :
        keyed_token_digest primitives settings.auth_session_secret draws.csrf_token ≡ ok csrf
    pub issued :
        r.0
        ≡ some (record {
          user = user;
          auth_session = issued_row settings draws now user token csrf;
          raw_session_token = draws.session_token;
          raw_csrf_token = draws.csrf_token;
        })
    pub sessions :
        r.1.auth_sessions
        ≡ store.auth_sessions ++ issued_row settings draws now user token csrf ∷ []
    pub users : r.1.local_users ≡ store.local_users

  issue_session-parts :
      (settings : Settings) (draws : Draws) (now : Datetime) (request : LoginRequest)
      (user : LocalUser) (store : AuthStore) {r : LoginAttempt × AuthStore}
      → issue_session primitives settings draws now request user store ≡ ok r
      → (token : Sha256) × (csrf : Sha256) × (is_token draws.session_token ≡ true)
        × (keyed_token_digest primitives settings.auth_session_secret draws.session_token
            ≡ ok token)
        × (keyed_token_digest primitives settings.auth_session_secret draws.csrf_token ≡ ok csrf)
        × (r.0
            ≡ some (record {
              user = user;
              auth_session = issued_row settings draws now user token csrf;
              raw_session_token = draws.session_token;
              raw_csrf_token = draws.csrf_token;
            }))
        × (r.1.auth_sessions
            ≡ store.auth_sessions ++ issued_row settings draws now user token csrf ∷ [])
        × (r.1.local_users ≡ store.local_users)
  unfolding issue_session append_soc_audit_event new_opaque_token
  issue_session-parts settings draws now request user store h = ground arith

  pub issue_session-IsIssued :
      (settings : Settings) (draws : Draws) (now : Datetime) (request : LoginRequest)
      (user : LocalUser) (store : AuthStore) {r : LoginAttempt × AuthStore}
      → issue_session primitives settings draws now request user store ≡ ok r
      → (token : Sha256) × (csrf : Sha256) × IsIssued settings draws now user token csrf store r
  issue_session-IsIssued settings draws now request user store h =
      let (token, csrf, shape, digested, csrf_digested, issued, sessions, users) =
        issue_session-parts settings draws now request user store h in
      (
        token,
        csrf,
        record {
          shape = shape;
          digested = digested;
          csrf_digested = csrf_digested;
          issued = issued;
          sessions = sessions;
          users = users;
        },
      )

  replace_csrf_token-tables :
      (settings : Settings) (draws : Draws) (s : AuthSession) (store : AuthStore)
      {r : (Text × Bool) × AuthSession × AuthStore}
      → replace_csrf_token primitives settings draws s store ≡ ok r
      → (csrf : Sha256) × (r.2 ≡ record store {
        auth_sessions = put_session (record s { csrf_digest = csrf }) store.auth_sessions;
      })
  unfolding replace_csrf_token
  replace_csrf_token-tables settings draws s store h =
      let (token, _, h1) = >>=-eq-ok (new_opaque_token draws.csrf_token) _ h in
      let (csrf, _, h2) =
        >>=-eq-ok (keyed_token_digest primitives settings.auth_session_secret token) _ h1 in
      (csrf, cc h2)

  -- Either the tables stay, or the digest of the CSRF token is written to the row.
  pub csrf_token_for_session-tables :
      (settings : Settings) (draws : Draws) (s : AuthSession) (presented : Option Text)
      (store : AuthStore) {r : (Text × Bool) × AuthSession × AuthStore}
      → csrf_token_for_session primitives settings draws s presented store ≡ ok r
      → (r.2 ≡ store)
        ⊎ ((csrf : Sha256) × (r.2 ≡ record store {
          auth_sessions = put_session (record s { csrf_digest = csrf }) store.auth_sessions;
        }))
  unfolding csrf_token_for_session safe_token_shape
  csrf_token_for_session-tables settings draws s none store h =
      let (csrf, e) = replace_csrf_token-tables settings draws s store h in inr (csrf, e)
  csrf_token_for_session-tables settings draws s (some presented) store {r} h =
      elim (Bool-cases (is_token presented)) [
        | inr f ↦
            let (csrf, e) = replace_csrf_token-tables settings draws s store (rw f at h) in
            inr (csrf, e)
        | inl t ↦
            let (digest, _, h1) =
              >>=-eq-ok (keyed_token_digest primitives settings.auth_session_secret presented) _
                (rw t at h) in
            elim (Bool-cases (str_eq digest s.csrf_digest)) [
              | inl same ↦ inl (cc (rw same at h1))
              | inr f ↦
                  let (csrf, e) = replace_csrf_token-tables settings draws s store (rw f at h1) in
                  inr (csrf, e)
            ]
      ]

  pub revoke_session-tables :
      (draws : Draws) (clock : Datetime) (s : AuthSession) (user : LocalUser) (request_id : String)
      (at : Option Datetime) (store : AuthStore) {store' : AuthStore}
      → revoke_session primitives draws clock s user request_id at store ≡ ok store'
      → (store'.auth_sessions ≡ put_session (revoked (or_now clock at) s) store.auth_sessions)
        × (store'.local_users ≡ store.local_users)
  unfolding revoke_session append_soc_audit_event
  revoke_session-tables draws clock s user request_id at store h = (ground arith, ground arith)

  -- A login either issues a session or leaves the tables as they are, but for the log.
  pub authenticate-tables :
      (settings : Settings) (draws : Draws) (clock : Datetime) (request : LoginRequest)
      (store : AuthStore) {r : LoginAttempt × AuthStore}
      → authenticate_and_create_session primitives settings draws clock request store ≡ ok r
      → ((r.0 ≡ none)
          × (r.1.auth_sessions ≡ store.auth_sessions)
          × (r.1.local_users ≡ store.local_users))
        ⊎ ((user : LocalUser) × (token : Sha256) × (csrf : Sha256) × (is_admitted primitives
                request.password user
              ≡ true)
            × IsIssued settings draws (or_now clock request.now) user token csrf store r)
  unfolding authenticate_and_create_session
  authenticate-tables settings draws clock request store h =
      let now = or_now clock request.now in
      let username = or_none (normalize_username primitives request.username) in
      elim (Option-cases (named_user username store)) [
        | inl unknown ↦ inl (
            deny_login-tables draws now request username none store
              (rw (authenticate_and_create_session, unknown) at h))
        | inr (u, known) ↦ elim (Bool-cases (is_admitted primitives request.password u)) [
          | inr f ↦ inl (
              deny_login-tables draws now request username (some u) store
                (rw (authenticate_and_create_session, known, f) at h))
          | inl t ↦
              let (token, csrf, i) =
                issue_session-IsIssued settings draws now request u store
                  (rw (authenticate_and_create_session, known, t) at h) in
              inr (u, token, csrf, t, i)
        ]
      ]
