-- ===== src/Auth/Api/Logout.antt =====
-- A session that has been revoked never authenticates a request again.
use ot_soc_fusion_x.Base.{
  ◌≡◌, ◌≢◌, refl, ◌∙◌, List, [], ◌∷◌, Result, ok, err, Text, is_some, true, some, none, subst,
  >>=-eq-ok, String, arith,
}
use ot_soc_fusion_x.Platform.{Sha256, Datetime}
use ot_soc_fusion_x.Auth.Model.{AuthSession}
use ot_soc_fusion_x.Auth.Store.{
  AuthStore, AuthError, Primitives, Draws, Settings, find_session, put_session,
}
use ot_soc_fusion_x.Auth.Security.{keyed_token_digest}
use ot_soc_fusion_x.Auth.Guards.{
  Request, AuthPrincipal, require_authenticated, seen, require_csrf_protection,
}
use ot_soc_fusion_x.Auth.Guards.Accepted.{require_authenticated-inversion}
use ot_soc_fusion_x.Auth.Sessions.{IsKeyed, Rewrites, done, Rewrites-IsKeyed, Rewrite-IsKeyed}
use ot_soc_fusion_x.Auth.Sessions.Revoked.{
  IsRevoked, Rewrites-IsRevoked, find_session-IsRevoked, find_session-put, IsRevoked-of_successor,
}
use ot_soc_fusion_x.Auth.Api.{AccountRequest, sent, handle, after_commit, serve, logout}
use ot_soc_fusion_x.Auth.Api.Rows.{handle-Rewrites}
use ot_soc_fusion_x.Auth.Api.Steps.{revoke_session-tables}
use ot_soc_fusion_x.Auth.Guards.Mutations.{require_csrf_protection-same}
use ot_soc_fusion_x.Auth.Login.{revoked}
use ot_soc_fusion_x.Auth.Api.Seen.{seen-IsSuccessor, revoked-IsSuccessor, authenticated-Rewrite}

revoked_ends : (now : Datetime) (s : AuthSession) → is_some (revoked now s).revoked_at ≡ true
revoked_ends now s = ground arith

module _ (primitives : Primitives) (settings : Settings) where
  after_commit-Rewrites :
      (draws : Draws) (clock : Datetime) (request : AccountRequest) (store : AuthStore)
      (r : Result AuthError AuthStore)
      → handle primitives settings draws clock request store ≡ r
      → Rewrites store.auth_sessions (after_commit primitives settings store r).auth_sessions
  after_commit-Rewrites draws clock request store (ok store') e =
      handle-Rewrites primitives settings draws clock request store e
  after_commit-Rewrites draws clock request store (err error) e = done store.auth_sessions

  serve-IsRevoked :
      (d : Sha256) (requests : List (Draws × Datetime × AccountRequest)) (store : AuthStore)
      → IsKeyed store.auth_sessions
      → IsRevoked d store.auth_sessions
      → IsRevoked d (serve primitives settings requests store).auth_sessions
  unfolding serve
  serve-IsRevoked d [] store keyed r = r
  serve-IsRevoked d ((draws, clock, request) ∷ rest) store keyed r =
      let result = handle primitives settings draws clock request store in
      let w = after_commit-Rewrites draws clock request store result refl in
      let (keyed', r') = Rewrites-IsRevoked d w keyed r in
      serve-IsRevoked d rest (after_commit primitives settings store result) keyed' r'

  -- The identifiers of the sessions and the digests of their tokens stay unique, whatever is requested,
  -- if they are unique at the start.
  pub serve-IsKeyed :
      (requests : List (Draws × Datetime × AccountRequest)) (store : AuthStore)
      → IsKeyed store.auth_sessions
      → IsKeyed (serve primitives settings requests store).auth_sessions
  unfolding serve
  serve-IsKeyed [] store keyed = keyed
  serve-IsKeyed ((draws, clock, request) ∷ rest) store keyed =
      let result = handle primitives settings draws clock request store in
      let w = after_commit-Rewrites draws clock request store result refl in
      serve-IsKeyed rest (after_commit primitives settings store result) (Rewrites-IsKeyed w keyed)

  -- If a session with the digest of a token is there, the sessions with it are revoked, and the keys
  -- of the sessions are unique, then no request with this token is authenticated again, whatever is
  -- requested in between.
  pub stays_revoked :
      (d : Sha256) (token : Text) (store : AuthStore)
      (requests : List (Draws × Datetime × AccountRequest)) (now : Datetime) (request : Request)
      → IsKeyed store.auth_sessions
      → IsRevoked d store.auth_sessions
      → request.cookie settings.auth_session_cookie_name ≡ some token
      → keyed_token_digest primitives settings.auth_session_secret token ≡ ok d
      → (r : AuthPrincipal × AuthStore)
      → require_authenticated primitives settings now request
          (serve primitives settings requests store)
        ≢ ok r
  stays_revoked d token store requests now request keyed revoked cookie digested r h =
      let (s, user, i, _) =
        require_authenticated-inversion primitives settings now request
          (serve primitives settings requests store) h in
      let same_token : i.token ≡ token = cc (i.cookie, cookie) in
      let same : i.digest ≡ d = cc (i.digested, digested, same_token) in
      let later = serve-IsRevoked d requests store keyed revoked in
      let ended = find_session-IsRevoked d _ later (
        subst
          (λ x. find_session x (serve primitives settings requests store).auth_sessions ≡ some s)
          same i.found) in
      cc (ended, i.unrevoked)

  logout-IsRevoked :
      (draws : Draws) (clock : Datetime) (request : Request) (request_id : String)
      (store : AuthStore) {store' : AuthStore}
      → IsKeyed store.auth_sessions
      → handle primitives settings draws clock (logout request request_id) store ≡ ok store'
      → (token : Text) × (d : Sha256) × (request.cookie settings.auth_session_cookie_name
          ≡ some token)
        × (keyed_token_digest primitives settings.auth_session_secret token ≡ ok d)
        × IsRevoked d store'.auth_sessions
  unfolding handle
  logout-IsRevoked draws clock request request_id store {store'} keyed h =
      let (r, e, h1) =
        >>=-eq-ok (require_authenticated primitives settings clock (sent "POST" request) store) _
          h in
      let (q, c, h2) =
        >>=-eq-ok (require_csrf_protection primitives settings (sent "POST" request) r.0) _ h1 in
      let same : q ≡ r.0 =
        require_csrf_protection-same primitives settings (sent "POST" request) r.0 c in
      let (rows, _) =
        revoke_session-tables primitives draws clock q.session q.user request_id none r.1 h2 in
      let (s, user, i, out) =
        require_authenticated-inversion primitives settings clock (sent "POST" request) store e in
      let found =
        (find_session-put i.digest s (seen clock s) (seen-IsSuccessor clock s) store.auth_sessions
          keyed i.found).0 in
      let seen_rows =
        Rewrite-IsKeyed
          (authenticated-Rewrite primitives settings clock (sent "POST" request) store e).0 keyed in
      let stored : store'.auth_sessions
          ≡ put_session (revoked clock (seen clock s))
              (put_session (seen clock s) store.auth_sessions) =
        rw (same, out) at rows in
      (
        i.token,
        i.digest,
        i.cookie,
        i.digested,
        rw stored (
            IsRevoked-of_successor i.digest (seen clock s) (revoked clock (seen clock s))
              (put_session (seen clock s) store.auth_sessions)
              (revoked-IsSuccessor clock (seen clock s)) (rw out at seen_rows) found
              (revoked_ends clock (seen clock s))),
      )

  -- After an accepted logout no request with the same session cookie is authenticated again, whatever
  -- is requested in between, if the keys of the sessions were unique before.
  pub logout_ends :
      (draws : Draws) (clock : Datetime) (request : Request) (request_id : String)
      (store : AuthStore) {store' : AuthStore} (requests : List (Draws × Datetime × AccountRequest))
      (now : Datetime) (later : Request)
      → IsKeyed store.auth_sessions
      → handle primitives settings draws clock (logout request request_id) store ≡ ok store'
      → later.cookie settings.auth_session_cookie_name
        ≡ request.cookie settings.auth_session_cookie_name
      → (r : AuthPrincipal × AuthStore)
      → require_authenticated primitives settings now later
          (serve primitives settings requests store')
        ≢ ok r
  logout_ends draws clock request request_id store {store'} requests now later keyed h cookie =
      let (token, d, given, digested, revoked) =
        logout-IsRevoked draws clock request request_id store keyed h in
      let keyed' =
        Rewrites-IsKeyed
          (handle-Rewrites primitives settings draws clock (logout request request_id) store h)
          keyed in
      stays_revoked d token store' requests now later keyed' revoked (cookie ∙ given) digested
