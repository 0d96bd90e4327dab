-- ===== src/Auth/Guards/Accepted.antt =====
-- Which requests backend/app/auth/dependencies.py lets pass.
use ot_soc_fusion_x.Base.{◌<◌, ◌≡◌, ◌↔◌, refl, true, false, none, some, ok, arith, Text, leb}
use ot_soc_fusion_x.Platform.{Sha256, Datetime}
use ot_soc_fusion_x.Auth.Model.{LocalUser, AuthSession, role_permissions}
use ot_soc_fusion_x.Auth.Store.{
  AuthStore, Primitives, Settings, find_session, find_user, put_session,
}
use ot_soc_fusion_x.Auth.Security.{keyed_token_digest, safe_token_shape, is_token}
use ot_soc_fusion_x.Auth.Guards.{Request, AuthPrincipal, require_authenticated, is_ended, seen}

-- The principal of the session, with the session as it is written back.
abbrev pub principal_of : Datetime → AuthSession → LocalUser → AuthPrincipal
principal_of now session user = record {
  user = user;
  session = seen now session;
  permissions = role_permissions user.role;
}

abbrev pub seen_store : Datetime → AuthSession → AuthStore → AuthStore
seen_store now session store = record store {
  auth_sessions = put_session (seen now session) store.auth_sessions;
}

module _ (primitives : Primitives) (settings : Settings) where
  -- The cookie carries a well-shaped token, whose digest is that of a session that is neither revoked
  -- nor expired, of a user that is active.
  pub record IsAuthenticated (now : Datetime) (request : Request) (store : AuthStore)
      (session : AuthSession) (user : LocalUser) : Type 0 where
    pub token : Text
    pub cookie : request.cookie settings.auth_session_cookie_name ≡ some token
    pub shape : is_token token ≡ true
    pub digest : Sha256
    pub digested : keyed_token_digest primitives settings.auth_session_secret token ≡ ok digest
    pub found : find_session digest store.auth_sessions ≡ some session
    pub owner : find_user session.user_id store.local_users ≡ some user
    pub unrevoked : session.revoked_at ≡ none
    pub current : now < session.expires_at
    pub active : user.active ≡ true

  pub require_authenticated_of :
      (now : Datetime) (request : Request) (store : AuthStore) (session : AuthSession)
      (user : LocalUser)
      → IsAuthenticated now request store session user
      → require_authenticated primitives settings now request store
        ≡ ok (principal_of now session user, seen_store now session store)
  unfolding require_authenticated safe_token_shape is_ended
  require_authenticated_of now request store session user h =
      let late : leb session.expires_at now ≡ false = let c = h.current in ground arith in
      rw (h.cookie, h.shape, h.digested, h.found, h.owner, h.unrevoked, late, h.active) refl

  authenticated_parts :
      (now : Datetime) (request : Request) (store : AuthStore) {r : AuthPrincipal × AuthStore}
      → require_authenticated primitives settings now request store ≡ ok r
      → (token : Text) × (digest : Sha256) × (session : AuthSession) × (user : LocalUser)
        × (request.cookie settings.auth_session_cookie_name ≡ some token)
        × (is_token token ≡ true)
        × (keyed_token_digest primitives settings.auth_session_secret token ≡ ok digest)
        × (find_session digest store.auth_sessions ≡ some session)
        × (find_user session.user_id store.local_users ≡ some user)
        × (session.revoked_at ≡ none)
        × (leb session.expires_at now ≡ false)
        × (user.active ≡ true)
        × (r ≡ (principal_of now session user, seen_store now session store))
  unfolding require_authenticated safe_token_shape is_ended
  authenticated_parts now request store h = ground arith

  pub require_authenticated-inversion :
      (now : Datetime) (request : Request) (store : AuthStore) {r : AuthPrincipal × AuthStore}
      → require_authenticated primitives settings now request store ≡ ok r
      → (session : AuthSession) × (user : LocalUser) × IsAuthenticated now request store session
          user
        × (r ≡ (principal_of now session user, seen_store now session store))
  require_authenticated-inversion now request store h =
      let (
        token, digest, session, user, cookie, shape, digested, found, owner, unrevoked, late,
        active, same,
      ) =
        authenticated_parts now request store h in
      (
        session,
        user,
        record {
          token = token;
          cookie = cookie;
          shape = shape;
          digest = digest;
          digested = digested;
          found = found;
          owner = owner;
          unrevoked = unrevoked;
          current = ground arith;
          active = active;
        },
        same,
      )

  -- A request is authenticated exactly if its cookie carries a well-shaped token whose digest is that of
  -- a session that is neither revoked nor expired, of a user that is active.
  pub require_authenticated_iff :
      (now : Datetime) (request : Request) (store : AuthStore)
      → ((r : AuthPrincipal × AuthStore) × (require_authenticated primitives settings now request
              store
            ≡ ok r))
        ↔ ((session : AuthSession) × (user : LocalUser) × IsAuthenticated now request store session
              user)
  require_authenticated_iff now request store = (
    λ (r, h).
        let (session, user, i, same) = require_authenticated-inversion now request store h in
        (session, user, i),
    λ (session, user, i). (_, require_authenticated_of now request store session user i),
  )
