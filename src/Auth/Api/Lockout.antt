-- ===== src/Auth/Api/Lockout.antt =====
-- Disabling a user or resetting the password in backend/app/api/auth.py ends the user's sessions.
use ot_soc_fusion_x.Base.{
  Text, ◌≡◌, ◌≢◌, refl, ◌∙◌, List, [], ◌∷◌, ok, is_some, true, false, some, All, arith, >>=-eq-ok,
  ok-injective, eq_iff,
}
use ot_soc_fusion_x.Platform.{Uuid, Sha256, Datetime}
use ot_soc_fusion_x.Auth.Model.{AuthSession, manage_users}
use ot_soc_fusion_x.Auth.Store.{AuthStore, Primitives, Draws, Settings, find_session}
use ot_soc_fusion_x.Auth.Guards.{
  Request, AuthPrincipal, require_authenticated, require_mutation_permission,
}
use ot_soc_fusion_x.Auth.Users.{
  UserUpdate, PasswordReset, revoked_sessions, update_local_user, reset_local_user_password,
}
use ot_soc_fusion_x.Auth.Users.Outcome.{
  next_role, next_active, update_local_user-inversion, reset_local_user_password-inversion,
  locked_user-inversion,
}
use ot_soc_fusion_x.Auth.Api.{
  AccountRequest, patch_user, reset_user_password, handle, sent, serve, update_by, reset_by,
  reraised,
}
use ot_soc_fusion_x.Auth.Api.Rows.{handle-Rewrites, reraised-eq-ok, updated-sessions}
use ot_soc_fusion_x.Auth.Security.{keyed_token_digest}
use ot_soc_fusion_x.Auth.Sessions.{IsKeyed}
use ot_soc_fusion_x.Auth.Sessions.Known.{HoldsAt}
use ot_soc_fusion_x.Auth.Sessions.Revoked.{IsRevoked, EndsAt, Rewrites-IsOwned, found-IsKnown}
use ot_soc_fusion_x.Auth.Api.Logout.{stays_revoked}
use ot_soc_fusion_x.Auth.Users.Administrators.{find_user-id}

-- The request disables the user, or gives a new password.
pub data IsLockout (id : Uuid) : AccountRequest → Type 0 where
  disabled :
      (request : Request) (update : UserUpdate)
      → update.user_id ≡ id
      → update.active ≡ some false
      → IsLockout id (patch_user request update)
  reset :
      (request : Request) (change : PasswordReset)
      → change.user_id ≡ id
      → IsLockout id (reset_user_password request change)

-- The session is of another user, or revoked.
abbrev EndsFor : Uuid → AuthSession → Type 0
EndsFor id s = s.user_id ≡ id → is_some s.revoked_at ≡ true

revoked_sessions-All :
    (id : Uuid) (at : Datetime) (rows : List AuthSession)
    → All (EndsFor id) (revoked_sessions id at rows)
unfolding revoked_sessions
revoked_sessions-All id at [] = tt
revoked_sessions-All id at (x ∷ rows) =
    (λ e. ground (arith, eq_iff x.user_id id), revoked_sessions-All id at rows)

-- Where the sessions of the user are revoked, those with the digest of one of them are.
lockout-All :
    (id : Uuid) (d : Sha256) (rows : List AuthSession)
    → All (EndsFor id) rows
    → All (HoldsAt (λ s. s.user_id ≡ id) d) rows
    → All (EndsAt d) rows
lockout-All id d [] ends own = tt
lockout-All id d (x ∷ rows) ends own = (λ e. ends.0 (own.0 e), lockout-All id d rows ends.1 own.1)

module _ (primitives : Primitives) (settings : Settings) where
  -- What an accepted request of the two kinds leaves of the sessions.
  lockout-sessions :
      (id : Uuid) (draws : Draws) (clock : Datetime) (request : AccountRequest) (store : AuthStore)
      {store' : AuthStore}
      → IsLockout id request
      → handle primitives settings draws clock request store ≡ ok store'
      → All (EndsFor id) store'.auth_sessions
  unfolding handle
  lockout-sessions id draws clock request store {store'} (disabled web update same off) h =
      let (r, e, h1) =
        >>=-eq-ok
          (require_mutation_permission primitives settings manage_users clock (sent "PATCH" web)
            store)
          _ h in
      let (q, c, h2) =
        >>=-eq-ok (reraised (update_local_user primitives draws clock (update_by r.0 update) r.1)) _
          h1 in
      let (target, name, locked, _, _, _, _, rows) =
        update_local_user-inversion primitives draws clock r.1 (update_by r.0 update)
          (reraised-eq-ok _ c) in
      let (found, _) =
        locked_user-inversion primitives draws clock r.1 update.user_id update.expected_version
          locked in
      let kept =
        updated-sessions clock (update_by r.0 update) target name (next_role target update)
          (next_active target update) r.1 in
      let inactive : next_active target update ≡ false = rw off refl in
      let owner : target.user_id ≡ id = find_user-id update.user_id r.1.local_users found ∙ same in
      rw (← ok-injective h2, rows, kept, inactive, owner)
        (revoked_sessions-All id clock r.1.auth_sessions)
  lockout-sessions id draws clock request store {store'} (reset web change same) h =
      let (r, e, h1) =
        >>=-eq-ok
          (require_mutation_permission primitives settings manage_users clock (sent "POST" web)
            store)
          _ h in
      let (q, c, h2) =
        >>=-eq-ok
          (reraised (reset_local_user_password primitives draws clock (reset_by r.0 change) r.1)) _
          h1 in
      let (target, _, locked, _, _, _, rows) =
        reset_local_user_password-inversion primitives draws clock r.1 (reset_by r.0 change)
          (reraised-eq-ok _ c) in
      let (found, _) =
        locked_user-inversion primitives draws clock r.1 change.user_id change.expected_version
          locked in
      let owner : target.user_id ≡ id = find_user-id change.user_id r.1.local_users found ∙ same in
      rw (← ok-injective h2, rows, owner) (revoked_sessions-All id clock r.1.auth_sessions)

  -- Once a request that disables a user or resets their password is accepted, no request with a session
  -- cookie that was one of this user's before is authenticated again, whatever is requested in between,
  -- if the keys of the sessions were unique before.
  pub lockout :
      (id : Uuid) (draws : Draws) (clock : Datetime) (request : AccountRequest) (store : AuthStore)
      {store' : AuthStore} (requests : List (Draws × Datetime × AccountRequest)) (now : Datetime)
      (later : Request) (token : Text) (d : Sha256) (s : AuthSession)
      → IsLockout id request
      → IsKeyed store.auth_sessions
      → handle primitives settings draws clock request store ≡ ok store'
      → later.cookie settings.auth_session_cookie_name ≡ some token
      → keyed_token_digest primitives settings.auth_session_secret token ≡ ok d
      → find_session d store.auth_sessions ≡ some s
      → s.user_id ≡ id
      → (r : AuthPrincipal × AuthStore)
      → require_authenticated primitives settings now later
          (serve primitives settings requests store')
        ≢ ok r
  lockout id draws clock request store {store'} requests now later token d s kind keyed h cookie
        digested found own =
      let before = found-IsKnown (λ x. x.user_id ≡ id) d store.auth_sessions keyed found own in
      let (keyed', owned) =
        Rewrites-IsOwned id d (handle-Rewrites primitives settings draws clock request store h)
          keyed before in
      let revoked : IsRevoked d store'.auth_sessions = record {
        known = owned.known;
        holds =
            lockout-All id d store'.auth_sessions
              (lockout-sessions id draws clock request store kind h) owned.holds;
      } in
      stays_revoked primitives settings d token store' requests now later keyed' revoked cookie
        digested
