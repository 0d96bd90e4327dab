-- ===== src/Auth/Guards/Mutations.antt =====
-- What a request that changes something has passed in backend/app/auth/dependencies.py.
use ot_soc_fusion_x.Base.{
  ◌≡◌, true, some, ok, str_eq, arith, Bool-cases, inl, inr, Text, >>=-eq-ok, guard-eq-ok,
  or_raise-eq-ok, sym, ◌∙◌, ap, ◌>>=◌,
}
use ot_soc_fusion_x.Platform.{Sha256, Datetime}
use ot_soc_fusion_x.Auth.Model.{Permission}
use ot_soc_fusion_x.Auth.Store.{AuthStore, Primitives, Settings}
use ot_soc_fusion_x.Auth.Security.{keyed_token_digest}
use ot_soc_fusion_x.Auth.Guards.{
  Request, AuthPrincipal, require_authenticated, require_csrf_protection, check_permission,
  require_mutation_permission, has_permission, is_allowed_origin, double_submitted, changes_state,
  csrf_rejected, submitted_token,
}

module _ (primitives : Primitives) (settings : Settings) where
  pub require_csrf_protection-same :
      (request : Request) (p : AuthPrincipal) {q : AuthPrincipal}
      → require_csrf_protection primitives settings request p ≡ ok q
      → q ≡ p
  unfolding require_csrf_protection
  require_csrf_protection-same request p {q} h =
      elim (Bool-cases (changes_state primitives settings request)) [
        | inr f ↦ cc (rw f at h)
        | inl t ↦
            let (token, _, h2) =
              >>=-eq-ok (submitted_token primitives settings request) _ (rw t at h) in
            let (digest, _, h3) =
              >>=-eq-ok (keyed_token_digest primitives settings.auth_session_secret token) _ h2 in
            let (_, h4) =
              guard-eq-ok (str_eq digest p.session.csrf_digest) csrf_rejected (ok p) h3 in
            cc h4
      ]

  pub require_mutation_permission-inversion :
      (permission : Permission) (now : Datetime) (request : Request) (store : AuthStore)
      {r : AuthPrincipal × AuthStore}
      → require_mutation_permission primitives settings permission now request store ≡ ok r
      → (require_authenticated primitives settings now request store ≡ ok r)
        × (require_csrf_protection primitives settings request r.0 ≡ ok r.0)
        × (has_permission r.0 permission ≡ true)
  unfolding require_mutation_permission check_permission
  require_mutation_permission-inversion permission now request store {r} h =
      let ((p, seen), e, h1) =
        >>=-eq-ok (require_authenticated primitives settings now request store) _ h in
      let (q, c, h2) = >>=-eq-ok (require_csrf_protection primitives settings request p) _ h1 in
      let same : q ≡ p = require_csrf_protection-same request p c in
      let h3 : (check_permission primitives settings permission p
            >>= (λ checked. ok (checked, seen)))
          ≡ ok r =
        rw same at h2 in
      let (checked, k, h4) = >>=-eq-ok (check_permission primitives settings permission p) _ h3 in
      let (granted, h5) = guard-eq-ok (has_permission p permission) _ _ k in
      let out : r ≡ (p, seen) = cc (h4, h5) in
      (e ∙ ap (λ x. ok x) (sym out), rw out (c ∙ ap (λ x. ok x) same), rw out granted)

  -- A request that changes something has a token from an approved origin whose digest the session has.
  pub require_csrf_protection-inversion :
      (request : Request) (p : AuthPrincipal)
      → changes_state primitives settings request ≡ true
      → require_csrf_protection primitives settings request p ≡ ok p
      → (token : Text) × (digest : Sha256) × (submitted_token primitives settings request
          ≡ ok token)
        × (keyed_token_digest primitives settings.auth_session_secret token ≡ ok digest)
        × (str_eq digest p.session.csrf_digest ≡ true)
  unfolding require_csrf_protection
  require_csrf_protection-inversion request p unsafe h = ground arith

  -- The token is in the header and in the cookie, and the origin is approved.
  pub submitted_token-inversion :
      (request : Request) {token : Text}
      → submitted_token primitives settings request ≡ ok token
      → (is_allowed_origin settings (request.header "Origin") ≡ true)
        × (double_submitted
              (request.header "X-CSRF-Token")
              (request.cookie settings.auth_csrf_cookie_name)
            ≡ some token)
  unfolding submitted_token
  submitted_token-inversion request h =
      let (origin, given) =
        guard-eq-ok (is_allowed_origin settings (request.header "Origin")) _ _ h in
      (origin, or_raise-eq-ok csrf_rejected _ given)
