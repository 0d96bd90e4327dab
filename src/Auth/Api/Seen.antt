-- ===== src/Auth/Api/Seen.antt =====
-- The row of its session that an authenticated request writes back.
use ot_soc_fusion_x.Base.{
  >>=-eq-ok, ok-injective, ap, ◌∙◌, ◌≡◌, refl, sym, List, Any, Any-find, Any-map, str_eq, subst, ok,
  arith,
}
use ot_soc_fusion_x.Platform.{Datetime}
use ot_soc_fusion_x.Auth.Model.{AuthSession, Permission, manage_users}
use ot_soc_fusion_x.Auth.Store.{AuthStore, Primitives, Settings, find_session, put_session}
use ot_soc_fusion_x.Auth.Login.{revoked}
use ot_soc_fusion_x.Auth.Guards.{
  Request, AuthPrincipal, seen, require_authenticated, require_mutation_permission,
  require_permission, check_permission,
}
use ot_soc_fusion_x.Auth.Guards.Accepted.{require_authenticated-inversion}
use ot_soc_fusion_x.Auth.Guards.Mutations.{require_mutation_permission-inversion}
use ot_soc_fusion_x.Auth.Sessions.{IsSuccessor, Rewrite, put, put_session-there}

pub seen-IsSuccessor : (now : Datetime) (s : AuthSession) → IsSuccessor s (seen now s)
unfolding seen
seen-IsSuccessor now s = record {
  id = ground arith;
  digest = ground arith;
  user = ground arith;
  revoked = λ h. ground arith;
}

pub revoked-IsSuccessor : (now : Datetime) (s : AuthSession) → IsSuccessor s (revoked now s)
revoked-IsSuccessor now s = record {
  id = ground arith;
  digest = ground arith;
  user = ground arith;
  revoked = λ h. ground arith;
}

pub succeeded :
    (s s' : AuthSession) (rows : List AuthSession)
    → Any (λ r. r ≡ s) rows
    → IsSuccessor s s'
    → Rewrite rows (put_session s' rows)
succeeded s s' rows h i =
    put s' (Any-map _ _ rows (λ r e. subst (λ x. IsSuccessor x s') (sym e) i) h)

module _ (primitives : Primitives) (settings : Settings) where
  -- An authenticated request writes the row of its session back.
  pub authenticated-Rewrite :
      (now : Datetime) (request : Request) (store : AuthStore) {r : AuthPrincipal × AuthStore}
      → require_authenticated primitives settings now request store ≡ ok r
      → Rewrite store.auth_sessions r.1.auth_sessions
        × Any (λ x. x ≡ r.0.session) r.1.auth_sessions
        × (r.1.local_users ≡ store.local_users)
  unfolding find_session
  authenticated-Rewrite now request store h =
      let (s, user, i, same) =
        require_authenticated-inversion primitives settings now request store h in
      let kept = seen-IsSuccessor now s in
      let here =
        Any-find (λ x. IsSuccessor x (seen now s)) (λ x. str_eq x.token_digest i.digest)
          store.auth_sessions i.found kept in
      let there =
        put_session-there (seen now s) store.auth_sessions
          (Any-map _ _ store.auth_sessions (λ r k. k.id) here) in
      (rw same (put (seen now s) here), rw same there, rw same refl)

  pub mutation-Rewrite :
      (now : Datetime) (request : Request) (store : AuthStore) {r : AuthPrincipal × AuthStore}
      → require_mutation_permission primitives settings manage_users now request store ≡ ok r
      → Rewrite store.auth_sessions r.1.auth_sessions
  mutation-Rewrite now request store h =
      let (e, _, _) =
        require_mutation_permission-inversion primitives settings manage_users now request store
          h in
      (authenticated-Rewrite now request store e).0

  pub require_permission-authenticated :
      (permission : Permission) (now : Datetime) (request : Request) (store : AuthStore)
      {r : AuthPrincipal × AuthStore}
      → require_permission primitives settings permission now request store ≡ ok r
      → (p : AuthPrincipal) × (require_authenticated primitives settings now request store
          ≡ ok (p, r.1))
  unfolding require_permission
  require_permission-authenticated permission now request store h =
      let (q, e, h1) =
        >>=-eq-ok (require_authenticated primitives settings now request store) _ h in
      let (checked, _, out) =
        >>=-eq-ok (check_permission primitives settings permission q.0) _ h1 in
      (
        q.0,
        e ∙ ap (λ s. ok (q.0, s)) (ap (λ (x : AuthPrincipal × AuthStore). x.1) (ok-injective out)),
      )
