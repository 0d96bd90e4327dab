-- ===== src/Auth/Sessions/Known.antt =====
-- What holds of the sessions with the digest of a token, however their table is rewritten.
use ot_soc_fusion_x.Base.{
  ◌≡◌, refl, ◌∙◌, true, ◌||◌, some, List, [], ◌∷◌, any, str_eq, All, All-append, All-Any,
  any-append, Bool-cases, ap, inl, inr,
}
use ot_soc_fusion_x.Platform.{Uuid, Sha256, Datetime}
use ot_soc_fusion_x.Auth.Model.{AuthSession}
use ot_soc_fusion_x.Auth.Store.{put_session}
use ot_soc_fusion_x.Auth.Users.{revoked_sessions, is_open_of}
use ot_soc_fusion_x.Auth.Sessions.{
  IsSuccessor, Rewrite, put, revoke, add, Rewrites, done, next, IsKeyed, digests, put_session-keys,
  revoked_sessions-keys, fresh-keys, Rewrite-IsKeyed, map-append,
}

-- The row is not of the digest, or Q holds of it.
abbrev pub HoldsAt : (AuthSession → Type 0) → Sha256 → AuthSession → Type 0
HoldsAt Q d s = s.token_digest ≡ d → Q s

-- There is a row with the digest, and Q holds of all of them.
pub record IsKnown (Q : AuthSession → Type 0) (d : Sha256) (rows : List AuthSession) : Type 0 where
  pub known : any (λ k. str_eq k d) (digests rows) ≡ true
  pub holds : All (HoldsAt Q d) rows

put_session-All :
    (P : AuthSession → Type 0) (s : AuthSession) (rows : List AuthSession)
    → All P rows
    → P s
    → All P (put_session s rows)
unfolding put_session
put_session-All P s [] all h = tt
put_session-All P s (x ∷ rows) all h = elim (Bool-cases (str_eq x.session_id s.session_id)) [
  | inl t ↦ rw t (h, all.1)
  | inr f ↦ rw f (all.0, put_session-All P s rows all.1 h)
]

revoked_row-IsSuccessor :
    (at : Datetime) (x : AuthSession) → IsSuccessor x (record x { revoked_at = some at })
revoked_row-IsSuccessor at x = record { id = refl; digest = refl; user = refl; revoked = λ h. refl }

-- What every successor of a row keeps is kept, however the table is rewritten.
module _ (Q : AuthSession → Type 0) (keeps : (s s' : AuthSession) → IsSuccessor s s' → Q s → Q s')
    (d : Sha256) where
  revoked_sessions-holds :
      (user_id : Uuid) (at : Datetime) (rows : List AuthSession)
      → All (HoldsAt Q d) rows
      → All (HoldsAt Q d) (revoked_sessions user_id at rows)
  unfolding revoked_sessions
  revoked_sessions-holds user_id at [] all = tt
  revoked_sessions-holds user_id at (x ∷ rows) all =
      let rest = revoked_sessions-holds user_id at rows all.1 in
      elim (Bool-cases (is_open_of user_id x)) [
        | inl t ↦ rw t (λ e. keeps x _ (revoked_row-IsSuccessor at x) (all.0 e), rest)
        | inr f ↦ rw f (all.0, rest)
      ]

  Rewrite-IsKnown :
      {rows rows' : List AuthSession}
      → Rewrite rows rows'
      → IsKeyed rows
      → IsKnown Q d rows
      → IsKnown Q d rows'
  Rewrite-IsKnown {rows} (put s h) (i, e) r =
      let (_, same) = put_session-keys s rows i h in
      let (before, holds, succeeds) = All-Any (HoldsAt Q d) (λ x. IsSuccessor x s) rows r.holds h in
      record {
        known = rw same (r.known);
        holds =
            put_session-All (HoldsAt Q d) s rows r.holds
              (λ at. keeps before s succeeds (holds (succeeds.digest ∙ at)));
      }
  Rewrite-IsKnown {rows} (revoke user_id at) keyed r =
      let (_, same) = revoked_sessions-keys user_id at rows in
      record { known = rw same (r.known); holds = revoked_sessions-holds user_id at rows r.holds }
  Rewrite-IsKnown {rows} (add s h) keyed r =
      let (_, new) = fresh-keys s rows h in
      record {
        known = rw (map-append (λ (x : AuthSession). x.token_digest) rows (s ∷ [])) (
            any-append (λ k. str_eq k d) (digests rows) (s.token_digest ∷ [])
            ∙ ap (λ b. b || any (λ k. str_eq k d) (s.token_digest ∷ [])) r.known);
        holds =
            All-append (HoldsAt Q d) rows (s ∷ []) r.holds (λ at. cc (rw at at new, r.known), tt);
      }

  pub Rewrites-IsKnown :
      {rows rows' : List AuthSession}
      → Rewrites rows rows'
      → IsKeyed rows
      → IsKnown Q d rows
      → IsKeyed rows' × IsKnown Q d rows'
  Rewrites-IsKnown (done rows) keyed r = (keyed, r)
  Rewrites-IsKnown (next rows between after w rest) keyed r =
      Rewrites-IsKnown rest (Rewrite-IsKeyed w keyed) (Rewrite-IsKnown w keyed r)
