-- ===== src/Auth/Sessions.antt =====
-- What backend/app/auth does to the rows of `auth_sessions`: the four ways in which its operations
-- rewrite them, and what these keep.
pub mod Known
pub mod Revoked
use ot_soc_fusion_x.Base.{
  ◌≡◌, refl, inl, inr, Bool, true, not, ◌||◌, List, [], ◌∷◌, ◌++◌, any, str_eq, is_some, Any,
  Bool-cases, sym, ap, ◌∙◌, ◌&&◌, arith, String, eq_iff, map, false, any-append, Any-map,
}
use ot_soc_fusion_x.Platform.{Uuid, Datetime}
use ot_soc_fusion_x.Auth.Model.{AuthSession}
use ot_soc_fusion_x.Auth.Store.{put_session}
use ot_soc_fusion_x.Auth.Users.{revoked_sessions}

-- The row after an operation: of the same session, and still revoked if it was.
pub record IsSuccessor (before after : AuthSession) : Type 0 where
  pub id : before.session_id ≡ after.session_id
  pub digest : before.token_digest ≡ after.token_digest
  pub user : before.user_id ≡ after.user_id
  pub revoked : is_some before.revoked_at ≡ true → is_some after.revoked_at ≡ true

-- No other row has its identifier or its digest.
abbrev pub is_fresh : AuthSession → List AuthSession → Bool
is_fresh s rows =
    not (any (λ r. str_eq r.session_id s.session_id || str_eq r.token_digest s.token_digest) rows)

-- One rewriting of the rows.
pub data Rewrite (rows : List AuthSession) : List AuthSession → Type 0 where
  put : (s : AuthSession) → Any (λ r. IsSuccessor r s) rows → Rewrite rows (put_session s rows)
  revoke : (user_id : Uuid) (at : Datetime) → Rewrite rows (revoked_sessions user_id at rows)
  add : (s : AuthSession) → is_fresh s rows ≡ true → Rewrite rows (rows ++ s ∷ [])

-- Some rewritings one after another.
pub data Rewrites : List AuthSession → List AuthSession → Type 0 where
  done : (rows : List AuthSession) → Rewrites rows rows
  next :
      (rows between after : List AuthSession)
      → Rewrite rows between
      → Rewrites between after
      → Rewrites rows after

-- The row that is put is there, if one with its key was.
pub put_session-there :
    (s : AuthSession) (rows : List AuthSession)
    → Any (λ r. r.session_id ≡ s.session_id) rows
    → Any (λ r. r ≡ s) (put_session s rows)
unfolding put_session
put_session-there s [] h = elim h [ ]
put_session-there s (x ∷ rows) (inl h) =
    let here : str_eq x.session_id s.session_id ≡ true = (eq_iff _ _).1 h in rw here (inl refl)
put_session-there s (x ∷ rows) (inr h) = elim (Bool-cases (str_eq x.session_id s.session_id)) [
  | inl t ↦ rw t (inl refl)
  | inr f ↦ rw f (inr (put_session-there s rows h))
]

abbrev pub distinct : List String → Bool
distinct [] = true
distinct (k ∷ keys) = not (any (λ j. str_eq j k) keys) && distinct keys

abbrev pub ids : List AuthSession → List String
ids rows = map (λ s. s.session_id) rows

abbrev pub digests : List AuthSession → List String
digests rows = map (λ s. s.token_digest) rows

-- The identifiers and the digests are unique, as the schema of the table says.
abbrev pub IsKeyed : List AuthSession → Type 0
IsKeyed rows = (distinct (ids rows) ≡ true) × (distinct (digests rows) ≡ true)

pub any-id :
    (k : Uuid) (rows : List AuthSession)
    → Any (λ r. r.session_id ≡ k) rows
    → any (λ j. str_eq j k) (ids rows) ≡ true
any-id k [] h = elim h [ ]
any-id k (x ∷ rows) (inl h) = ground (arith, eq_iff x.session_id k)
any-id k (x ∷ rows) (inr h) = ground (arith, any-id k rows h)

-- A row is put over the one that it succeeds, so the keys stay.
pub put_session-keys :
    (s : AuthSession) (rows : List AuthSession)
    → distinct (ids rows) ≡ true
    → Any (λ r. IsSuccessor r s) rows
    → (ids (put_session s rows) ≡ ids rows) × (digests (put_session s rows) ≡ digests rows)
unfolding put_session
put_session-keys s [] d h = elim h [ ]
put_session-keys s (x ∷ rows) d (inl h) =
    let here : str_eq x.session_id s.session_id ≡ true = (eq_iff _ _).1 h.id in
    rw here (ap (λ k. k ∷ ids rows) (sym h.id), ap (λ k. k ∷ digests rows) (sym h.digest))
put_session-keys s (x ∷ rows) d (inr h) = elim (Bool-cases (str_eq x.session_id s.session_id)) [
  | inl t ↦
      let same : x.session_id ≡ s.session_id = (eq_iff _ _).0 t in
      let there = any-id x.session_id rows (Any-map _ _ rows (λ r i. i.id ∙ sym same) h) in
      ground arith
  | inr f ↦
      let (i, e) = put_session-keys s rows (ground arith) h in
      rw f (ap (λ ks. x.session_id ∷ ks) i, ap (λ ks. x.token_digest ∷ ks) e)
]

pub revoked_sessions-keys :
    (user_id : Uuid) (at : Datetime) (rows : List AuthSession)
    → (ids (revoked_sessions user_id at rows) ≡ ids rows)
      × (digests (revoked_sessions user_id at rows) ≡ digests rows)
unfolding revoked_sessions
revoked_sessions-keys user_id at [] = (refl, refl)
revoked_sessions-keys user_id at (x ∷ rows) =
    let (i, e) = revoked_sessions-keys user_id at rows in (ground (arith, i), ground (arith, e))

distinct-append :
    (keys : List String) (k : String)
    → distinct keys ≡ true
    → any (λ j. str_eq j k) keys ≡ false
    → distinct (keys ++ k ∷ []) ≡ true
distinct-append [] k d f = refl
distinct-append (j ∷ keys) k d f =
    let others = distinct-append keys k (ground arith) (ground arith) in
    ground (arith, any-append (λ i. str_eq i j) keys (k ∷ []), eq_iff j k, eq_iff k j, others)

pub fresh-keys :
    (s : AuthSession) (rows : List AuthSession)
    → is_fresh s rows ≡ true
    → (any (λ j. str_eq j s.session_id) (ids rows) ≡ false)
      × (any (λ j. str_eq j s.token_digest) (digests rows) ≡ false)
fresh-keys s [] h = (refl, refl)
fresh-keys s (x ∷ rows) h =
    let (i, e) = fresh-keys s rows (ground arith) in (ground (arith, i), ground (arith, e))

pub map-append {ℓ κ} :
    {A : Type ℓ} {B : Type κ} (f : A → B) (xs ys : List A) → map f (xs ++ ys) ≡ map f xs ++ map f ys
map-append f [] ys = refl
map-append f (x ∷ xs) ys = ap (λ zs. f x ∷ zs) (map-append f xs ys)

-- Every rewriting keeps the identifiers and the digests unique.
pub Rewrite-IsKeyed :
    {rows rows' : List AuthSession} → Rewrite rows rows' → IsKeyed rows → IsKeyed rows'
Rewrite-IsKeyed {rows} (put s h) (i, e) =
    let (i', e') = put_session-keys s rows i h in (rw i' i, rw e' e)
Rewrite-IsKeyed {rows} (revoke user_id at) (i, e) =
    let (i', e') = revoked_sessions-keys user_id at rows in (rw i' i, rw e' e)
Rewrite-IsKeyed {rows} (add s h) (i, e) =
    let (fi, fe) = fresh-keys s rows h in
    (
      rw (map-append (λ (r : AuthSession). r.session_id) rows (s ∷ []))
          (distinct-append (ids rows) s.session_id i fi),
      rw (map-append (λ (r : AuthSession). r.token_digest) rows (s ∷ []))
          (distinct-append (digests rows) s.token_digest e fe),
    )

pub Rewrites-IsKeyed :
    {rows rows' : List AuthSession} → Rewrites rows rows' → IsKeyed rows → IsKeyed rows'
Rewrites-IsKeyed (done rows) keyed = keyed
Rewrites-IsKeyed (next rows between after w rest) keyed =
    Rewrites-IsKeyed rest (Rewrite-IsKeyed w keyed)
