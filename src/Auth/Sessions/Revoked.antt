-- ===== src/Auth/Sessions/Revoked.antt =====
-- A revoked session stays revoked, however its table is rewritten, and a session its user's.
use ot_soc_fusion_x.Base.{
  ◌≡◌, refl, ◌∙◌, true, false, some, List, [], ◌∷◌, any, str_eq, eq_iff, is_some, All, Any,
  All-find, find-test, arith, Bool-cases, ap, inl, inr, sym, subst, Any-find,
}
use ot_soc_fusion_x.Platform.{Uuid, Sha256}
use ot_soc_fusion_x.Auth.Model.{AuthSession}
use ot_soc_fusion_x.Auth.Store.{find_session, put_session}
use ot_soc_fusion_x.Auth.Sessions.{IsSuccessor, Rewrites, IsKeyed, digests, any-id, ids}
use ot_soc_fusion_x.Auth.Sessions.Known.{HoldsAt, IsKnown, Rewrites-IsKnown}

abbrev Ended : AuthSession → Type 0
Ended s = is_some s.revoked_at ≡ true

abbrev pub EndsAt : Sha256 → AuthSession → Type 0
EndsAt d = HoldsAt Ended d

-- There is a row with the digest, and all of them are revoked.
abbrev pub IsRevoked : Sha256 → List AuthSession → Type 0
IsRevoked d rows = IsKnown Ended d rows

pub Rewrites-IsRevoked :
    (d : Sha256) {rows rows' : List AuthSession}
    → Rewrites rows rows'
    → IsKeyed rows
    → IsRevoked d rows
    → IsKeyed rows' × IsRevoked d rows'
Rewrites-IsRevoked d = Rewrites-IsKnown Ended (λ s s' i. i.revoked) d

-- The sessions with the digest stay those of their user.
pub Rewrites-IsOwned :
    (id : Uuid) (d : Sha256) {rows rows' : List AuthSession}
    → Rewrites rows rows'
    → IsKeyed rows
    → IsKnown (λ s. s.user_id ≡ id) d rows
    → IsKeyed rows' × IsKnown (λ s. s.user_id ≡ id) d rows'
Rewrites-IsOwned id d = Rewrites-IsKnown (λ s. s.user_id ≡ id) (λ s s' i own. sym i.user ∙ own) d

-- What is found by the digest is revoked.
pub find_session-IsRevoked :
    (d : Sha256) (rows : List AuthSession) {s : AuthSession}
    → IsRevoked d rows
    → find_session d rows ≡ some s
    → is_some s.revoked_at ≡ true
unfolding find_session
find_session-IsRevoked d rows {s} r h =
    let same : s.token_digest ≡ d =
      (eq_iff s.token_digest d).0 (find-test (λ x. str_eq x.token_digest d) rows h) in
    All-find (EndsAt d) (λ x. str_eq x.token_digest d) rows r.holds h same

absent-holds :
    (Q : AuthSession → Type 0) (d : Sha256) (rows : List AuthSession)
    → any (λ k. str_eq k d) (digests rows) ≡ false
    → All (HoldsAt Q d) rows
absent-holds Q d [] h = tt
absent-holds Q d (x ∷ rows) h =
    (λ e. ground (arith, eq_iff x.token_digest d), absent-holds Q d rows (ground arith))

IsKeyed-of_later : (x : AuthSession) (rows : List AuthSession) → IsKeyed (x ∷ rows) → IsKeyed rows
IsKeyed-of_later x rows (i, e) = (ground arith, ground arith)

first_alone :
    (x : AuthSession) (rows : List AuthSession)
    → IsKeyed (x ∷ rows)
    → (any (λ j. str_eq j x.session_id) (ids rows) ≡ false)
      × (any (λ j. str_eq j x.token_digest) (digests rows) ≡ false)
first_alone x rows (i, e) = (ground arith, ground arith)

-- The identifier of a later row is not that of the first.
apart :
    (x : AuthSession) (rows : List AuthSession)
    → IsKeyed (x ∷ rows)
    → (k : Uuid) → Any (λ y. y.session_id ≡ k) rows
    → str_eq x.session_id k ≡ false
apart x rows keyed k h = elim (Bool-cases (str_eq x.session_id k)) [
  | inr f ↦ f
  | inl t ↦
      let same : x.session_id ≡ k = (eq_iff _ _).0 t in
      let alone =
        subst (λ j. any (λ z. str_eq z j) (ids rows) ≡ false) same (first_alone x rows keyed).0 in
      cc (alone, any-id k rows h)
]

-- The row with the digest and the one that succeeds it, where the keys are unique.
module _ (d : Sha256) (s s' : AuthSession) (i : IsSuccessor s s') where
  pub find_session-put :
      (rows : List AuthSession)
      → IsKeyed rows
      → find_session d rows ≡ some s
      → (find_session d (put_session s' rows) ≡ some s')
        × (is_some s'.revoked_at ≡ true → All (EndsAt d) (put_session s' rows))
  unfolding find_session put_session
  find_session-put [] keyed h = cc
  find_session-put (x ∷ rows) keyed h = elim (Bool-cases (str_eq x.token_digest d)) [
    | inl t ↦
        let same : x ≡ s = cc (rw t at h) in
        let at : x.token_digest ≡ d = (eq_iff _ _).0 t in
        let key : str_eq x.session_id s'.session_id ≡ true =
          (eq_iff _ _).1 (ap (λ (y : AuthSession). y.session_id) same ∙ i.id) in
        let at' : str_eq s'.token_digest d ≡ true =
          (eq_iff _ _).1
            (sym i.digest ∙ ap (λ (y : AuthSession). y.token_digest) (sym same) ∙ at) in
        let alone : any (λ k. str_eq k d) (digests rows) ≡ false =
          subst (λ k. any (λ j. str_eq j k) (digests rows) ≡ false) at
            (first_alone x rows keyed).1 in
        (rw (key, at') refl, λ r. rw key (λ e. r, absent-holds Ended d rows alone))
    | inr f ↦
        let (found, ended) = find_session-put rows (IsKeyed-of_later x rows keyed) (rw f at h) in
        let other : str_eq x.session_id s'.session_id ≡ false = apart x rows keyed s'.session_id (
          Any-find (λ y. y.session_id ≡ s'.session_id) (λ y. str_eq y.token_digest d) rows
            (rw f at h) i.id) in
        (rw (other, f) found, λ r. rw other ((λ e. cc (f, (eq_iff x.token_digest d).1 e)), ended r))
  ]

found_known :
    (d : Sha256) (rows : List AuthSession) {s : AuthSession}
    → find_session d rows ≡ some s
    → any (λ k. str_eq k d) (digests rows) ≡ true
unfolding find_session
found_known d [] h = cc
found_known d (x ∷ rows) {s} h = ground (arith, found_known d rows {s = s})

-- Once the row of a digest is succeeded by one that is revoked, its digest is.
pub IsRevoked-of_successor :
    (d : Sha256) (s s' : AuthSession) (rows : List AuthSession)
    → IsSuccessor s s'
    → IsKeyed rows
    → find_session d rows ≡ some s
    → is_some s'.revoked_at ≡ true
    → IsRevoked d (put_session s' rows)
IsRevoked-of_successor d s s' rows i keyed h r =
    let (found, ended) = find_session-put d s s' i rows keyed h in
    record { known = found_known d (put_session s' rows) found; holds = ended r }

-- Where the keys are unique, what holds of the row that is found by the digest holds of all with it.
pub found-IsKnown :
    (Q : AuthSession → Type 0) (d : Sha256) (rows : List AuthSession) {s : AuthSession}
    → IsKeyed rows
    → find_session d rows ≡ some s
    → Q s
    → IsKnown Q d rows
unfolding find_session
found-IsKnown Q d [] keyed h q = cc
found-IsKnown Q d (x ∷ rows) {s} keyed h q = elim (Bool-cases (str_eq x.token_digest d)) [
  | inl t ↦
      let same : s ≡ x = cc (rw t at h) in
      let at : x.token_digest ≡ d = (eq_iff _ _).0 t in
      let alone : any (λ k. str_eq k d) (digests rows) ≡ false =
        subst (λ k. any (λ j. str_eq j k) (digests rows) ≡ false) at (first_alone x rows keyed).1 in
      record {
        known = found_known d (x ∷ rows) {s = s} h;
        holds = (λ e. subst Q same q, absent-holds Q d rows alone);
      }
  | inr f ↦
      let rest = found-IsKnown Q d rows {s = s} (IsKeyed-of_later x rows keyed) (rw f at h) q in
      record {
        known = found_known d (x ∷ rows) {s = s} h;
        holds = (λ e. absurd (cc (f, (eq_iff x.token_digest d).1 e)), rest.holds);
      }
]
