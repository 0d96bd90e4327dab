-- ===== src/Incidents/Versions.antt =====
-- The expected version of a request protects against lost updates.
use ot_soc_fusion_x.Base.{
  ℕ, ◌+◌, ◌≤◌, ◌≡◌, refl, ◌∙◌, ap, inl, inr, Option, none, some, List, [], ◌∷◌, ok, err, Result,
  str_eq, eq_iff, Bool-cases, arith, >>=-eq-ok, subst,
}
use ot_soc_fusion_x.Platform.{Platform, Uuid, Datetime}
use ot_soc_fusion_x.Incidents.Tables.{Incident}
use ot_soc_fusion_x.Incidents.Store.{Session, Error, find_incident, put_incident}
use ot_soc_fusion_x.Incidents.Notes.{NoteRequest, add_analyst_note, record_note}
use ot_soc_fusion_x.Incidents.Lifecycle.{
  StatusRequest, transition_incident_status, record_transition,
}
use ot_soc_fusion_x.Incidents.Lifecycle.Outcome.{transition-inversion}
use ot_soc_fusion_x.Incidents.Workflow.{
  AssignmentRequest, DispositionRequest, assign_incident, set_incident_disposition,
  record_assignment, record_disposition,
}
use ot_soc_fusion_x.Incidents.Operations.{
  Operation, note, transition, assign, dispose, report, run, serve, committed,
}
use ot_soc_fusion_x.Incidents.Change.{Change}
use ot_soc_fusion_x.Incidents.Change.OfOperation.{
  run-Change, add_analyst_note-inversion, assign_incident-inversion,
  set_incident_disposition-inversion,
}
use ot_soc_fusion_x.Incidents.Store.Laws.{find_incident-id, find_incident-put_self}

pub some-injective {ℓ} : {A : Type ℓ} {x y : A} → some x ≡ some y → x ≡ y
some-injective e = cc

-- The incident and the version of it that a request was written against; a report has a version of
-- its own.
abbrev pub expects : Operation → Option (Uuid × ℕ)
expects (note r) = some (r.incident_id, r.expected_version)
expects (transition r) = some (r.incident_id, r.expected_version)
expects (assign r) = some (r.incident_id, r.expected_version)
expects (dispose r) = some (r.incident_id, r.expected_version)
expects (report r) = none

-- An incident stays, and its version does not fall.
pub record Grows (s s' : Session) : Type 0 where
  pub at :
      (id : Uuid) (i : Incident)
      → find_incident id s.incidents ≡ some i
      → (i' : Incident) × (find_incident id s'.incidents ≡ some i') × (i.version ≤ i'.version)

Change-Grows : {s s' : Session} → Change s s' → Grows s s'
Change-Grows c = record {
  at = λ j i found. elim (Bool-cases (str_eq c.id j)) [
    | inl same ↦
        let e = (eq_iff c.id j).0 same in
        let before : c.before ≡ i = cc (c.found, found, e) in
        (c.after, rw (← e) c.stored, rw (← before) (omega (arith, c.version)))
    | inr different ↦
        let ne : ¬ (c.id ≡ j) = λ e. ground (arith, (eq_iff c.id j).1 e) in
        (i, c.others j ne ∙ found, omega arith)
  ];
}

module _ (platform : Platform) where
  committed-Grows :
      (clock : Datetime) (o : Operation) (s : Session) (r : Result Error Session)
      → run platform clock o s ≡ r
      → Grows s (committed platform s r)
  committed-Grows clock o s (ok s') e = Change-Grows (run-Change platform clock s o e)
  committed-Grows clock o s (err error) e = record { at = λ id i found. (i, found, omega arith) }

  pub serve-Grows :
      (requests : List (Datetime × Operation)) (s : Session) → Grows s (serve platform requests s)
  unfolding serve
  serve-Grows [] s = record { at = λ id i found. (i, found, omega arith) }
  serve-Grows ((clock, o) ∷ rest) s = record {
    at = λ id i found.
        let (i', found', le) =
          (committed-Grows clock o s (run platform clock o s) refl).at id i found in
        let (i'', found'', le') =
          (serve-Grows rest (committed platform s (run platform clock o s))).at id i' found' in
        (i'', found'', omega arith);
  }

-- The incident is found at version v, and left at version v + 1.
pub record Raise (id : Uuid) (v : ℕ) (s s' : Session) : Type 0 where
  pub before : Incident
  pub found : find_incident id s.incidents ≡ some before
  pub current : before.version ≡ v
  pub after : Incident
  pub stored : find_incident id s'.incidents ≡ some after
  pub raised : after.version ≡ v + 1

Raise-of :
    (id : Uuid) (v : ℕ) (s s' : Session) (i i' : Incident)
    → find_incident id s.incidents ≡ some i
    → i.version ≡ v
    → i'.incident_id ≡ i.incident_id
    → s'.incidents ≡ put_incident i' s.incidents
    → i'.version ≡ i.version + 1
    → Raise id v s s'
Raise-of id v s s' i i' found current same rows up = record {
  before = i;
  found = found;
  current = current;
  after = i';
  stored = rw rows (
      find_incident-put_self id i' s.incidents (same ∙ find_incident-id id s.incidents found)
        found);
  raised = omega arith;
}

module _ (platform : Platform) (clock : Datetime) (s : Session) where
  result_Raise :
      (id : Uuid) (v : ℕ) (r q : Incident × Session) {s' : Session}
      → ◌≡◌ {A = Result Error Session} (ok r.1) (ok s')
      → r ≡ q
      → Raise id v s q.1
      → Raise id v s s'
  result_Raise id v r q out eq h =
      subst (Raise id v s) (cc (out, ap (λ (x : Incident × Session). x.1) eq)) h

  note_Raise :
      (r : NoteRequest) {s' : Session}
      → run platform clock (note r) s ≡ ok s'
      → Raise r.incident_id r.expected_version s s'
  unfolding run record_note
  note_Raise r h =
      let (x, e, out) = >>=-eq-ok (add_analyst_note platform clock r s) _ h in
      let (clean, i, _, found, current, eq) = add_analyst_note-inversion platform clock s r e in
      result_Raise _ _ x _ out eq (Raise-of _ _ s _ i _ found current refl refl refl)

  transition_Raise :
      (r : StatusRequest) {s' : Session}
      → run platform clock (transition r) s ≡ ok s'
      → Raise r.incident_id r.expected_version s s'
  unfolding run record_transition
  transition_Raise r h =
      let (x, e, out) = >>=-eq-ok (transition_incident_status platform clock r s) _ h in
      let (i, reason, found, current, _, _, _, eq) = transition-inversion platform clock r s e in
      result_Raise _ _ x _ out eq (Raise-of _ _ s _ i _ found current refl refl refl)

  assign_Raise :
      (r : AssignmentRequest) {s' : Session}
      → run platform clock (assign r) s ≡ ok s'
      → Raise r.incident_id r.expected_version s s'
  unfolding run record_assignment
  assign_Raise r h =
      let (x, e, out) = >>=-eq-ok (assign_incident platform clock r s) _ h in
      let (i, found, current, eq) = assign_incident-inversion platform clock s r e in
      result_Raise _ _ x _ out eq (Raise-of _ _ s _ i _ found current refl refl refl)

  dispose_Raise :
      (r : DispositionRequest) {s' : Session}
      → run platform clock (dispose r) s ≡ ok s'
      → Raise r.incident_id r.expected_version s s'
  unfolding run record_disposition
  dispose_Raise r h =
      let (x, e, out) = >>=-eq-ok (set_incident_disposition platform clock r s) _ h in
      let (reason, i, _, found, current, eq) =
        set_incident_disposition-inversion platform clock s r e in
      result_Raise _ _ x _ out eq (Raise-of _ _ s _ i _ found current refl refl refl)

  named :
      {x : Uuid × ℕ} {id : Uuid} {v : ℕ} {s' : Session}
      → some x ≡ some (id, v)
      → Raise x.0 x.1 s s'
      → Raise id v s s'
  named {s' = s'} e h = subst (λ x. Raise x.0 x.1 s s') (some-injective e) h

  pub run-Raise :
      (o : Operation) {s' : Session} {id : Uuid} {v : ℕ}
      → expects o ≡ some (id, v)
      → run platform clock o s ≡ ok s'
      → Raise id v s s'
  run-Raise (note r) e h = named e (note_Raise r h)
  run-Raise (transition r) e h = named e (transition_Raise r h)
  run-Raise (assign r) e h = named e (assign_Raise r h)
  run-Raise (dispose r) e h = named e (dispose_Raise r h)
  run-Raise (report r) e h = cc
