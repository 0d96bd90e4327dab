-- ===== src/Incidents/Requests/Stale.antt =====
-- What the version check of a request protects against, and what it does not, where other requests are
-- committed between its first read and its lock.
use ot_soc_fusion_x.Base.{
  ℕ, ◌+◌, ◌≡◌, ◌≢◌, ◌∙◌, sym, ap, subst, not, ◌&&◌, Option-cases, inl, inr, Option, some, List, ok,
  arith, ◌⊎◌, ◌==◌, ok-injective, guard-eq-ok, or_raise, or_raise-eq-ok, >>=-eq-ok, is_some, Text,
}
use ot_soc_fusion_x.Platform.{Platform, Uuid, Datetime, or_now}
use ot_soc_fusion_x.Incidents.Tables.{Incident}
use ot_soc_fusion_x.Incidents.Store.{
  Session, incident_lifecycle_error, incident_version_conflict_error, find_incident, put_incident,
  save_incident,
}
use ot_soc_fusion_x.Incidents.Store.Laws.{find_incident-id, find_incident-put_self}
use ot_soc_fusion_x.Incidents.Lifecycle.{
  StatusRequest, is_allowed, requires_reason, clean_reason, record_transition,
}
use ot_soc_fusion_x.Incidents.Operations.{
  Operation, note, transition, assign, dispose, report, serve,
}
use ot_soc_fusion_x.Incidents.Versions.{expects, Raise, some-injective, serve-Grows, run-Raise}
use ot_soc_fusion_x.Incidents.Requests.{
  loads, instance_of, flushed, flush_transition, transition_held, finish,
}

-- The incident is in the tables at a version.
pub record IsAt (id : Uuid) (v : ℕ) (s : Session) : Type 0 where
  pub row : Incident
  pub found : find_incident id s.incidents ≡ some row
  pub version : row.version ≡ v

raised-IsAt : {id : Uuid} {v : ℕ} {s s' : Session} → Raise id v s s' → IsAt id (v + 1) s'
raised-IsAt r = record { row = r.after; found = r.stored; version = r.raised }

found-IsAt : {id : Uuid} {v : ℕ} {s s' : Session} → Raise id v s s' → IsAt id v s
found-IsAt r = record { row = r.before; found = r.found; version = r.current }

flushed-IsAt :
    (id : Uuid) (v : ℕ) (row changed : Incident) (s s' : Session)
    → find_incident id s.incidents ≡ some row
    → changed.version ≡ v
    → s'.incidents ≡ put_incident (flushed row changed) s.incidents
    → IsAt id v s'
flushed-IsAt id v row changed s s' found version rows = record {
  row = flushed row changed;
  found =
      ap (find_incident id) rows
      ∙ find_incident-put_self id (flushed row changed) s.incidents
          (find_incident-id id s.incidents found) found;
  version = version;
}

loads-found :
    (request : StatusRequest) (read : Session) {i : Incident}
    → loads (transition request) read ≡ some i
    → find_incident request.incident_id read.incidents ≡ some i
unfolding loads
loads-found request read h = ground arith

module _ (platform : Platform) where
  transition_held-inversion :
      (held : Option Incident) (clock : Datetime) (request : StatusRequest) (s : Session)
      {r : Incident × Session}
      → transition_held platform held clock request s ≡ ok r
      → (row : Incident) × (reason : Option Text) × (find_incident request.incident_id s.incidents
          ≡ some row)
        × ((instance_of held row).version ≡ request.expected_version)
        × (r
            ≡ flush_transition row s (
                record_transition platform
                  (or_now clock request.changed_at)
                  request
                  reason
                  (instance_of held row)
                  s))
  unfolding transition_held
  transition_held-inversion held clock request s h =
      let (row, selected, h1) =
        >>=-eq-ok
          (or_raise (incident_lifecycle_error "Incident was not found.")
            (find_incident request.incident_id s.incidents))
          _ h in
      let incident = instance_of held row in
      let (current, h2) =
        guard-eq-ok (incident.version == request.expected_version)
          (incident_version_conflict_error "Incident aggregate version is stale.") _ h1 in
      let (_, h3) = guard-eq-ok (is_allowed incident.status request.new_status) _ _ h2 in
      let (reason, _, h4) = >>=-eq-ok (clean_reason request.reason) _ h3 in
      let (_, h5) =
        guard-eq-ok
          (not (requires_reason incident.status request.new_status && not (is_some reason))) _ _
          h4 in
      (row, reason, or_raise-eq-ok _ _ selected, ground (arith, current), sym (ok-injective h5))

  -- An accepted request leaves the incident at the version after the one it was written against.
  pub finish-IsAt :
      (held : Option Incident) (clock : Datetime) (o : Operation) (s : Session) {s' : Session}
      {id : Uuid} {v : ℕ}
      → expects o ≡ some (id, v)
      → finish platform held clock o s ≡ ok s'
      → IsAt id (v + 1) s'
  unfolding finish flush_transition record_transition save_incident
  finish-IsAt held clock (note request) s e h =
      raised-IsAt (run-Raise platform clock s (note request) e h)
  finish-IsAt held clock (assign request) s e h =
      raised-IsAt (run-Raise platform clock s (assign request) e h)
  finish-IsAt held clock (dispose request) s e h =
      raised-IsAt (run-Raise platform clock s (dispose request) e h)
  finish-IsAt held clock (report request) s e h = cc
  finish-IsAt held clock (transition request) s {s'} e h =
      let (r, accepted, out) = >>=-eq-ok (transition_held platform held clock request s) _ h in
      let (row, reason, found, current, same) =
        transition_held-inversion held clock request s accepted in
      let incident = instance_of held row in
      let changed =
        (record_transition platform (or_now clock request.changed_at) request reason incident
          s).0 in
      let rows : s'.incidents ≡ put_incident (flushed row changed) s.incidents =
        ap (λ (x : Session). x.incidents) (sym (ok-injective out))
        ∙ ap (λ (x : Incident × Session). x.1.incidents) same in
      let at =
        flushed-IsAt request.incident_id (request.expected_version + 1) row changed s s' found
          (ap (λ n. n + 1) current) rows in
      subst (λ (x : Uuid × ℕ). IsAt x.0 (x.1 + 1) s') (some-injective e) at

  -- The version that an accepted request was written against is that of the incident in the tables, or of
  -- the incident that it read before.
  finish-expected :
      (clock : Datetime) (o : Operation) (read s : Session) {s' : Session} {id : Uuid} {v : ℕ}
      → expects o ≡ some (id, v)
      → finish platform (loads o read) clock o s ≡ ok s'
      → IsAt id v read ⊎ IsAt id v s
  unfolding finish loads
  finish-expected clock (note request) read s e h =
      inr (found-IsAt (run-Raise platform clock s (note request) e h))
  finish-expected clock (assign request) read s e h =
      inr (found-IsAt (run-Raise platform clock s (assign request) e h))
  finish-expected clock (dispose request) read s e h =
      inr (found-IsAt (run-Raise platform clock s (dispose request) e h))
  finish-expected clock (report request) read s e h = cc
  finish-expected clock (transition request) read s e h =
      let held = loads (transition request) read in
      let (r, accepted, _) = >>=-eq-ok (transition_held platform held clock request s) _ h in
      let (row, _, found, current, _) = transition_held-inversion held clock request s accepted in
      subst (λ (x : Uuid × ℕ). IsAt x.0 x.1 read ⊎ IsAt x.0 x.1 s) (some-injective e)
        (elim (Option-cases held) [
          | inl nothing ↦ inr (record {
            row = row;
            found = found;
            version = ap (λ h. (instance_of h row).version) (sym nothing) ∙ current;
          })
          | inr (i, something) ↦ inl (record {
            row = i;
            found = loads-found request read something;
            version = ap (λ h. (instance_of h row).version) (sym something) ∙ current;
          })
        ])

  -- Once a request has been accepted, no request that was written against the same version of the same
  -- incident is accepted any more, if it reads the incident after that, whatever is requested before it
  -- does, and between its first read and its lock; these are requests of which each is done before the
  -- next one begins.
  pub no_lost_update :
      (held : Option Incident) (first second : Operation) (s : Session) {s' : Session} {id : Uuid}
      {v : ℕ} (clock later : Datetime) (before between : List (Datetime × Operation))
      → expects first ≡ some (id, v)
      → expects second ≡ some (id, v)
      → finish platform held clock first s ≡ ok s'
      → let read = serve platform before s' in
        (s'' : Session)
        → finish platform (loads second read) later second (serve platform between read) ≢ ok s''
  no_lost_update held first second s {s'} {id} {v} clock later before between ef es h s'' h' =
      let read = serve platform before s' in
      let a = finish-IsAt held clock first s ef h in
      let (i, found, le) = (serve-Grows platform before s').at id a.row a.found in
      let (j, found', le') = (serve-Grows platform between read).at id i found in
      elim (finish-expected later second read (serve platform between read) es h') [
        | inl b ↦
            let same : i.version ≡ b.row.version =
              ap (λ (x : Incident). x.version) (some-injective (sym found ∙ b.found)) in
            omega (arith, a.version, b.version, same, le)
        | inr b ↦
            let same : j.version ≡ b.row.version =
              ap (λ (x : Incident). x.version) (some-injective (sym found' ∙ b.found)) in
            omega (arith, a.version, b.version, same, le, le')
      ]
