-- ===== src/Incidents/Requests/Overtaken.antt =====
-- A resolution that is overtaken: its first read is before another request is committed, and its lock
-- after that.
use ot_soc_fusion_x.Base.{
  ◌+◌, ◌≡◌, refl, ◌∙◌, ap, not, ◌&&◌, Option, none, some, true, false, ok, arith, >>=-eq-ok,
  is_some, Text, ◌>>=◌, Result,
}
use ot_soc_fusion_x.Platform.{Platform, Datetime, or_now}
use ot_soc_fusion_x.Incidents.Model.{resolved}
use ot_soc_fusion_x.Incidents.Tables.{Incident}
use ot_soc_fusion_x.Incidents.Store.{Session, Error, find_incident}
use ot_soc_fusion_x.Incidents.Notes.{NoteRequest}
use ot_soc_fusion_x.Incidents.Lifecycle.{
  StatusRequest, is_allowed, requires_reason, clean_reason, transition_incident_status,
  record_transition,
}
use ot_soc_fusion_x.Incidents.Lifecycle.Outcome.{transition-inversion}
use ot_soc_fusion_x.Incidents.Operations.{note, transition, run}
use ot_soc_fusion_x.Incidents.Requests.{loads, flush_transition, transition_held, finish}
use ot_soc_fusion_x.Incidents.Requests.Stale.{IsAt, finish-IsAt}

module _ (platform : Platform) where
  -- What passes the checks of the held instance is accepted, whatever has become of the row.
  transition_held-accepts :
      (clock : Datetime) (request : StatusRequest) (s : Session) (i row : Incident)
      (reason : Option Text)
      → find_incident request.incident_id s.incidents ≡ some row
      → i.version ≡ request.expected_version
      → is_allowed i.status request.new_status ≡ true
      → clean_reason request.reason ≡ ok reason
      → (requires_reason i.status request.new_status && not (is_some reason)) ≡ false
      → (r : Incident × Session) × (transition_held platform (some i) clock request s ≡ ok r)
  unfolding transition_held
  transition_held-accepts clock request s i row reason found current allowed clean needed = (
    flush_transition row s
        (record_transition platform (or_now clock request.changed_at) request reason i s),
    ground (arith, found, current, allowed, clean, needed),
  )

  -- A resolution that would have been accepted when it was begun is still accepted after a note that was
  -- written against the same version of the same incident: both are accepted, and the incident is left
  -- one version on, not two.
  pub overtaken_resolution :
      (noted : NoteRequest) (request : StatusRequest) (s : Session) {s' s'' : Session}
      (clock later : Datetime)
      → request.new_status ≡ resolved
      → request.incident_id ≡ noted.incident_id
      → request.expected_version ≡ noted.expected_version
      → run platform later (transition request) s ≡ ok s''
      → run platform clock (note noted) s ≡ ok s'
      → (t : Session) × (finish platform
            (loads (transition request) s)
            later
            (transition request)
            s'
          ≡ ok t)
        × IsAt noted.incident_id (noted.expected_version + 1) t
  unfolding finish run loads
  overtaken_resolution noted request s {s'} {s''} clock later resolves same version alone first =
      let (x, e, _) = >>=-eq-ok (transition_incident_status platform later request s) _ alone in
      let (i, reason, found, current, allowed, clean, needed, _) =
        transition-inversion platform later request s e in
      let read : loads (transition request) s ≡ some i = rw (loads, resolves) found in
      let after = finish-IsAt platform none clock (note noted) s refl first in
      let (r, accepted) =
        transition_held-accepts later request s' i after.row reason (rw same after.found) current
          allowed clean needed in
      let done : finish platform (loads (transition request) s) later (transition request) s'
          ≡ ok r.1 =
        ap (λ held. finish platform held later (transition request) s') read
        ∙ ap (λ (q : Result Error (Incident × Session)). q >>= (λ z. ok z.1)) accepted in
      (
        r.1,
        done,
        finish-IsAt platform (loads (transition request) s) later (transition request) s'
            (ap some (
              ap (λ j. (j, request.expected_version)) same
              ∙ ap (λ v. (noted.incident_id, v)) version))
            done,
      )
