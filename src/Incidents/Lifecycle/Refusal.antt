-- ===== src/Incidents/Lifecycle/Refusal.antt =====
-- Why backend/app/incidents/lifecycle.py refuses a transition.
use ot_soc_fusion_x.Base.{
  ◌≡◌, ◌≢◌, inl, inr, none, some, err, arith, Bool-cases, Option-cases, subst, ◌==◌, String,
}
use ot_soc_fusion_x.Platform.{Platform, Datetime}
use ot_soc_fusion_x.Incidents.Tables.{Incident}
use ot_soc_fusion_x.Incidents.Store.{
  Session, Error, incident_lifecycle_error, incident_version_conflict_error, find_incident,
}
use ot_soc_fusion_x.Incidents.Lifecycle.{StatusRequest, is_allowed, transition_incident_status}
use ot_soc_fusion_x.Incidents.Lifecycle.Edges.{Edge, Edge-is_allowed}
use ot_soc_fusion_x.Incidents.Lifecycle.Reasons.{IsReasoned}
use ot_soc_fusion_x.Incidents.Lifecycle.Outcome.{transition_iff, transition_errors}

-- The error that is raised and what is wrong with the request.
pub data IsRefused (request : StatusRequest) (session : Session) : Error → Type 0 where
  missing :
      find_incident request.incident_id session.incidents ≡ none
      → IsRefused request session (incident_lifecycle_error "Incident was not found.")
  stale :
      (i : Incident)
      → find_incident request.incident_id session.incidents ≡ some i
      → i.version ≢ request.expected_version
      → IsRefused request session
          (incident_version_conflict_error "Incident aggregate version is stale.")
  forbidden :
      (i : Incident)
      → find_incident request.incident_id session.incidents ≡ some i
      → i.version ≡ request.expected_version
      → ¬ Edge i.status request.new_status
      → IsRefused request session
          (incident_lifecycle_error "The requested incident status transition is not allowed.")
  unreasoned :
      (i : Incident)
      → find_incident request.incident_id session.incidents ≡ some i
      → i.version ≡ request.expected_version
      → Edge i.status request.new_status
      → ¬ IsReasoned i.status request.new_status request.reason
      → (message : String) → IsRefused request session (incident_lifecycle_error message)

module _ (platform : Platform) (clock : Datetime) (request : StatusRequest)
    (session : Session) where
  refused :
      (e : Error) {q : Error}
      → transition_incident_status platform clock request session ≡ err e
      → transition_incident_status platform clock request session ≡ err q
      → IsRefused request session q
      → IsRefused request session e
  refused e h h' r = subst (IsRefused request session) (cc (h, h')) r

  IsRefused-reason :
      (e : Error) (i : Incident)
      → transition_incident_status platform clock request session ≡ err e
      → find_incident request.incident_id session.incidents ≡ some i
      → i.version ≡ request.expected_version
      → Edge i.status request.new_status
      → ¬ IsReasoned i.status request.new_status request.reason
      → (message : String) × (transition_incident_status platform clock request session
          ≡ err (incident_lifecycle_error message))
      → IsRefused request session e
  IsRefused-reason e i h found v edge bad (message, raised) =
      refused e h raised (unreasoned i found v edge bad message)

  -- A transition that raises does so for one of four reasons, with the error that tells it: the
  -- incident is missing, its version is not the expected one, no edge leads to the new status, or the
  -- reason is missing where it is required or is unsafe.
  pub transition-IsRefused :
      (e : Error)
      → transition_incident_status platform clock request session ≡ err e
      → IsRefused request session e
  transition-IsRefused e h =
      let (lost, old, off_edge, silent) = transition_errors platform clock request session in
      elim (Option-cases (find_incident request.incident_id session.incidents)) [
        | inl none_there ↦ refused e h (lost none_there) (missing none_there)
        | inr (i, found) ↦ elim (Bool-cases (i.version == request.expected_version)) [
          | inr f ↦
              let v : i.version ≢ request.expected_version = ground arith in
              refused e h (old i found v) (stale i found v)
          | inl t ↦
              let v : i.version ≡ request.expected_version = ground arith in
              elim (Bool-cases (is_allowed i.status request.new_status)) [
                | inr f ↦
                    let out : ¬ Edge i.status request.new_status = λ edge.
                      ground (arith, (Edge-is_allowed i.status request.new_status).1 edge) in
                    refused e h (off_edge i found v out) (forbidden i found v out)
                | inl a ↦
                    let edge = (Edge-is_allowed i.status request.new_status).0 a in
                    let bad : ¬ IsReasoned i.status request.new_status request.reason = λ reasoned.
                      let (r, returned) = (transition_iff platform clock request session).1 (
                        i,
                        record { found = found; current = v; edge = edge; reasoned = reasoned },
                      ) in
                      cc (h, returned) in
                    IsRefused-reason e i h found v edge bad (silent i found v edge bad)
              ]
        ]
      ]
