-- ===== src/Incidents/Lifecycle/Outcome.antt =====
-- When a transition is accepted, and which error it raises otherwise.
use ot_soc_fusion_x.Base.{
  ◌≡◌, ◌≢◌, ◌↔◌, inl, inr, String, Text, true, false, ◌&&◌, not, Option, none, some, ok, err,
  is_some, arith, Bool-cases,
}
use ot_soc_fusion_x.Platform.{Platform, Datetime}
use ot_soc_fusion_x.Incidents.Tables.{Incident}
use ot_soc_fusion_x.Incidents.Store.{
  Session, incident_lifecycle_error, incident_version_conflict_error, find_incident,
}
use ot_soc_fusion_x.Platform.{or_now}
use ot_soc_fusion_x.Incidents.Lifecycle.{
  StatusRequest, is_allowed, requires_reason, clean_reason, transition_incident_status,
  record_transition,
}
use ot_soc_fusion_x.Incidents.Lifecycle.Edges.{Edge, Edge-is_allowed}
use ot_soc_fusion_x.Incidents.Lifecycle.Reasons.{
  IsReasoned, IsReasoned-of_clean, clean_of_reasoned, clean_reason-cases,
}

-- What the checks of a transition pass.
pub record IsAccepted (request : StatusRequest) (session : Session) (i : Incident) : Type 0 where
  pub found : find_incident request.incident_id session.incidents ≡ some i
  pub current : i.version ≡ request.expected_version
  pub edge : Edge i.status request.new_status
  pub reasoned : IsReasoned i.status request.new_status request.reason

module _ (platform : Platform) (clock : Datetime) (request : StatusRequest)
    (session : Session) where
  pub transition-inversion :
      {r : Incident × Session}
      → transition_incident_status platform clock request session ≡ ok r
      → (i : Incident) × (reason : Option Text) × (find_incident request.incident_id
            session.incidents
          ≡ some i)
        × (i.version ≡ request.expected_version)
        × (is_allowed i.status request.new_status ≡ true)
        × (clean_reason request.reason ≡ ok reason)
        × ((requires_reason i.status request.new_status && not (is_some reason)) ≡ false)
        × (r
            ≡ record_transition platform (or_now clock request.changed_at) request reason i session)
  unfolding transition_incident_status
  transition-inversion {r} h = ground arith

  -- A transition returns exactly when there is an incident with the id of the request, at the expected
  -- version, from which an edge leads to the new status, and the reason is there where it is
  -- required and is safe.
  pub transition_iff :
      ((r : Incident × Session) × (transition_incident_status platform clock request session
          ≡ ok r))
      ↔ ((i : Incident) × IsAccepted request session i)
  unfolding transition_incident_status
  transition_iff = (
    λ (r, h).
        let (i, reason, found, current, allowed, clean, needed, _) = transition-inversion h in
        let edge = (Edge-is_allowed i.status request.new_status).0 allowed in
        (
          i,
          record {
            found = found;
            current = current;
            edge = edge;
            reasoned =
                IsReasoned-of_clean i.status request.new_status request.reason reason edge clean
                  needed;
          },
        ),
    λ (i, a).
        let c = clean_of_reasoned i.status request.new_status request.reason a.edge a.reasoned in
        (
          record_transition platform (or_now clock request.changed_at) request request.reason i
              session,
          ground (
            arith,
            a.found,
            a.current,
            c,
            (Edge-is_allowed i.status request.new_status).1 a.edge,
          ),
        ),
  )

  -- Which error is raised: the missing incident before the stale version before the forbidden edge;
  -- an allowed edge with an unsafe or missing reason is an `IncidentLifecycleError` too.
  pub transition_errors :
      (find_incident request.incident_id session.incidents ≡ none
        → transition_incident_status platform clock request session
          ≡ err (incident_lifecycle_error "Incident was not found."))
      × ((i : Incident)
          → find_incident request.incident_id session.incidents ≡ some i
          → i.version ≢ request.expected_version
          → transition_incident_status platform clock request session
            ≡ err (incident_version_conflict_error "Incident aggregate version is stale."))
      × ((i : Incident)
          → find_incident request.incident_id session.incidents ≡ some i
          → i.version ≡ request.expected_version
          → ¬ Edge i.status request.new_status
          → transition_incident_status platform clock request session
            ≡ err (
                incident_lifecycle_error
                  "The requested incident status transition is not allowed."))
      × ((i : Incident)
          → find_incident request.incident_id session.incidents ≡ some i
          → i.version ≡ request.expected_version
          → Edge i.status request.new_status
          → ¬ IsReasoned i.status request.new_status request.reason
          → (message : String) × (transition_incident_status platform clock request session
              ≡ err (incident_lifecycle_error message)))
  unfolding transition_incident_status
  transition_errors = (
    λ h. ground arith,
    λ i h v. ground arith,
    λ i h v e. ground (
      arith,
      λ (q : is_allowed i.status request.new_status ≡ true).
          e ((Edge-is_allowed i.status request.new_status).0 q),
    ),
    λ i h v e n. elim (clean_reason-cases request.reason) [
      | inl (message, q) ↦
          (message, ground (arith, (Edge-is_allowed i.status request.new_status).1 e, q))
      | inr (reason, q) ↦
          elim (Bool-cases (requires_reason i.status request.new_status && not (is_some reason))) [
            | inl missing ↦ (
              "A resolution or reopen reason is required.",
              ground (arith, (Edge-is_allowed i.status request.new_status).1 e, q, missing),
            )
            | inr there ↦ absurd (
                n (IsReasoned-of_clean i.status request.new_status request.reason reason e q there))
          ]
    ],
  )
