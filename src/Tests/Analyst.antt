-- ===== src/Tests/Analyst.antt =====
-- The theorems on the analyst operations at one incident.
use ot_soc_fusion_x.Base.{
  ◌≡◌, ◌≢◌, ◌↔◌, refl, codes, none, some, List, [], ◌∷◌, inl, inr, ok, err, str_eq, eq_iff,
  Bool-cases, arith,
}
use ot_soc_fusion_x.Platform.{Uuid, Datetime}
use ot_soc_fusion_x.Incidents.Tables.{Incident}
use ot_soc_fusion_x.Incidents.Store.{
  find_report, Session, find_incident, put_incident, incident_version_conflict_error,
}
use ot_soc_fusion_x.Incidents.Notes.{validate_note_text, add_analyst_note}
use ot_soc_fusion_x.Incidents.Notes.Safety.{IsSafeText, validate_note_text_iff}
use ot_soc_fusion_x.Incidents.Lifecycle.{
  StatusRequest, transition_incident_status, is_allowed, clean_reason, requires_reason,
  record_transition,
}
use ot_soc_fusion_x.Incidents.Lifecycle.Outcome.{IsAccepted, transition_iff}
use ot_soc_fusion_x.Incidents.Lifecycle.Refusal.{IsRefused, transition-IsRefused}
use ot_soc_fusion_x.Incidents.Operations.{
  Operation, note, transition, run, serve, committed, report,
}
use ot_soc_fusion_x.Incidents.Change.{Change}
use ot_soc_fusion_x.Incidents.Change.OfOperation.{run-Change}
use ot_soc_fusion_x.Incidents.History.{HasHistory, opened, serve-HasHistory}
use ot_soc_fusion_x.Incidents.Trail.{HasTrail, created, serve-HasTrail}
use ot_soc_fusion_x.Incidents.Requests.{loads, finish, transition_held, flush_transition}
use ot_soc_fusion_x.Incidents.Requests.Stale.{IsAt, no_lost_update}
use ot_soc_fusion_x.Incidents.Requests.Overtaken.{overtaken_resolution}
use ot_soc_fusion_x.Incidents.Model.{resolved}
use ot_soc_fusion_x.Incidents.Revisions.{HasRevisions, unsaved}
use ot_soc_fusion_x.Incidents.Revisions.Saved.{serve-HasRevisions}
use ot_soc_fusion_x.Tests.Samples

-- The session has one incident.
only_incident :
    (id : Uuid) (i : Incident)
    → find_incident id Samples.start.incidents ≡ some i
    → ("incident-1" ≡ id) × (Samples.created ≡ i)
unfolding find_incident
only_incident id i found = elim (Bool-cases (str_eq "incident-1" id)) [
  | inl same ↦ ((eq_iff "incident-1" id).0 same, ground arith)
  | inr other ↦ absurd (ground arith)
]

start-HasHistory : HasHistory Samples.start
start-HasHistory = record {
  at = λ id i found.
      let (same, is) = only_incident id i found in
      rw (← same, ← is) (1, opened Samples.created_row refl refl refl, omega arith);
}

start-HasTrail : HasTrail "incident-1" Samples.start
start-HasTrail = record {
  at = λ i found.
      let (_, is) = only_incident "incident-1" i found in
      rw (← is) (created Samples.created_event refl refl);
}

abbrev take_up : Operation
take_up = transition Samples.take_up_request

abbrev note_it : Operation
note_it = note Samples.note_request

-- The session after the incident has been taken up.
abbrev taken_up : Session
taken_up = committed Samples.platform Samples.start (run Samples.platform 200 take_up Samples.start)

take_up-run : run Samples.platform 200 take_up Samples.start ≡ ok taken_up
unfolding run transition_incident_status find_incident is_allowed clean_reason requires_reason
take_up-run = refl

take_up-finish : finish Samples.platform none 200 take_up Samples.start ≡ ok taken_up
unfolding finish run transition_held transition_incident_status find_incident is_allowed
    clean_reason requires_reason flush_transition record_transition
take_up-finish = refl

-- The note was written against the version that the transition has raised.
note_stale :
    run Samples.platform 300 note_it taken_up
    ≡ err (incident_version_conflict_error "Incident aggregate version is stale.")
unfolding run transition_incident_status find_incident is_allowed clean_reason requires_reason
    add_analyst_note record_transition put_incident
note_stale = refl

abbrev requests : List (Datetime × Operation)
requests = (200, take_up) ∷ (300, note_it) ∷ (400, report Samples.report_request) ∷ []

serve-HasHistory_example : HasHistory (serve Samples.platform requests Samples.start)
serve-HasHistory_example = serve-HasHistory Samples.platform requests Samples.start start-HasHistory

serve-HasTrail_example : HasTrail "incident-1" (serve Samples.platform requests Samples.start)
serve-HasTrail_example =
    serve-HasTrail Samples.platform "incident-1" requests Samples.start start-HasTrail

run-Change_example : Change Samples.start taken_up
run-Change_example = run-Change Samples.platform 200 Samples.start take_up take_up-run

-- The note is requested after the incident was taken up.
no_lost_update_example :
    finish Samples.platform (loads note_it taken_up) 300 note_it taken_up ≢ ok taken_up
unfolding serve
no_lost_update_example =
    no_lost_update Samples.platform none take_up note_it Samples.start 200 300 [] [] refl refl
      take_up-finish taken_up

-- A resolution and a note against the same version.
abbrev resolution : StatusRequest
resolution = record Samples.take_up_request {
  new_status = resolved;
  reason = some (codes "Benign.");
}

abbrev noted : Session
noted = committed Samples.platform Samples.start (run Samples.platform 200 note_it Samples.start)

abbrev resolved_alone : Session
resolved_alone =
    committed Samples.platform Samples.start
      (run Samples.platform 300 (transition resolution) Samples.start)

overtaken_resolution_example :
    (t : Session) × (finish Samples.platform
        (loads (transition resolution) Samples.start)
        300
        (transition resolution)
        noted
      ≡ ok t)
    × IsAt "incident-1" 2 t
unfolding run transition_incident_status find_incident is_allowed clean_reason requires_reason
    add_analyst_note record_transition put_incident validate_note_text
overtaken_resolution_example =
    overtaken_resolution Samples.platform Samples.note_request resolution Samples.start {s' = noted}
      {s'' = resolved_alone} 200 300 refl refl refl refl refl

transition_iff_example :
    ((r : Incident × Session) × (transition_incident_status Samples.platform 200
          Samples.take_up_request Samples.start
        ≡ ok r))
    ↔ ((i : Incident) × IsAccepted Samples.take_up_request Samples.start i)
transition_iff_example = transition_iff Samples.platform 200 Samples.take_up_request Samples.start

validate_note_text_iff_example :
    (validate_note_text (codes "Asked.") 2000 ≡ ok (codes "Asked."))
    ↔ ((codes "Asked." ≡ codes "Asked.") × IsSafeText 2000 (codes "Asked."))
validate_note_text_iff_example = validate_note_text_iff (codes "Asked.") 2000 (codes "Asked.")

-- A second analyst asks for the same transition.
take_up_again :
    transition_incident_status Samples.platform 300 Samples.take_up_request taken_up
    ≡ err (incident_version_conflict_error "Incident aggregate version is stale.")
unfolding run transition_incident_status find_incident is_allowed clean_reason requires_reason
    record_transition put_incident
take_up_again = refl

transition-IsRefused_example :
    IsRefused Samples.take_up_request taken_up
      (incident_version_conflict_error "Incident aggregate version is stale.")
transition-IsRefused_example =
    transition-IsRefused Samples.platform 300 Samples.take_up_request taken_up
      (incident_version_conflict_error "Incident aggregate version is stale.") take_up_again

start-HasRevisions : HasRevisions Samples.start
unfolding find_report
start-HasRevisions = record { at = λ id. unsaved }

serve-HasRevisions_example : HasRevisions (serve Samples.platform requests Samples.start)
serve-HasRevisions_example =
    serve-HasRevisions Samples.platform requests Samples.start start-HasRevisions
