-- ===== src/Incidents/Intake.antt =====
-- backend/app/incidents/service.py: what becomes of a qualified candidate. The verification of the
-- stored evidence and its qualification come before.
use ot_soc_fusion_x.Base.{
  String, Bool, true, false, not, ◌&&◌, ◌||◌, Option, none, some, if◌then◌else◌, str_eq, Result, ok,
  ◌>>=◌, is_some,
}
use ot_soc_fusion_x.Platform.{Platform, Datetime}
use ot_soc_fusion_x.Incidents.Tables.{Incident}
use ot_soc_fusion_x.Incidents.Store.{Session}
use ot_soc_fusion_x.Incidents.Candidate.{
  QualifiedIncidentCandidate, IncidentProfile, grouping_epoch_start,
  deterministic_incident_identity,
}
use ot_soc_fusion_x.Incidents.Creation.{IntakeError, insert_or_load_incident}
use ot_soc_fusion_x.Incidents.Enrichment.{Outcome, enrich_incident}

abbrev is_bound : Option String → Option String → Bool
is_bound run config = is_some run && is_some config

-- a != b
abbrev pub unlike : Option String → Option String → Bool
unlike none none = false
unlike (some a) (some b) = not (str_eq a b)
unlike _ _ = true

-- Both scopes are bound, and not alike.
unfoldable pub requires_separate_bound_scope : Incident → QualifiedIncidentCandidate → Bool
requires_separate_bound_scope incident candidate =
    is_bound candidate.bound_simulation_id candidate.bound_configuration_hash
    && is_bound incident.bound_simulation_id incident.bound_configuration_hash
    && (unlike incident.bound_simulation_id candidate.bound_simulation_id
        || unlike incident.bound_configuration_hash candidate.bound_configuration_hash)

-- The text, or the default where there is none.
abbrev or_text : String → Option String → String
or_text default none = default
or_text default (some text) = text

-- model_copy(update=…) with the bound scopes, which are there
unfoldable pub separately_bound : QualifiedIncidentCandidate → QualifiedIncidentCandidate
separately_bound candidate = record candidate {
  run_scope = or_text candidate.run_scope candidate.bound_simulation_id;
  configuration_scope = or_text candidate.configuration_scope candidate.bound_configuration_hash;
}

-- The outcome of `qualify_stored_evidence` for a candidate.
pub data Received : Type 0 where
  created : Received
  grouped : Outcome → Received

module _ (platform : Platform) where
  -- The incident of a candidate: the one with its grouping key, or a new one.
  unfoldable pub load_incident :
      QualifiedIncidentCandidate
      → IncidentProfile
      → Datetime
      → Datetime
      → String
      → Session
      → Result IntakeError ((Incident × Bool) × Session)
  unfolding deterministic_incident_identity insert_or_load_incident
  load_incident candidate profile epoch now request_id session =
      insert_or_load_incident platform candidate
        (deterministic_incident_identity platform candidate profile epoch) profile epoch now
        request_id session

  -- A new incident is complete; another is enriched.
  unfoldable pub settle :
      QualifiedIncidentCandidate
      → Datetime
      → String
      → (Incident × Bool) × Session
      → Result IntakeError (Received × Session)
  unfolding enrich_incident
  settle candidate now request_id ((incident, true), session) = ok (created, session)
  settle candidate now request_id ((incident, false), session) = do
    (outcome, session') ← enrich_incident platform incident candidate now request_id session
    ok (grouped outcome, session')

  -- A candidate of another bound scope than the incident of its group gets an incident of its own.
  unfoldable pub regroup :
      QualifiedIncidentCandidate
      → IncidentProfile
      → Datetime
      → Datetime
      → String
      → (Incident × Bool) × Session
      → Result IntakeError (Received × Session)
  unfolding requires_separate_bound_scope separately_bound
  regroup candidate profile epoch now request_id ((incident, isnew), session) =
      let bound = separately_bound candidate in
      if not isnew && requires_separate_bound_scope incident candidate
      then (load_incident bound profile epoch now request_id session
          >>= (λ loaded. settle bound now request_id loaded))
      else settle candidate now request_id ((incident, isnew), session)

  unfoldable pub receive_candidate :
      QualifiedIncidentCandidate
      → IncidentProfile
      → Datetime
      → String
      → Session
      → Result IntakeError (Received × Session)
  unfolding grouping_epoch_start
  receive_candidate candidate profile now request_id session = do
    let epoch = grouping_epoch_start candidate.grouping_anchor
    loaded ← load_incident candidate profile epoch now request_id session
    regroup candidate profile epoch now request_id loaded
