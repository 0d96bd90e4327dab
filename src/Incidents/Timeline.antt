-- ===== src/Incidents/Timeline.antt =====
-- backend/app/incidents/timeline.py
use mathlib.Core.Option
use ot_soc_fusion_x.Base.{ℕ, String, Option, [], ◌∷◌, ◌++◌, join, sorted_set, present}
use ot_soc_fusion_x.Platform.{Platform, Uuid, Datetime}
use ot_soc_fusion_x.Incidents.Model.{TimelineEntryType, CandidateMembership, entry_type_value}
use ot_soc_fusion_x.Incidents.Tables.{Incident, IncidentTimelineEntry}
use ot_soc_fusion_x.Incidents.Store.{Session}

abbrev timeline_id_namespace : Uuid
timeline_id_namespace = "25563193-2d83-5cfb-a768-a8f482547086"

-- The keyword arguments of `append_timeline_entry`.
pub record TimelineEntry : Type 0 where
  pub entry_type : TimelineEntryType
  pub reference_id : Uuid
  pub observed_at : Datetime
  pub recorded_at : Datetime
  pub summary : String
  pub actor_context : String
  pub aggregate_version : ℕ
  pub membership : Option CandidateMembership

module _ (platform : Platform) where
  timeline_name : Incident → TimelineEntry → String
  timeline_name incident entry =
      join "|" (
        incident.incident_id
        ∷ entry_type_value entry.entry_type
        ∷ entry.reference_id
        ∷ "1.0.0"
        ∷ [])

  pub timeline_entry : Incident → TimelineEntry → IncidentTimelineEntry
  unfolding timeline_name sorted_set
  timeline_entry incident entry = record {
    timeline_entry_id = platform.uuid5 timeline_id_namespace (timeline_name incident entry);
    incident_id = incident.incident_id;
    timeline_schema = "otsoc.incident.timeline_entry";
    timeline_schema_version = "1.0.0";
    producer = "otsoc_offline_incident_engine";
    producer_version = "1.0.0";
    observed_at = entry.observed_at;
    recorded_at = entry.recorded_at;
    entry_type = entry.entry_type;
    reference_id = entry.reference_id;
    evidence_id = Option.map (λ m. m.evidence_id) entry.membership;
    evidence_type = Option.map (λ m. m.evidence_type) entry.membership;
    evidence_schema = Option.map (λ m. m.evidence_schema) entry.membership;
    evidence_schema_version = Option.map (λ m. m.evidence_schema_version) entry.membership;
    evidence_integrity_sha256 = Option.map (λ m. m.integrity_sha256) entry.membership;
    received_at = Option.map (λ m. m.received_at) entry.membership;
    asset_ids = sorted_set (
        present (
          incident.source_asset_id ∷ incident.destination_asset_id ∷ incident.controller_asset_id
          ∷ []));
    process_asset_ids = sorted_set incident.process_asset_ids;
    summary = entry.summary;
    actor_context = entry.actor_context;
    aggregate_version = entry.aggregate_version;
  }

  unfoldable pub append_timeline_entry : Incident → TimelineEntry → Session → Session
  unfolding timeline_entry
  append_timeline_entry incident entry session = record session {
    timeline_entries = session.timeline_entries ++ timeline_entry incident entry ∷ [];
  }
