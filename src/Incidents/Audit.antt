-- ===== src/Incidents/Audit.antt =====
-- backend/app/incidents/audit.py
use ot_soc_fusion_x.Base.{ℕ, String, Option, [], ◌∷◌, ◌++◌, join, str_int, sorted_items}
use ot_soc_fusion_x.Platform.{Platform, Uuid, Sha256, Datetime, Details}
use ot_soc_fusion_x.Incidents.Model.{AuditAction, action_value}
use ot_soc_fusion_x.Incidents.Tables.{Incident, IncidentAuditEvent}
use ot_soc_fusion_x.Incidents.Store.{Session}

abbrev audit_id_namespace : Uuid
audit_id_namespace = "69519277-aac3-59b8-a1bf-d81215fe17b8"

-- The keyword arguments of `append_audit_event`.
pub record AuditEntry : Type 0 where
  pub action : AuditAction
  pub occurred_at : Datetime
  pub actor_context : String
  pub actor_user_id : Option Uuid
  pub request_id : String
  pub result : String
  pub safe_reason : Option String
  pub version_before : ℕ
  pub version_after : ℕ
  pub details : Details

module _ (platform : Platform) where
  detail_digest : Details → Sha256
  detail_digest details = platform.sha256_hex (platform.repr_items (sorted_items details))

  audit_name : Incident → AuditEntry → String
  unfolding detail_digest str_int sorted_items
  audit_name incident entry = join "|" (
      incident.incident_id
      ∷ action_value entry.action
      ∷ entry.request_id
      ∷ str_int entry.version_before
      ∷ str_int entry.version_after
      ∷ detail_digest entry.details
      ∷ [])

  pub audit_event : Incident → AuditEntry → IncidentAuditEvent
  unfolding audit_name
  audit_event incident entry = record {
    audit_event_id = platform.uuid5 audit_id_namespace (audit_name incident entry);
    incident_id = incident.incident_id;
    action = entry.action;
    occurred_at = entry.occurred_at;
    actor_context = entry.actor_context;
    actor_user_id = entry.actor_user_id;
    request_id = entry.request_id;
    result = entry.result;
    safe_reason = entry.safe_reason;
    version_before = entry.version_before;
    version_after = entry.version_after;
    details = entry.details;
  }

  unfoldable pub append_audit_event : Incident → AuditEntry → Session → Session
  unfolding audit_event
  append_audit_event incident entry session = record session {
    audit_events = session.audit_events ++ audit_event incident entry ∷ [];
  }
