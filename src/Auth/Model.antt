-- ===== src/Auth/Model.antt =====
-- backend/app/auth/models.py: the roles with their permissions, the actions of the audit log, and the rows
-- of `local_users`, `auth_sessions` and `soc_audit_events`. A column that a CHECK constraint restricts
-- to the values of an enumeration has that enumeration as its type.
use ot_soc_fusion_x.Base.{ℕ, String, Text, Bool, Option, List, [], ◌∷◌, ◌++◌}
use ot_soc_fusion_x.Platform.{Uuid, Sha256, Datetime, Details}

pub data Role : Type 0 where
  admin soc_analyst ot_engineer read_only : Role

pub data Permission : Type 0 where
  read_product read_incident read_evidence read_replay read_reports : Permission
  write_incident_note assign_incident change_incident_status : Permission
  set_incident_disposition write_incident_report review_playbook : Permission
  manage_scenarios manage_users read_global_audit : Permission

abbrev read_permissions : List Permission
read_permissions = read_product ∷ read_incident ∷ read_evidence ∷ read_replay ∷ read_reports ∷ []

abbrev analyst_permissions : List Permission
analyst_permissions =
    write_incident_note ∷ assign_incident ∷ change_incident_status ∷ set_incident_disposition
    ∷ write_incident_report ∷ review_playbook ∷ []

-- ROLE_PERMISSIONS
abbrev pub role_permissions : Role → List Permission
role_permissions read_only = read_permissions
role_permissions ot_engineer = read_permissions ++ write_incident_note ∷ []
role_permissions soc_analyst = read_permissions ++ analyst_permissions
role_permissions admin =
    read_permissions
    ++ analyst_permissions
    ++ manage_scenarios ∷ manage_users ∷ read_global_audit ∷ []

pub data SocAuditAction : Type 0 where
  login_succeeded login_failed logout : SocAuditAction
  local_user_created local_user_updated local_user_password_reset : SocAuditAction
  incident_assigned incident_status_changed incident_disposition_changed : SocAuditAction
  incident_note_added incident_report_saved : SocAuditAction
  scenario_started scenario_completed returned_to_baseline lab_reset : SocAuditAction

pub data SocAuditResult : Type 0 where
  accepted denied failed : SocAuditResult

-- The `value` of each member; a StrEnum member is equal to the member with the same value.
abbrev pub role_value : Role → String
role_value admin = "ADMIN"
role_value soc_analyst = "SOC_ANALYST"
role_value ot_engineer = "OT_ENGINEER"
role_value read_only = "READ_ONLY"

abbrev pub permission_value : Permission → String
permission_value read_product = "product:read"
permission_value read_incident = "incident:read"
permission_value read_evidence = "evidence:read"
permission_value read_replay = "replay:read"
permission_value read_reports = "reports:read"
permission_value write_incident_note = "incident:note:write"
permission_value assign_incident = "incident:assign"
permission_value change_incident_status = "incident:status:write"
permission_value set_incident_disposition = "incident:disposition:write"
permission_value write_incident_report = "incident:report:write"
permission_value review_playbook = "playbook:review"
permission_value manage_scenarios = "scenario:manage"
permission_value manage_users = "users:manage"
permission_value read_global_audit = "audit:read"

pub record LocalUser : Type 0 where
  pub user_id : Uuid
  pub username : Text
  pub display_name : String
  pub role : Role
  pub password_hash : Text
  pub active : Bool
  pub version : ℕ
  pub created_at : Datetime
  pub updated_at : Datetime
  pub password_changed_at : Datetime

pub record AuthSession : Type 0 where
  pub session_id : Uuid
  pub user_id : Uuid
  pub token_digest : Sha256
  pub csrf_digest : Sha256
  pub created_at : Datetime
  pub expires_at : Datetime
  pub last_seen_at : Datetime
  pub revoked_at : Option Datetime

pub record SocAuditEvent : Type 0 where
  pub audit_event_id : Uuid
  pub action : SocAuditAction
  pub result : SocAuditResult
  pub occurred_at : Datetime
  pub actor_user_id : Option Uuid
  pub subject_user_id : Option Uuid
  pub subject_label : Option Text
  pub incident_id : Option Uuid
  pub scenario_run_id : Option Uuid
  pub request_id : String
  pub safe_reason : Option String
  pub details : Details
