-- ===== src/Auth/Attempts.antt =====
-- backend/app/auth/service.py: what a login is given and issues, and the entries of the log on it.
use mathlib.Core.Option
use ot_soc_fusion_x.Base.{ℕ, ◌+◌, ◌*◌, String, Text, Option, none, some, [], ◌∷◌}
use ot_soc_fusion_x.Platform.{Sha256, Datetime, str}
use ot_soc_fusion_x.Auth.Model.{
  LocalUser, AuthSession, role_value, login_succeeded, login_failed, logout, accepted, denied,
}
use ot_soc_fusion_x.Auth.Store.{Draws, Settings}
use ot_soc_fusion_x.Auth.Audit.{SocAuditEntry}

-- The arguments of `authenticate_and_create_session`.
pub record LoginRequest : Type 0 where
  pub username : String
  pub password : Text
  pub request_id : String
  pub now : Option Datetime

pub record IssuedSession : Type 0 where
  pub user : LocalUser
  pub auth_session : AuthSession
  pub raw_session_token : Text
  pub raw_csrf_token : Text

-- A `LoginAttempt`: the issued session, if the login was accepted.
abbrev pub LoginAttempt : Type 0
LoginAttempt = Option IssuedSession

-- timedelta(minutes=n)
abbrev pub minutes : ℕ → ℕ
minutes n = n * 60000000

-- The row of the session that a login issues.
abbrev pub issued_row : Settings → Draws → Datetime → LocalUser → Sha256 → Sha256 → AuthSession
issued_row settings draws now user token_digest csrf_digest = record {
  session_id = draws.session_id;
  user_id = user.user_id;
  token_digest = token_digest;
  csrf_digest = csrf_digest;
  created_at = now;
  expires_at = now + minutes settings.auth_session_ttl_minutes;
  last_seen_at = now;
  revoked_at = none;
}

abbrev pub failure_entry : Datetime → LoginRequest → Option Text → Option LocalUser → SocAuditEntry
failure_entry now request username user = record {
  action = login_failed;
  result = denied;
  request_id = request.request_id;
  actor_user_id = none;
  subject_user_id = Option.map (λ u. u.user_id) user;
  subject_label = username;
  incident_id = none;
  scenario_run_id = none;
  safe_reason = some "Invalid local credentials or inactive account.";
  details = ("reason_code", str "INVALID_CREDENTIALS") ∷ [];
  occurred_at = some now;
}

abbrev pub success_entry : Datetime → LoginRequest → LocalUser → SocAuditEntry
success_entry now request user = record {
  action = login_succeeded;
  result = accepted;
  request_id = request.request_id;
  actor_user_id = some user.user_id;
  subject_user_id = some user.user_id;
  subject_label = some user.username;
  incident_id = none;
  scenario_run_id = none;
  safe_reason = none;
  details = ("role", str (role_value user.role)) ∷ [];
  occurred_at = some now;
}

abbrev pub logout_entry : Datetime → LocalUser → String → SocAuditEntry
logout_entry now actor_user request_id = record {
  action = logout;
  result = accepted;
  request_id = request_id;
  actor_user_id = some actor_user.user_id;
  subject_user_id = some actor_user.user_id;
  subject_label = some actor_user.username;
  incident_id = none;
  scenario_run_id = none;
  safe_reason = none;
  details = [];
  occurred_at = some now;
}
