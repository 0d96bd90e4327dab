-- ===== src/Auth/Audit.antt =====
-- backend/app/auth/audit.py: the append-only log of security events, which refuses details that could
-- carry a credential.
use ot_soc_fusion_x.Base.{
  ℕ, ◌+◌, String, Text, Bool, true, false, ◌&&◌, ◌||◌, not, Option, none, some, List, [], ◌∷◌, ◌++◌,
  map, leb, ltb, ◌==◌, if◌then◌else◌, any, length, codes, str_int, sorted_items, Result, ok, guard,
  ◌>>=◌, ◌>>◌, ◌-◌,
}
use ot_soc_fusion_x.Platform.{
  Uuid, Datetime, Value, null, str, plain, num, flag, texts, Details, or_now,
}
use ot_soc_fusion_x.Auth.Model.{SocAuditAction, SocAuditResult, SocAuditEvent}
use ot_soc_fusion_x.Auth.Store.{AuthStore, AuthError, audit_payload_error, Primitives}

abbrev max_audit_details_bytes : ℕ
max_audit_details_bytes = 4096

abbrev sensitive_key_parts : List String
sensitive_key_parts = "password" ∷ "token" ∷ "cookie" ∷ "csrf" ∷ "secret" ∷ "credential" ∷ []

abbrev starts_with : Text → Text → Bool
starts_with [] text = true
starts_with (c ∷ part) [] = false
starts_with (c ∷ part) (d ∷ text) = c == d && starts_with part text

-- part in text
abbrev contains : Text → Text → Bool
contains part [] = starts_with part []
contains part (d ∷ text) = starts_with part (d ∷ text) || contains part text

abbrev pub is_ascii : Text → Bool
is_ascii text = not (any (λ c. not (ltb c 128)) text)

abbrev lower_ascii : ℕ → ℕ
lower_ascii c = if leb 65 c && leb c 90 then c + 32 else c

abbrev upper_ascii : ℕ → ℕ
upper_ascii c = if leb 97 c && leb c 122 then c - 32 else c

-- len(json.dumps(text)) without its quotes, for one character: all but printable ASCII is escaped.
abbrev escaped_size : ℕ → ℕ
escaped_size c =
    if c == 34 || c == 92 || c == 8 || c == 9 || c == 10 || c == 12 || c == 13
    then 2
    else (if leb 32 c && leb c 126 then 1 else (if ltb c 65536 then 6 else 12))

abbrev total : List ℕ → ℕ
total [] = 0
total (n ∷ rest) = n + total rest

-- The items with a comma after each but the last.
abbrev separated : List ℕ → ℕ
separated [] = 0
separated (n ∷ []) = n
separated (n ∷ m ∷ rest) = n + 1 + separated (m ∷ rest)

abbrev text_size : Text → ℕ
text_size text = 2 + total (map escaped_size text)

-- len(json.dumps(value, separators=(",", ":"), ensure_ascii=True))
value_size : Value → ℕ
unfolding str_int
value_size null = 4
value_size (str s) = text_size (codes s)
value_size (plain text) = text_size text
value_size (num n) = length (codes (str_int n))
value_size (flag b) = if b then 4 else 5
value_size (texts items) = 2 + separated (map (λ s. text_size (codes s)) items)

encoded_size : Details → ℕ
unfolding value_size
encoded_size details =
    2
    + separated
        (map (λ (item : String × Value). text_size (codes item.0) + 1 + value_size item.1) details)

-- The keyword arguments of `append_soc_audit_event`; the identifiers of an incident and of a run are
-- given by other packages.
pub record SocAuditEntry : Type 0 where
  pub action : SocAuditAction
  pub result : SocAuditResult
  pub request_id : String
  pub actor_user_id : Option Uuid
  pub subject_user_id : Option Uuid
  pub subject_label : Option Text
  pub incident_id : Option Uuid
  pub scenario_run_id : Option Uuid
  pub safe_reason : Option String
  pub details : Details
  pub occurred_at : Option Datetime

-- value is not None and not low <= len(value) <= high
abbrev is_outside : ℕ → ℕ → Option Text → Bool
is_outside low high none = false
is_outside low high (some text) = not (leb low (length text) && leb (length text) high)

abbrev optional_codes : Option String → Option Text
optional_codes none = none
optional_codes (some s) = some (codes s)

abbrev pub soc_audit_event : Uuid → Datetime → Details → SocAuditEntry → SocAuditEvent
soc_audit_event audit_event_id clock safe_details entry = record {
  audit_event_id = audit_event_id;
  action = entry.action;
  result = entry.result;
  occurred_at = or_now clock entry.occurred_at;
  actor_user_id = entry.actor_user_id;
  subject_user_id = entry.subject_user_id;
  subject_label = entry.subject_label;
  incident_id = entry.incident_id;
  scenario_run_id = entry.scenario_run_id;
  request_id = entry.request_id;
  safe_reason = entry.safe_reason;
  details = safe_details;
}

module _ (primitives : Primitives) where
  -- value.casefold(), which is `lower` on ASCII
  unfoldable pub casefold : Text → Text
  casefold text = if is_ascii text then map lower_ascii text else primitives.casefold text

  -- value.upper()
  unfoldable pub upper : Text → Text
  upper text = if is_ascii text then map upper_ascii text else primitives.upper text

  -- any(part in lowered for part in _SENSITIVE_KEY_PARTS)
  unfoldable pub is_sensitive : String → Bool
  unfolding casefold
  is_sensitive key = any (λ part. contains (codes part) (casefold (codes key))) sensitive_key_parts

  -- The values of the program hold no dictionary, so the keys are those of the details.
  unfoldable pub reject_sensitive_keys : Details → Result AuthError (Unit {0})
  unfolding is_sensitive
  reject_sensitive_keys [] = ok tt
  reject_sensitive_keys ((key, value) ∷ rest) = do
    guard (not (is_sensitive key))
        (audit_payload_error "Sensitive values are prohibited in audit details.")
    reject_sensitive_keys rest

  -- The copy that `json.loads` reads back has its keys in order.
  unfoldable pub validated_details : Details → Result AuthError Details
  unfolding encoded_size sorted_items
  validated_details details = do
    reject_sensitive_keys details
    guard (leb (encoded_size details) max_audit_details_bytes)
        (audit_payload_error "Audit details exceed the size limit.")
    ok (sorted_items details)

  unfoldable pub append_soc_audit_event :
      Uuid → Datetime → SocAuditEntry → AuthStore → Result AuthError AuthStore
  append_soc_audit_event audit_event_id clock entry store = do
    safe_details ← validated_details entry.details
    guard (not (is_outside 8 64 (some (codes entry.request_id))))
        (audit_payload_error "Audit request ID is invalid.")
    guard (not (is_outside 1 80 entry.subject_label))
        (audit_payload_error "Audit subject label is invalid.")
    guard (not (is_outside 1 300 (optional_codes entry.safe_reason)))
        (audit_payload_error "Audit reason is invalid.")
    ok (record store {
      soc_audit_events =
          store.soc_audit_events ++ soc_audit_event audit_event_id clock safe_details entry ∷ [];
    })
