-- ===== src/Incidents/Lifecycle/Reasons.antt =====
-- When the reason of a transition is accepted.
use ot_soc_fusion_x.Base.{
  ◌≡◌, refl, ◌↔◌, ◌⊎◌, inl, inr, String, Text, false, ◌&&◌, not, Option, none, some, Result, ok,
  err, ◌>>=◌, is_some, arith,
}
use ot_soc_fusion_x.Incidents.Model.{IncidentStatus, open_status, investigating}
use ot_soc_fusion_x.Incidents.Store.{
  Error, incident_lifecycle_error, incident_note_error, incident_version_conflict_error,
  incident_workflow_error,
}
use ot_soc_fusion_x.Incidents.Notes.{validate_note_text}
use ot_soc_fusion_x.Incidents.Notes.Safety.{IsSafeText, validate_note_text_iff}
use ot_soc_fusion_x.Incidents.Lifecycle.{requires_reason, clean_reason, as_lifecycle_error}
use ot_soc_fusion_x.Incidents.Lifecycle.Edges.{Edge, take_up, close, finish, reopen}

-- A reason that is given is safe text of at most 500 characters; it may be missing only where work on
-- an open incident begins.
abbrev pub IsReasoned : IncidentStatus → IncidentStatus → Option Text → Type 0
IsReasoned previous new_status none = (previous ≡ open_status) × (new_status ≡ investigating)
IsReasoned previous new_status (some reason) = IsSafeText 500 reason

cleaned :
    (reason : Text) {out : Option Text} (r : Result Error Text)
    → validate_note_text reason 500 ≡ r
    → as_lifecycle_error (r >>= λ text. ok (some text)) ≡ ok out
    → IsSafeText 500 reason × (out ≡ some reason)
cleaned reason (ok text) e h =
    let safe = (validate_note_text_iff reason 500 text).0 e in (safe.1, cc (safe.0))
cleaned reason (err (incident_note_error m)) e h = cc
cleaned reason (err other) e h = cc

-- A cleaned reason is the reason that was given, if that is safe.
pub clean_reason_iff :
    (reason : Text) (out : Option Text)
    → (clean_reason (some reason) ≡ ok out) ↔ ((out ≡ some reason) × IsSafeText 500 reason)
unfolding clean_reason
clean_reason_iff reason out = (
  λ h. let c = cleaned reason (validate_note_text reason 500) refl h in (c.1, c.0),
  λ h. rw ((validate_note_text_iff reason 500 reason).1 (refl, h.1)) (cc (h.0)),
)

clean_reason-none' : clean_reason none ≡ ok none
unfolding clean_reason
clean_reason-none' = refl

clean_reason-none : {out : Option Text} → clean_reason none ≡ ok out → out ≡ none
unfolding clean_reason
clean_reason-none h = cc

requires_reason-false :
    (s t : IncidentStatus)
    → Edge s t
    → requires_reason s t ≡ false
    → (s ≡ open_status) × (t ≡ investigating)
unfolding requires_reason
requires_reason-false _ _ take_up h = (refl, refl)
requires_reason-false _ _ close h = cc
requires_reason-false _ _ finish h = cc
requires_reason-false _ _ reopen h = cc

pub IsReasoned-of_clean :
    (s t : IncidentStatus) (given : Option Text) (reason : Option Text)
    → Edge s t
    → clean_reason given ≡ ok reason
    → (requires_reason s t && not (is_some reason)) ≡ false
    → IsReasoned s t given
IsReasoned-of_clean s t none reason edge c h =
    requires_reason-false s t edge (ground (arith, clean_reason-none c))
IsReasoned-of_clean s t (some text) reason edge c h = ((clean_reason_iff text reason).0 c).1

pub clean_of_reasoned :
    (s t : IncidentStatus) (given : Option Text)
    → Edge s t
    → IsReasoned s t given
    → (clean_reason given ≡ ok given) × ((requires_reason s t && not (is_some given)) ≡ false)
clean_of_reasoned s t none edge h = (clean_reason-none', unfold requires_reason in ground arith)
clean_of_reasoned s t (some text) edge h =
    ((clean_reason_iff text (some text)).1 (refl, h), ground arith)

clean-cases :
    (reason : Text) (r : Result Error Text)
    → validate_note_text reason 500 ≡ r
    → ((message : String) × (as_lifecycle_error (r >>= λ text. ok (some text))
          ≡ err (incident_lifecycle_error message)))
      ⊎ ((out : Option Text) × (as_lifecycle_error (r >>= λ text. ok (some text)) ≡ ok out))
clean-cases reason (ok text) e = inr (some text, refl)
clean-cases reason (err (incident_lifecycle_error m)) e = inl (m, refl)
clean-cases reason (err (incident_note_error m)) e = inl (m, refl)
clean-cases reason (err (incident_version_conflict_error m)) e =
    absurd (unfold validate_note_text in ground arith)
clean-cases reason (err (incident_workflow_error m)) e =
    absurd (unfold validate_note_text in ground arith)

-- An unsafe reason is an `IncidentLifecycleError`, and no other error.
pub clean_reason-cases :
    (given : Option Text)
    → ((message : String) × (clean_reason given ≡ err (incident_lifecycle_error message)))
      ⊎ ((out : Option Text) × (clean_reason given ≡ ok out))
unfolding clean_reason
clean_reason-cases none = inr (none, refl)
clean_reason-cases (some reason) = clean-cases reason (validate_note_text reason 500) refl
