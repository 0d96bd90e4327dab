-- ===== src/Incidents/PlainText.antt =====
-- The bounded plain text of backend/app/incidents/workflow.py.
use ot_soc_fusion_x.Base.{
  ℕ, Text, Bool, not, ◌&&◌, ◌||◌, [], ◌∷◌, ltb, ◌==◌, if◌then◌else◌, any, length, concat, is_space,
  str_int, Result, ok, err,
}
use ot_soc_fusion_x.Incidents.Store.{Error, incident_workflow_error}
use ot_soc_fusion_x.Incidents.Notes.{is_unsafe}

-- bool(text.strip())
unfoldable pub has_content : Text → Bool
unfolding is_space
has_content = any (λ c. not (is_space c))

unfoldable pub bounded_plain_text : Text → ℕ → Bool → Result Error Text
unfolding has_content is_unsafe str_int
bounded_plain_text value maximum allow_empty =
    if ltb maximum (length value) || (not allow_empty && not (has_content value))
    then err (
        incident_workflow_error (
          concat (
            "Plain text must contain between "
            ∷ str_int (if allow_empty then 0 else 1)
            ∷ " and "
            ∷ str_int maximum
            ∷ " characters."
            ∷ [])))
    else if any (λ c. c == 0) value || any is_unsafe value
    then err (incident_workflow_error "Plain text contains an unsafe control character.")
    else ok value
