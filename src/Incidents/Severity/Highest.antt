-- ===== src/Incidents/Severity/Highest.antt =====
-- What a sequence of escalations leaves.
use ot_soc_fusion_x.Base.{
  ◌≡◌, ◌≤◌, ◌<◌, refl, sym, ◌∙◌, ◌⊎◌, inl, inr, List, [], ◌∷◌, All, Any, arith, Bool-cases, ltb, ap,
}
use ot_soc_fusion_x.Platform.{Platform}
use ot_soc_fusion_x.Incidents.Model.{IncidentSeverity}
use ot_soc_fusion_x.Incidents.Tables.{Incident}
use ot_soc_fusion_x.Incidents.Store.{Session}
use ot_soc_fusion_x.Incidents.Severity.{
  Escalation, severity_rank, severity_increases, record_severity_escalation, escalate,
}

-- The severity is one of those that were there or proposed, and none of them is higher.
pub record IsHighest (before : IncidentSeverity) (escalations : List Escalation)
    (after : IncidentSeverity) : Type 0 where
  pub not_lower : severity_rank before ≤ severity_rank after
  pub reached : All (λ e. severity_rank e.proposed ≤ severity_rank after) escalations
  pub given : (after ≡ before) ⊎ Any (λ e. e.proposed ≡ after) escalations

-- One escalation before the others.
combined :
    (before : IncidentSeverity) (e : Escalation) (rest : List Escalation)
    (after between : IncidentSeverity)
    → IsHighest between rest after
    → ((severity_rank before < severity_rank e.proposed) × (between ≡ e.proposed))
      ⊎ ((severity_rank e.proposed ≤ severity_rank before) × (between ≡ before))
    → IsHighest before (e ∷ rest) after
combined before e rest after between h (inl (up, same)) = record {
  not_lower = omega (arith, up, ap severity_rank same, h.not_lower);
  reached = (omega (arith, ap severity_rank same, h.not_lower), h.reached);
  given = elim (h.given) [ inl kept ↦ inr (inl (sym (kept ∙ same))) | inr later ↦ inr (inr later) ];
}
combined before e rest after between h (inr (down, same)) = record {
  not_lower = omega (arith, ap severity_rank same, h.not_lower);
  reached = (omega (arith, down, ap severity_rank same, h.not_lower), h.reached);
  given = elim (h.given) [ inl kept ↦ inl (kept ∙ same) | inr later ↦ inr (inr later) ];
}

module _ (platform : Platform) where
  -- The escalations one after another.
  unfoldable pub escalate_all : List Escalation → Incident → Session → Incident × Session
  escalate_all [] incident s = (incident, s)
  escalate_all (e ∷ rest) incident s =
      let r = record_severity_escalation platform incident e s in escalate_all rest r.0 r.1

  record_severity_escalation-severity :
      (incident : Incident) (e : Escalation) (s : Session)
      → ((severity_rank incident.severity < severity_rank e.proposed)
          × ((record_severity_escalation platform incident e s).0.severity ≡ e.proposed))
        ⊎ ((severity_rank e.proposed ≤ severity_rank incident.severity)
            × ((record_severity_escalation platform incident e s).0.severity ≡ incident.severity))
  unfolding record_severity_escalation severity_increases escalate
  record_severity_escalation-severity incident e s =
      elim (Bool-cases (ltb (severity_rank incident.severity) (severity_rank e.proposed))) [
        | inl t ↦ inl (ground arith, rw (record_severity_escalation, severity_increases, t) refl)
        | inr f ↦ inr (ground arith, rw (record_severity_escalation, severity_increases, f) refl)
      ]

  -- After any sequence of escalations, in any order, the severity of the incident is the highest of
  -- the one that it had and those that were proposed: it never falls.
  pub escalate_all-IsHighest :
      (escalations : List Escalation) (incident : Incident) (s : Session)
      → IsHighest incident.severity escalations ((escalate_all escalations incident s).0.severity)
  unfolding escalate_all
  escalate_all-IsHighest [] incident s = record {
    not_lower = omega arith;
    reached = tt;
    given = inl refl;
  }
  escalate_all-IsHighest (e ∷ rest) incident s =
      let r = record_severity_escalation platform incident e s in
      let later = escalate_all-IsHighest rest r.0 r.1 in
      combined incident.severity e rest _ r.0.severity later
        (record_severity_escalation-severity incident e s)
