-- ===== src/Incidents/Counted/Enriched.antt =====
-- The evidence count and the enrichment of an incident.
use ot_soc_fusion_x.Base.{
  ℕ, ◌+◌, ◌≡◌, refl, ◌∙◌, sym, ap, Bool, true, false, not, ◌&&◌, Option, none, some, List, [], ◌∷◌,
  ◌++◌, length, map, str_eq, eq_iff, Bool-cases, inl, inr, arith, Result, ok, ◌>>=◌, >>=-eq-ok,
  guard-eq-ok, ok-injective, subst, String,
}
use ot_soc_fusion_x.Platform.{Platform, Uuid, Sha256, Datetime}
use ot_soc_fusion_x.Incidents.Model.{CandidateMembership}
use ot_soc_fusion_x.Incidents.Tables.{Incident}
use ot_soc_fusion_x.Incidents.Store.{Session, find_incident, save_incident}
use ot_soc_fusion_x.Incidents.Store.Laws.{find_incident-put_self}
use ot_soc_fusion_x.Incidents.Severity.{record_severity_escalation, escalate, severity_increases}
use ot_soc_fusion_x.Incidents.Candidate.{QualifiedIncidentCandidate, memberships_of}
use ot_soc_fusion_x.Incidents.Creation.{IntakeError, insert_memberships}
use ot_soc_fusion_x.Incidents.Enrichment.{
  Outcome, effective, bind_s3_scope, bind_both, zip_strict, enriched_incident, record_evidence,
  escalate_enriched, write_enrichment, enrich_incident, bind_scope, written, enriched, existing,
  is_empty, settled,
}
use ot_soc_fusion_x.Incidents.Counts.{
  count, insert_memberships-incidents, insert_memberships-count, insert_memberships-other,
}
use ot_soc_fusion_x.Incidents.Counted.{
  counted, AreDistinct, IsCounted, saved-IsCounted, same_tables,
}

module _ (platform : Platform) where
  record_evidence-tables :
      (i : Incident) (before : ℕ) (now : Datetime) (request_id : String)
      (ms : List CandidateMembership) (s : Session)
      → let s' = record_evidence platform i before now request_id ms s in
        (s'.incidents ≡ s.incidents) × (s'.memberships ≡ s.memberships)
  unfolding record_evidence
  record_evidence-tables i before now request_id [] s = (refl, refl)
  record_evidence-tables i before now request_id (m ∷ ms) s =
      let rest = record_evidence-tables i before now request_id ms _ in (rest.0, rest.1)

  bind_both-count :
      (i : Incident) (run : String) (config : Sha256) {changed : Bool} {bound : Incident}
      → bind_both i run config ≡ ok (changed, bound)
      → (bound.incident_id ≡ i.incident_id) × (bound.evidence_count ≡ i.evidence_count)
  unfolding bind_both
  bind_both-count i run config h = (ground (arith, h), ground (arith, h))

  bind_scope-count :
      (i : Incident) (run : Option String) (config : Option Sha256) {changed : Bool}
      {bound : Incident}
      → bind_scope i run config ≡ ok (changed, bound)
      → (bound.incident_id ≡ i.incident_id) × (bound.evidence_count ≡ i.evidence_count)
  bind_scope-count i none none h =
      let p = ok-injective h in
      (ap (λ x. x.1.incident_id) (sym p), ap (λ x. x.1.evidence_count) (sym p))
  bind_scope-count i (some run) (some config) h = bind_both-count i run config h
  bind_scope-count i none (some config) h = cc
  bind_scope-count i (some run) none h = cc

  bind_s3_scope-count :
      (i : Incident) (c : QualifiedIncidentCandidate) {changed : Bool} {bound : Incident}
      → bind_s3_scope i c ≡ ok (changed, bound)
      → (bound.incident_id ≡ i.incident_id) × (bound.evidence_count ≡ i.evidence_count)
  unfolding bind_s3_scope
  bind_s3_scope-count i c h = bind_scope-count i c.bound_simulation_id c.bound_configuration_hash h

  escalate_enriched-IsCounted :
      (i : Incident) (c : QualifiedIncidentCandidate) (ms : List CandidateMembership) (before : ℕ)
      (now : Datetime) (request_id : String) (s : Session)
      → find_incident i.incident_id s.incidents ≡ some i
      → IsCounted s
      → IsCounted (escalate_enriched platform i c ms before now request_id s)
  unfolding escalate_enriched record_severity_escalation escalate
  escalate_enriched-IsCounted i c ms before now request_id s found h =
      let raised : Incident = record i { severity = c.severity } in
      let saved =
        saved-IsCounted raised s found (sym (ap counted found) ∙ h.at i.incident_id) (λ j _. h.at j)
          h.distinct in
      elim (Bool-cases (severity_increases i.severity c.severity)) [
        | inl t ↦
            rw (escalate_enriched, record_severity_escalation, t)
              (same_tables (save_incident raised s) _ refl refl saved)
        | inr f ↦ rw (escalate_enriched, record_severity_escalation, f) h
      ]

  -- What an enrichment writes: the incident counts what was inserted.
  written-IsCounted :
      (i bound : Incident) (c : QualifiedIncidentCandidate) (inserted : List CandidateMembership)
      (severity_changed : Bool) (now : Datetime) (request_id : String)
      (process : List (String × Uuid)) (s : Session) {old : Incident}
      → find_incident bound.incident_id s.incidents ≡ some old
      → bound.evidence_count + length inserted ≡ count bound.incident_id s.memberships
      → ((j : Uuid)
          → ¬ (bound.incident_id ≡ j)
          → counted (find_incident j s.incidents) ≡ count j s.memberships)
      → AreDistinct s.incidents
      → IsCounted (written platform i bound c inserted severity_changed now request_id process s)
  unfolding written enriched_incident save_incident
  written-IsCounted i bound c inserted severity_changed now request_id process s found n others d =
      let new = enriched_incident bound c (length inserted) process now in
      let after =
        record_evidence platform new i.version now request_id inserted (save_incident new s) in
      let t = record_evidence-tables new i.version now request_id inserted (save_incident new s) in
      let recorded : IsCounted after =
        same_tables (save_incident new s) after t.0 t.1 (saved-IsCounted new s found n others d) in
      let here : find_incident new.incident_id after.incidents ≡ some new =
        ap (find_incident new.incident_id) t.0
        ∙ find_incident-put_self new.incident_id new s.incidents refl found in
      elim (Bool-cases severity_changed) [
        | inl t ↦
            rw (written, t)
              (escalate_enriched-IsCounted new c inserted i.version now request_id after here
                recorded)
        | inr f ↦ rw (written, f) recorded
      ]

  write_enrichment-IsCounted :
      (i bound : Incident) (c : QualifiedIncidentCandidate) (inserted : List CandidateMembership)
      (severity_changed : Bool) (now : Datetime) (request_id : String) (s : Session)
      {out : Outcome × Session}
      → ((process : List (String × Uuid))
          → IsCounted
              (written platform i bound c inserted severity_changed now request_id process s))
      → write_enrichment platform i bound c inserted severity_changed now request_id s ≡ ok out
      → IsCounted out.1
  unfolding write_enrichment
  write_enrichment-IsCounted i bound c inserted severity_changed now request_id s h returned =
      let put : List (String × Uuid) → Result IntakeError (Outcome × Session) = λ process.
        ok (
          enriched,
          written platform i bound c inserted severity_changed now request_id process s,
        ) in
      let (known, _, r1) =
        >>=-eq-ok (zip_strict i.process_asset_keys i.process_asset_ids)
          (λ known.
            zip_strict c.process_asset_keys c.process_asset_ids
            >>= (λ incoming. put (known ++ incoming)))
          returned in
      let (incoming, _, r2) =
        >>=-eq-ok (zip_strict c.process_asset_keys c.process_asset_ids)
          (λ incoming. put (known ++ incoming)) r1 in
      subst (λ (x : Outcome × Session). IsCounted x.1) (ok-injective r2) (h (known ++ incoming))

  decided :
      (test : Bool) (first : Outcome × Session) {out : Outcome × Session}
      {second : Result IntakeError (Outcome × Session)}
      → (test ≡ true → IsCounted first.1)
      → (second ≡ ok out → IsCounted out.1)
      → settled test (ok first) second ≡ ok out
      → IsCounted out.1
  decided true first f g h =
      subst (λ (x : Outcome × Session). IsCounted x.1) (ok-injective h) (f refl)
  decided false first f g h = g h

  -- Where nothing was inserted, the counts are those of before.
  unchanged_IsCounted :
      (i : Incident) (added : List CandidateMembership × Session)
      → is_empty added.0 ≡ true
      → i.evidence_count + length added.0 ≡ count i.incident_id added.1.memberships
      → find_incident i.incident_id added.1.incidents ≡ some i
      → ((j : Uuid)
          → ¬ (i.incident_id ≡ j)
          → counted (find_incident j added.1.incidents) ≡ count j added.1.memberships)
      → AreDistinct added.1.incidents
      → IsCounted added.1
  unchanged_IsCounted i ([], s) e n found others d = record {
    at = λ id. elim (Bool-cases (str_eq i.incident_id id)) [
      | inl t ↦
          let here : i.incident_id ≡ id = ground (arith, eq_iff i.incident_id id) in
          let own : counted (find_incident i.incident_id s.incidents)
              ≡ count i.incident_id s.memberships =
            ap counted found ∙ omega (arith, n) in
          subst (λ j. counted (find_incident j s.incidents) ≡ count j s.memberships) here own
      | inr f ↦ others id (ground (arith, eq_iff i.incident_id id))
    ];
    distinct = d;
  }
  unchanged_IsCounted i (m ∷ ms, s) e n found others d = cc

  -- The enrichment of an incident in the tables keeps the counts.
  pub enrich_incident-IsCounted :
      (i : Incident) (c : QualifiedIncidentCandidate) (now : Datetime) (request_id : String)
      (s : Session) {out : Outcome × Session}
      → find_incident i.incident_id s.incidents ≡ some i
      → IsCounted s
      → enrich_incident platform i c now request_id s ≡ ok out
      → IsCounted out.1
  unfolding enrich_incident
  enrich_incident-IsCounted i c now request_id s {out} found h returned =
      let ms = map (effective i) (memberships_of c) in
      let added = insert_memberships platform i.incident_id ms now s in
      let (_, r1) =
        guard-eq-ok (str_eq i.qualification_rule_id c.qualification_rule_id) _ _ returned in
      let ((changed, bound), b, r2) = >>=-eq-ok (bind_s3_scope i c) _ r1 in
      let (same_id, same_count) = bind_s3_scope-count i c b in
      let incidents = insert_memberships-incidents platform i.incident_id now ms s in
      let n = insert_memberships-count platform i.incident_id now ms s in
      let before : i.evidence_count ≡ count i.incident_id s.memberships =
        sym (ap counted found) ∙ h.at i.incident_id in
      let others : (j : Uuid)
          → ¬ (i.incident_id ≡ j)
          → counted (find_incident j added.1.incidents) ≡ count j added.1.memberships =
        λ j apart.
          ap (λ r. counted (find_incident j r)) incidents
          ∙ h.at j
          ∙ sym (insert_memberships-other platform i.incident_id now j ms s apart) in
      let distinct : AreDistinct added.1.incidents = rw incidents h.distinct in
      let found' : find_incident bound.incident_id added.1.incidents ≡ some i =
        rw (same_id, incidents) found in
      decided (is_empty added.0 && not changed && not (severity_increases i.severity c.severity))
        (existing, added.1)
        (λ t.
          unchanged_IsCounted i added (ground (arith, t)) (omega (arith, n, before))
            (rw incidents found) others distinct)
        (write_enrichment-IsCounted i bound c added.0 (severity_increases i.severity c.severity) now
          request_id added.1
          (λ process.
            written-IsCounted i bound c added.0 (severity_increases i.severity c.severity) now
              request_id process added.1 found'
              (rw (same_id, same_count) (omega (arith, n, before))) (rw same_id others) distinct))
        r2
