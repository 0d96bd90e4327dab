-- ===== src/Incidents/Trail.antt =====
-- The audit events of an incident account for every change of its version.
pub mod Opened
use ot_soc_fusion_x.Base.{
  ℕ, ◌+◌, ◌≡◌, refl, ◌⊎◌, ap, subst, sym, ◌∙◌, inl, inr, some, List, [], ◌∷◌, ◌++◌, ok, err, Result,
  select, str_eq, eq_iff, Bool-cases, arith,
}
use ot_soc_fusion_x.Platform.{Platform, Uuid, Datetime}
use ot_soc_fusion_x.Incidents.Tables.{Incident, IncidentAuditEvent}
use ot_soc_fusion_x.Incidents.Store.{Session, Error, find_incident}
use ot_soc_fusion_x.Incidents.Rows.{select-append_pass, select-append_fail, str_eq_self, str_eq-ne}
use ot_soc_fusion_x.Incidents.Operations.{Operation, run, serve, committed}
use ot_soc_fusion_x.Incidents.Change.{Change}
use ot_soc_fusion_x.Incidents.Change.OfOperation.{run-Change}

-- From the creation on, each event begins at the version at which the one before it ended, and keeps
-- it or raises it by one.
pub data IsTrail : List IncidentAuditEvent → ℕ → Type 0 where
  created :
      (event : IncidentAuditEvent)
      → event.version_before ≡ 0
      → event.version_after ≡ 1
      → IsTrail (event ∷ []) 1
  then :
      {events : List IncidentAuditEvent} {v w : ℕ}
      → IsTrail events v
      → (event : IncidentAuditEvent) → event.version_before ≡ v
      → event.version_after ≡ w
      → (w ≡ v) ⊎ (w ≡ v + 1)
      → IsTrail (events ++ event ∷ []) w

abbrev pub audit_of : Uuid → Session → List IncidentAuditEvent
audit_of id s = select (λ event. str_eq event.incident_id id) s.audit_events

-- The audit events of one incident account for its version.
pub record HasTrail (id : Uuid) (s : Session) : Type 0 where
  pub at :
      (i : Incident) → find_incident id s.incidents ≡ some i → IsTrail (audit_of id s) i.version

module _ {s s' : Session} (c : Change s s') where
  own_trail :
      IsTrail (audit_of c.id s) c.before.version → IsTrail (audit_of c.id s') c.after.version
  own_trail h =
      let mine = str_eq_self c.event.incident_id c.id c.event_id in
      rw
        (c.audited, select-append_pass (λ e. str_eq e.incident_id c.id) s.audit_events c.event mine)
        (then h c.event c.event_before c.event_after c.version)

  other_trail : (j : Uuid) → ¬ (c.id ≡ j) → audit_of j s' ≡ audit_of j s
  other_trail j h =
      let foreign = str_eq-ne c.event.incident_id j (λ e. h (sym c.event_id ∙ e)) in
      rw
        (c.audited, select-append_fail (λ e. str_eq e.incident_id j) s.audit_events c.event foreign)

  pub Change-HasTrail : (j : Uuid) → HasTrail j s → HasTrail j s'
  Change-HasTrail j h = record {
    at = λ i found. elim (Bool-cases (str_eq c.id j)) [
      | inl same ↦
          let e = (eq_iff c.id j).0 same in
          let after : c.after ≡ i = cc (c.stored, found, e) in
          let trail : IsTrail (audit_of c.id s) c.before.version =
            subst (λ k. IsTrail (audit_of k s) c.before.version) (sym e)
              (h.at c.before (ap (λ k. find_incident k s.incidents) (sym e) ∙ c.found)) in
          rw (← e, ← after) (own_trail trail)
      | inr different ↦
          let ne : ¬ (c.id ≡ j) = λ e. ground (arith, str_eq_self c.id j e) in
          rw (other_trail j ne) (h.at i (sym (c.others j ne) ∙ found))
    ];
  }

module _ (platform : Platform) (id : Uuid) where
  committed-HasTrail :
      (clock : Datetime) (o : Operation) (s : Session) (r : Result Error Session)
      → run platform clock o s ≡ r
      → HasTrail id s
      → HasTrail id (committed platform s r)
  committed-HasTrail clock o s (ok s') e h = Change-HasTrail (run-Change platform clock s o e) id h
  committed-HasTrail clock o s (err error) e h = h

  -- If the audit events of an incident are a gapless account of its version, they stay one whatever
  -- analysts ask for on this and on other incidents, one request after another: each event begins at the
  -- version at which the one before it ended and keeps it or raises it by one, and the last ends at the
  -- version that the incident has.
  pub serve-HasTrail :
      (requests : List (Datetime × Operation)) (s : Session)
      → HasTrail id s
      → HasTrail id (serve platform requests s)
  unfolding serve
  serve-HasTrail [] s h = h
  serve-HasTrail ((clock, o) ∷ rest) s h =
      serve-HasTrail rest (committed platform s (run platform clock o s))
        (committed-HasTrail clock o s (run platform clock o s) refl h)
