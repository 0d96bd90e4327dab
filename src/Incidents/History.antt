-- ===== src/Incidents/History.antt =====
-- The status history of an incident is a walk through the status machine that ends at its status.
use ot_soc_fusion_x.Base.{
  ℕ, ◌+◌, ◌≤◌, ◌≡◌, none, some, List, [], ◌∷◌, ◌++◌, select, str_eq, eq_iff, arith, refl, sym, ◌∙◌,
  inl, inr, ok, err, Result, Bool-cases,
}
use ot_soc_fusion_x.Platform.{Uuid, Platform, Datetime}
use ot_soc_fusion_x.Incidents.Model.{IncidentStatus, open_status}
use ot_soc_fusion_x.Incidents.Tables.{Incident, IncidentStatusHistory}
use ot_soc_fusion_x.Incidents.Store.{Session, find_incident, Error}
use ot_soc_fusion_x.Incidents.Lifecycle.Edges.{Edge}
use ot_soc_fusion_x.Incidents.Change.{Change, StatusChange, kept, moved}
use ot_soc_fusion_x.Incidents.Store.Laws.{find_incident-id}
use ot_soc_fusion_x.Incidents.Rows.{select-append_pass, select-append_fail, str_eq_self, str_eq-ne}
use ot_soc_fusion_x.Incidents.Operations.{Operation, run, serve, committed}
use ot_soc_fusion_x.Incidents.Change.OfOperation.{run-Change}

-- The rows from the initial one on: each begins at the status and not before the version at which the
-- one before it ended, follows an edge, and raises the version by one.
pub data IsHistory : List IncidentStatusHistory → IncidentStatus → ℕ → Type 0 where
  opened :
      (row : IncidentStatusHistory)
      → row.previous_status ≡ none
      → row.new_status ≡ open_status
      → row.version_after ≡ 1
      → IsHistory (row ∷ []) open_status 1
  next :
      {rows : List IncidentStatusHistory} {s t : IncidentStatus} {v w : ℕ}
      → IsHistory rows s v
      → (row : IncidentStatusHistory) → row.previous_status ≡ some s
      → row.new_status ≡ t
      → Edge s t
      → v ≤ row.version_before
      → row.version_after ≡ row.version_before + 1
      → w ≡ row.version_after
      → IsHistory (rows ++ row ∷ []) t w

abbrev pub history_of : Uuid → Session → List IncidentStatusHistory
history_of id s = select (λ row. str_eq row.incident_id id) s.status_history

pub record HasHistory (s : Session) : Type 0 where
  pub at :
      (id : Uuid) (i : Incident)
      → find_incident id s.incidents ≡ some i
      → (v : ℕ) × IsHistory (history_of id s) i.status v × (v ≤ i.version)

module _ {s s' : Session} (c : Change s s') where
  -- The history of the incident that the operation is about.
  own-IsHistory :
      StatusChange s s' c.before c.after
      → (v : ℕ) × IsHistory (history_of c.id s) c.before.status v × (v ≤ c.before.version)
      → (v : ℕ) × IsHistory (history_of c.id s') c.after.status v × (v ≤ c.after.version)
  own-IsHistory (kept rows status) (v, h, le) = (v, rw (rows, status) h, omega (arith, c.version))
  own-IsHistory (moved row rows rid prev new edge vb va up) (v, h, le) =
      let mine = str_eq_self _ _ (rid ∙ find_incident-id c.id s.incidents c.found) in
      (
        c.after.version,
        rw (rows, select-append_pass (λ r. str_eq r.incident_id c.id) s.status_history row mine)
            (next h row prev new edge (omega arith) (omega arith) (sym va)),
        omega arith,
      )

  -- The histories of the others.
  other_history :
      (j : Uuid)
      → ¬ (c.id ≡ j)
      → StatusChange s s' c.before c.after
      → history_of j s' ≡ history_of j s
  other_history j h (kept rows status) = rw rows
  other_history j h (moved row rows rid prev new edge vb va up) =
      let mine = rid ∙ find_incident-id c.id s.incidents c.found in
      let foreign = str_eq-ne row.incident_id j (λ e. h (sym mine ∙ e)) in
      rw (rows, select-append_fail (λ r. str_eq r.incident_id j) s.status_history row foreign)

  pub Change-HasHistory : HasHistory s → HasHistory s'
  Change-HasHistory h = record {
    at = λ j i found. elim (Bool-cases (str_eq c.id j)) [
      | inl same ↦
          let e = (eq_iff c.id j).0 same in
          let after : c.after ≡ i = cc (c.stored, found, e) in
          rw (← e, ← after) (own-IsHistory c.status (h.at c.id c.before c.found))
      | inr different ↦
          let ne : ¬ (c.id ≡ j) = λ e. ground (arith, str_eq_self c.id j e) in
          rw (other_history j ne c.status) (h.at j i (sym (c.others j ne) ∙ found))
    ];
  }

module _ (platform : Platform) where
  committed-HasHistory :
      (clock : Datetime) (o : Operation) (s : Session) (r : Result Error Session)
      → run platform clock o s ≡ r
      → HasHistory s
      → HasHistory (committed platform s r)
  committed-HasHistory clock o s (ok s') e h = Change-HasHistory (run-Change platform clock s o e) h
  committed-HasHistory clock o s (err error) e h = h

  -- Whatever analysts ask for, in whatever order, one request after another, the rows of the status history of each incident
  -- stay a walk along allowed transitions from OPEN to the status that the incident has, with
  -- versions that rise and never pass the incident's.
  pub serve-HasHistory :
      (requests : List (Datetime × Operation)) (s : Session)
      → HasHistory s
      → HasHistory (serve platform requests s)
  unfolding serve
  serve-HasHistory [] s h = h
  serve-HasHistory ((clock, o) ∷ rest) s h =
      serve-HasHistory rest (committed platform s (run platform clock o s))
        (committed-HasHistory clock o s (run platform clock o s) refl h)
