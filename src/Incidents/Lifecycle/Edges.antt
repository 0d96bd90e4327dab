-- ===== src/Incidents/Lifecycle/Edges.antt =====
-- The status machine of backend/app/incidents/lifecycle.py as a relation.
use ot_soc_fusion_x.Base.{◌≡◌, refl, ◌↔◌, true}
use ot_soc_fusion_x.Incidents.Model.{IncidentStatus, open_status, investigating, resolved}
use ot_soc_fusion_x.Incidents.Lifecycle.{is_allowed}

-- The four ways in which an analyst moves an incident.
pub data Edge : IncidentStatus → IncidentStatus → Type 0 where
  take_up : Edge open_status investigating
  close : Edge open_status resolved
  finish : Edge investigating resolved
  reopen : Edge resolved investigating

pub Edge-is_allowed : (s t : IncidentStatus) → (is_allowed s t ≡ true) ↔ Edge s t
unfolding is_allowed
Edge-is_allowed open_status open_status = (λ h. cc, λ e. elim e [ ])
Edge-is_allowed open_status investigating = (λ h. take_up, λ e. refl)
Edge-is_allowed open_status resolved = (λ h. close, λ e. refl)
Edge-is_allowed investigating open_status = (λ h. cc, λ e. elim e [ ])
Edge-is_allowed investigating investigating = (λ h. cc, λ e. elim e [ ])
Edge-is_allowed investigating resolved = (λ h. finish, λ e. refl)
Edge-is_allowed resolved open_status = (λ h. cc, λ e. elim e [ ])
Edge-is_allowed resolved investigating = (λ h. reopen, λ e. refl)
Edge-is_allowed resolved resolved = (λ h. cc, λ e. elim e [ ])
