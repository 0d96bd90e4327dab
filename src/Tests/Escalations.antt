-- ===== src/Tests/Escalations.antt =====
-- The theorem on escalations at a sequence that goes up and down.
use ot_soc_fusion_x.Base.{List, [], ◌∷◌}
use ot_soc_fusion_x.Incidents.Model.{
  IncidentSeverity, EvidenceRole, CandidateMembership, low, medium, high,
}
use ot_soc_fusion_x.Incidents.Severity.{Escalation}
use ot_soc_fusion_x.Incidents.Severity.Highest.{IsHighest, escalate_all, escalate_all-IsHighest}
use ot_soc_fusion_x.Tests.Samples

abbrev membership : CandidateMembership
membership = record {
  evidence_id = "evidence-2";
  evidence_type = "correlation_finding";
  evidence_schema = "otsoc.correlation";
  evidence_schema_version = "1.0.0";
  integrity_sha256 = "00";
  role = EvidenceRole.supporting;
  observed_at = 150;
  received_at = 160;
}

abbrev escalation : IncidentSeverity → Escalation
escalation proposed = record {
  proposed = proposed;
  triggering_membership = membership;
  calculated_at = 170;
  request_id = "request-9";
  version_before = 1;
  version_after = 2;
}

abbrev escalations : List Escalation
escalations = escalation low ∷ escalation high ∷ escalation medium ∷ []

escalate_all-IsHighest_example :
    IsHighest medium escalations
      ((escalate_all Samples.platform escalations Samples.created Samples.start).0.severity)
escalate_all-IsHighest_example =
    escalate_all-IsHighest Samples.platform escalations Samples.created Samples.start
