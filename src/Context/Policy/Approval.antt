-- ===== src/Context/Policy/Approval.antt =====
-- What an approval rests on, and that a denying rule overrides any approval.
use ot_soc_fusion_x.Base.{
  ◌≡◌, ◌≢◌, refl, ◌↔◌, inl, inr, ◌∙◌, ap, String, Bool, true, false, Option, none, some, List, [],
  ◌∷◌, ok, any, Any, str_eq, eq_iff, Bool-cases, arith,
}
use ot_soc_fusion_x.Protocols.Model.{write, read_only, incompatible}
use ot_soc_fusion_x.Context.Model.{
  PolicyStatus, Decision, ZoneId, GovernedPath, CommunicationPolicyRule, AssetContextEvent,
  AssetResolution, AuthorizationInput, PolicyEvaluationResult, ResolutionStatus, zone_is,
}
use ot_soc_fusion_x.Context.Policy.{
  LoadedPolicy, equals, is_false, evaluate_rule, evaluate_path, evaluate_policy, path_between,
  matching_rule, is_forbidden_write,
}
use ot_soc_fusion_x.Context.Policy.Verdict.{known, allowed, IsOnPath-of}

equals-zone : (z : Option ZoneId) (y : ZoneId) → (equals zone_is z y ≡ true) ↔ (z ≡ some y)
equals-zone none y = (λ h. cc, λ h. cc)
equals-zone (some z) y = (λ h. ground arith, λ h. ground arith)

any-str_eq :
    (s : String) (items : List String) → (any (str_eq s) items ≡ true) ↔ Any (λ t. s ≡ t) items
any-str_eq s [] = (λ h. cc, λ h. elim h [ ])
any-str_eq s (t ∷ items) = (
  λ h. elim (Bool-cases (str_eq s t)) [
    | inl e ↦ inl ((eq_iff s t).0 e)
    | inr f ↦ inr ((any-str_eq s items).0 (rw f at h))
  ],
  λ h. elim h [
    | inl e ↦ rw ((eq_iff s t).1 e)
    | inr later ↦ ground (arith, (any-str_eq s items).1 later)
  ],
)

is_false-no : (o : Option Bool) → o ≢ some false → is_false o ≡ false
is_false-no none h = refl
is_false-no (some true) h = refl
is_false-no (some false) h = absurd (h refl)

approved_status :
    (path : GovernedPath) (rule : CommunicationPolicyRule)
    → rule.decision ≡ Decision.approved
    → (evaluate_rule allowed path (some rule)).policy_status ≡ PolicyStatus.approved
unfolding evaluate_rule
approved_status path rule h = rw h

-- The conditions of an approval.
pub record IsApproved (auth : AuthorizationInput) (context : AssetContextEvent)
    (policy : LoadedPolicy) : Type 0 where
  pub source_verified : auth.source_evidence_verified ≡ true
  pub semantic_verified : auth.semantic_evidence_verified ≡ true
  pub source_resolved : context.source_resolution.status ≡ ResolutionStatus.resolved
  pub destination_resolved : context.destination_resolution.status ≡ ResolutionStatus.resolved
  pub source_enabled : context.source_resolution.enabled ≢ some false
  pub destination_enabled : context.destination_resolution.enabled ≢ some false
  pub path : GovernedPath
  pub governed :
      path_between context.source_resolution context.destination_resolution policy ≡ some path
  pub source_zone : context.source_resolution.zone_id ≡ some path.source_zone
  pub destination_zone : context.destination_resolution.zone_id ≡ some path.destination_zone
  pub writable :
      auth.operation_category ≡ write
      → (auth.point_access_class ≢ some read_only) × (auth.operation_compatibility ≢ incompatible)
  pub protocol : Any (λ p. auth.protocol ≡ p) path.approved_protocols
  pub rule : CommunicationPolicyRule
  pub matching : matching_rule auth path.path_id policy ≡ ok (some rule)
  pub approves : rule.decision ≡ Decision.approved

writable_iff :
    (auth : AuthorizationInput)
    → (is_forbidden_write auth ≡ false) ↔ (
        auth.operation_category ≡ write
        → (auth.point_access_class ≢ some read_only)
          × (auth.operation_compatibility ≢ incompatible))
unfolding is_forbidden_write
writable_iff auth = (λ h w. (λ e. ground arith, λ e. ground arith), λ h. ground (arith, h))

-- The checks before the path.
record IsKnown (auth : AuthorizationInput) (context : AssetContextEvent) (policy : LoadedPolicy)
    (r : PolicyEvaluationResult) : Type 0 where
  source_verified : auth.source_evidence_verified ≡ true
  semantic_verified : auth.semantic_evidence_verified ≡ true
  source_resolved : context.source_resolution.status ≡ ResolutionStatus.resolved
  destination_resolved : context.destination_resolution.status ≡ ResolutionStatus.resolved
  source_enabled : is_false context.source_resolution.enabled ≡ false
  destination_enabled : is_false context.destination_resolution.enabled ≡ false
  goes_on :
      evaluate_path auth known context.source_resolution context.destination_resolution policy
        (path_between context.source_resolution context.destination_resolution policy)
      ≡ ok r

some_path :
    (auth : AuthorizationInput) (source destination : AssetResolution) (policy : LoadedPolicy)
    (o : Option GovernedPath) (r : PolicyEvaluationResult)
    → evaluate_path auth known source destination policy o ≡ ok r
    → r.policy_status ≡ PolicyStatus.approved
    → (path : GovernedPath) × (o ≡ some path)
unfolding evaluate_path
some_path auth source destination policy none r h e = absurd (ground arith)
some_path auth source destination policy (some path) r h e = (path, refl)

-- A deciding rule that approves.
approving :
    (path : GovernedPath) (m : Option CommunicationPolicyRule)
    → (evaluate_rule allowed path m).policy_status ≡ PolicyStatus.approved
    → (rule : CommunicationPolicyRule) × (m ≡ some rule) × (rule.decision ≡ Decision.approved)
unfolding evaluate_rule
approving path none h = cc
approving path (some rule) h = (rule, refl, ground arith)

module _ (auth : AuthorizationInput) (context : AssetContextEvent) (policy : LoadedPolicy) where
  IsKnown-of :
      (r : PolicyEvaluationResult)
      → evaluate_policy auth context policy ≡ ok r
      → r.policy_status ≡ PolicyStatus.approved
      → IsKnown auth context policy r
  unfolding evaluate_policy
  IsKnown-of r h e = ground arith

  pub approved_conditions :
      (r : PolicyEvaluationResult)
      → evaluate_policy auth context policy ≡ ok r
      → r.policy_status ≡ PolicyStatus.approved
      → IsApproved auth context policy
  approved_conditions r h e =
      let source = context.source_resolution in
      let destination = context.destination_resolution in
      let k = IsKnown-of r h e in
      let (path, found) =
        some_path auth source destination policy (path_between source destination policy) r
          k.goes_on e in
      let on = IsOnPath-of auth source destination policy r path (rw found at k.goes_on) (inl e) in
      let (rule, matched, approves) = approving path on.matched (rw (on.decided) at e) in
      record {
        source_verified = k.source_verified;
        semantic_verified = k.semantic_verified;
        source_resolved = k.source_resolved;
        destination_resolved = k.destination_resolved;
        source_enabled = λ q. cc (q, k.source_enabled);
        destination_enabled = λ q. cc (q, k.destination_enabled);
        path = path;
        governed = found;
        source_zone = (equals-zone source.zone_id path.source_zone).0 on.source_zone;
        destination_zone =
            (equals-zone destination.zone_id path.destination_zone).0 on.destination_zone;
        writable = (writable_iff auth).0 on.writable;
        protocol = (any-str_eq auth.protocol path.approved_protocols).0 on.protocol;
        rule = rule;
        matching = on.matching ∙ ap ok matched;
        approves = approves;
      }

  approved_path :
      (a : IsApproved auth context policy)
      → evaluate_path auth known context.source_resolution context.destination_resolution policy
          (some a.path)
        ≡ ok (evaluate_rule allowed a.path (some a.rule))
  unfolding evaluate_path
  approved_path a = rw (
    (equals-zone context.source_resolution.zone_id a.path.source_zone).1 a.source_zone,
    (equals-zone context.destination_resolution.zone_id a.path.destination_zone).1
        a.destination_zone,
    (writable_iff auth).1 a.writable,
    (any-str_eq auth.protocol a.path.approved_protocols).1 a.protocol,
    a.matching,
  )

  approved_result :
      (a : IsApproved auth context policy)
      → evaluate_policy auth context policy ≡ ok (evaluate_rule allowed a.path (some a.rule))
  unfolding evaluate_policy
  approved_result a =
      let source = context.source_resolution in
      let destination = context.destination_resolution in
      ground (
        arith,
        a.source_verified,
        a.semantic_verified,
        a.source_resolved,
        a.destination_resolved,
        is_false-no source.enabled a.source_enabled,
        is_false-no destination.enabled a.destination_enabled,
        ap (λ o. evaluate_path auth known source destination policy o) a.governed,
        approved_path a,
      )

  -- A communication is approved exactly when both pieces of evidence are verified, both assets are
  -- resolved and not disabled, the first governed path between them expects their zones and
  -- approves the protocol, the operation is no write to a read-only or incompatible point, and the
  -- rule that matches approves.
  pub approved_iff :
      ((r : PolicyEvaluationResult) × (evaluate_policy auth context policy ≡ ok r)
        × (r.policy_status ≡ PolicyStatus.approved))
      ↔ IsApproved auth context policy
  approved_iff = (
    λ (r, h, e). approved_conditions r h e,
    λ a. (
      evaluate_rule allowed a.path (some a.rule),
      approved_result a,
      approved_status a.path a.rule a.approves,
    ),
  )
