-- ===== src/Context/Policy/Verdict.antt =====
-- When a communication is approved.
use ot_soc_fusion_x.Base.{
  ◌≡◌, refl, ◌↔◌, ◌⊎◌, inl, inr, subst, Bool-cases, Result, err, true, false, Option, none, some,
  ok, any, str_eq, arith,
}
use ot_soc_fusion_x.Context.Model.{
  PolicyStatus, GovernedPath, CommunicationPolicyRule, AssetResolution, AssetContextEvent,
  AuthorizationDimensions, AuthorizationInput, PolicyEvaluationResult, satisfied, zone_is,
}
use ot_soc_fusion_x.Context.Policy.{
  LoadedPolicy, PolicyProfileError, map_result, equals, unknown_dimensions, evaluate_rule,
  evaluate_path, evaluate_policy, path_between, matching_rule, is_forbidden_write,
}

-- Each of the nine dimensions is satisfied.
pub record AllSatisfied (d : AuthorizationDimensions) : Type 0 where
  pub source_asset_known : d.source_asset_known ≡ satisfied
  pub destination_asset_known : d.destination_asset_known ≡ satisfied
  pub source_zone_expected : d.source_zone_expected ≡ satisfied
  pub destination_zone_expected : d.destination_zone_expected ≡ satisfied
  pub communication_path_approved : d.communication_path_approved ≡ satisfied
  pub protocol_approved : d.protocol_approved ≡ satisfied
  pub operation_approved : d.operation_approved ≡ satisfied
  pub point_classification_allows : d.point_classification_allows ≡ satisfied
  pub source_role_approved : d.source_role_approved ≡ satisfied

evaluate_rule-verdict :
    (d : AuthorizationDimensions) (path : GovernedPath) (m : Option CommunicationPolicyRule)
    → (d.source_asset_known ≡ satisfied)
    → (d.destination_asset_known ≡ satisfied)
    → (d.source_zone_expected ≡ satisfied)
    → (d.destination_zone_expected ≡ satisfied)
    → (d.protocol_approved ≡ satisfied)
    → (d.point_classification_allows ≡ satisfied)
    → ((evaluate_rule d path m).policy_status ≡ PolicyStatus.approved)
      ↔ AllSatisfied (evaluate_rule d path m).dimension_results
unfolding evaluate_rule
evaluate_rule-verdict d path m h1 h2 h3 h4 h5 h6 = (λ h. ground arith, λ h. ground arith)

abbrev pub known : AuthorizationDimensions
known = record unknown_dimensions {
  source_asset_known = satisfied;
  destination_asset_known = satisfied;
}

-- The dimensions when every check on the path has passed.
abbrev pub allowed : AuthorizationDimensions
allowed = record known {
  source_zone_expected = satisfied;
  destination_zone_expected = satisfied;
  point_classification_allows = satisfied;
  protocol_approved = satisfied;
}

pub decision :
    {A B : Type 0} (f : A → B) (m : Result PolicyProfileError A) {r : B}
    → map_result f m ≡ ok r
    → (a : A) × (m ≡ ok a) × (r ≡ f a)
decision f (ok a) h = (a, refl, cc (h))
decision f (err e) h = cc

-- The path's checks, and the rule that decides.
pub record IsOnPath (auth : AuthorizationInput) (source destination : AssetResolution)
    (policy : LoadedPolicy) (path : GovernedPath) (r : PolicyEvaluationResult) : Type 0 where
  pub source_zone : equals zone_is source.zone_id path.source_zone ≡ true
  pub destination_zone : equals zone_is destination.zone_id path.destination_zone ≡ true
  pub writable : is_forbidden_write auth ≡ false
  pub protocol : any (str_eq auth.protocol) path.approved_protocols ≡ true
  pub matched : Option CommunicationPolicyRule
  pub matching : matching_rule auth path.path_id policy ≡ ok matched
  pub decided : r ≡ evaluate_rule allowed path matched

module _ (auth : AuthorizationInput) (source destination : AssetResolution) (policy : LoadedPolicy)
    (r : PolicyEvaluationResult) where
  refused :
      (x : PolicyEvaluationResult)
      → ◌≡◌ {A = Result PolicyProfileError PolicyEvaluationResult} (ok x) (ok r)
      → x.policy_status ≡ PolicyStatus.denied
      → ¬ AllSatisfied x.dimension_results
      → (r.policy_status ≡ PolicyStatus.approved) ⊎ AllSatisfied r.dimension_results
      → ⊥
  refused x h d n (inl e) = cc (h, d, e)
  refused x h d n (inr a) =
      let e : r ≡ x = cc (h) in n (subst (λ y. AllSatisfied y.dimension_results) e a)

  pub IsOnPath-of :
      (path : GovernedPath)
      → evaluate_path auth known source destination policy (some path) ≡ ok r
      → (r.policy_status ≡ PolicyStatus.approved) ⊎ AllSatisfied r.dimension_results
      → IsOnPath auth source destination policy path r
  unfolding evaluate_path
  IsOnPath-of path h e = elim (Bool-cases (equals zone_is source.zone_id path.source_zone)) [
    | inr f ↦ absurd (refused _ (rw f at h) refl (λ a. cc (a.source_zone_expected)) e)
    | inl z ↦ elim (Bool-cases (equals zone_is destination.zone_id path.destination_zone)) [
      | inr f ↦ absurd (refused _ (rw (z, f) at h) refl (λ a. cc (a.destination_zone_expected)) e)
      | inl z' ↦ elim (Bool-cases (is_forbidden_write auth)) [
        | inl f ↦
            absurd (refused _ (rw (z, z', f) at h) refl (λ a. cc (a.point_classification_allows)) e)
        | inr w ↦ elim (Bool-cases (any (str_eq auth.protocol) path.approved_protocols)) [
          | inr f ↦
              absurd (refused _ (rw (z, z', w, f) at h) refl (λ a. cc (a.protocol_approved)) e)
          | inl p ↦
              let (m, q, d) =
                decision (evaluate_rule allowed path) (matching_rule auth path.path_id policy)
                  (rw (z, z', w, p) at h) in
              record {
                source_zone = z;
                destination_zone = z';
                writable = w;
                protocol = p;
                matched = m;
                matching = q;
                decided = d;
              }
        ]
      ]
    ]
  ]

  evaluate_path-verdict :
      (path : Option GovernedPath)
      → evaluate_path auth known source destination policy path ≡ ok r
      → (r.policy_status ≡ PolicyStatus.approved) ↔ AllSatisfied r.dimension_results
  unfolding evaluate_path
  evaluate_path-verdict none h = (λ e. ground arith, λ a. ground arith)
  evaluate_path-verdict (some path) h = (
    λ e.
        let on = IsOnPath-of path h (inl e) in
        rw (on.decided) (
          (evaluate_rule-verdict allowed path on.matched refl refl refl refl refl refl).0
            (rw (on.decided) at e)),
    λ a.
        let on = IsOnPath-of path h (inr a) in
        rw (on.decided) (
          (evaluate_rule-verdict allowed path on.matched refl refl refl refl refl refl).1
            (rw (on.decided) at a)),
  )

-- The verdict is APPROVED exactly when the explanation has all nine dimensions satisfied.
pub approved_iff_dimensions :
    (auth : AuthorizationInput) (context : AssetContextEvent) (policy : LoadedPolicy)
    (r : PolicyEvaluationResult)
    → evaluate_policy auth context policy ≡ ok r
    → (r.policy_status ≡ PolicyStatus.approved) ↔ AllSatisfied r.dimension_results
unfolding evaluate_policy
approved_iff_dimensions auth context policy r h = (
  λ e. ground (
    arith,
    (evaluate_path-verdict auth context.source_resolution context.destination_resolution policy r
        (path_between context.source_resolution context.destination_resolution policy)),
  ),
  λ a. ground (
    arith,
    (evaluate_path-verdict auth context.source_resolution context.destination_resolution policy r
        (path_between context.source_resolution context.destination_resolution policy)),
  ),
)
