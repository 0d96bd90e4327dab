-- ===== src/Context/Policy/Denial.antt =====
-- A denying rule overrides any approval, and which rules make the evaluation fail.
use ot_soc_fusion_x.Base.{
  ◌≡◌, ◌≢◌, refl, inl, inr, Bool, true, some, List, [], ◌∷◌, ok, Any, select, Bool-cases, subst,
}
use ot_soc_fusion_x.Context.Model.{
  PolicyStatus, Decision, GovernedPath, CommunicationPolicyRule, AssetContextEvent,
  AuthorizationInput, PolicyEvaluationResult, is_denied,
}
use ot_soc_fusion_x.Context.Policy.{
  LoadedPolicy, applies, evaluate_policy, path_between, matching_rule, select_match, only_denial,
}
use ot_soc_fusion_x.Context.Policy.Approval.{approved_conditions}

-- A rule that passes the test stands among the selected ones.
Any-select :
    {A : Type 0} (P : A → Type 0) (test : A → Bool) (items : List A)
    → Any (λ x. (test x ≡ true) × P x) items
    → Any P (select test items)
Any-select P test [] h = elim h [ ]
Any-select P test (x ∷ items) (inl (t, p)) = rw t (inl p)
Any-select P test (x ∷ items) (inr later) = elim (Bool-cases (test x)) [
  | inl t ↦ rw t (inr (Any-select P test items later))
  | inr f ↦ rw f (Any-select P test items later)
]

-- What is selected passes the test.
select-head :
    {A : Type 0} (test : A → Bool) (items : List A) {x : A} {rest : List A}
    → select test items ≡ x ∷ rest
    → test x ≡ true
select-head test [] h = cc
select-head test (y ∷ items) {x} h = elim (Bool-cases (test y)) [
  | inl t ↦ let e : y ≡ x = cc (rw t at h) in subst (λ z. test z ≡ true) e t
  | inr f ↦ select-head test items (rw f at h)
]

only_denial-denied :
    (denies : List CommunicationPolicyRule) {rule : CommunicationPolicyRule}
    → only_denial denies ≡ ok (some rule)
    → denies ≡ rule ∷ []
only_denial-denied [] h = cc
only_denial-denied (r ∷ []) h = cc
only_denial-denied (r ∷ q ∷ rest) h = cc

is_denied-eq : (d : Decision) → is_denied d ≡ true → d ≡ Decision.denied
is_denied-eq Decision.approved h = cc
is_denied-eq Decision.denied h = refl

-- With a denying rule among the matches, the selected rule denies.
select_match-denied :
    (matches : List CommunicationPolicyRule) {rule : CommunicationPolicyRule}
    → Any (λ r. r.decision ≡ Decision.denied) matches
    → select_match matches ≡ ok (some rule)
    → rule.decision ≡ Decision.denied
select_match-denied [] d h = elim d [ ]
select_match-denied (r ∷ []) (inl d) h = cc
select_match-denied (r ∷ []) (inr d) h = elim d [ ]
select_match-denied (r ∷ q ∷ rest) d h = is_denied-eq _ (
    select-head (λ x. is_denied x.decision) (r ∷ q ∷ rest)
      (only_denial-denied (select (λ x. is_denied x.decision) (r ∷ q ∷ rest)) h))

-- An input to which a denying rule of the policy applies, on the path between the two assets, is never
-- approved, whatever other rules apply.
pub deny_overrides :
    (auth : AuthorizationInput) (context : AssetContextEvent) (policy : LoadedPolicy)
    (path : GovernedPath) (r : PolicyEvaluationResult)
    → path_between context.source_resolution context.destination_resolution policy ≡ some path
    → Any
        (λ rule. (applies auth path.path_id rule ≡ true) × (rule.decision ≡ Decision.denied))
        policy.profile.rules
    → evaluate_policy auth context policy ≡ ok r
    → r.policy_status ≢ PolicyStatus.approved
unfolding matching_rule
deny_overrides auth context policy path r found denies h e =
    let a = approved_conditions auth context policy r h e in
    let same : a.path ≡ path = cc (a.governed, found) in
    let matching = rw same at (a.matching) in
    let d =
      select_match-denied (select (applies auth path.path_id) policy.profile.rules)
        (Any-select (λ rule. rule.decision ≡ Decision.denied) (applies auth path.path_id)
          policy.profile.rules denies)
        matching in
    cc (d, a.approves)
