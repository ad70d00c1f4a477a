-- ===== src/Policy/Engine/Access.antt =====
-- The default rules of orchestrator/policy.py in the engine.
use claude_router.Prelude.{
  >>=-eq-ok, Bool-cases, List, Member, Option, String, [], any, any-true_of_Member, ap, codes, here,
  inl, inr, none, ok, ok-injective, refl, some, there, true, ◌∙◌, ◌∷◌, ◌≡◌,
}
use claude_router.Policy.{PolicyEffect, allow, deny, PolicyRequest, remote_claim}
use claude_router.Policy.Paths.Containment.{IsUnder, scope_text, in_scope-IsUnder}
use claude_router.Policy.Deployment.{
  DeploymentProfile, is_remote_mode, missing_prerequisites, is_encrypted_secret_reference,
}
use claude_router.Policy.Rules.{
  Callees, Reason, reason, in_scope_if_any, scope_verdict, scope_rule, remote_rule, of_reference,
  secret_rule,
}
use claude_router.Policy.Engine.{
  Outcome, strongest, decide, PolicyRule, PolicyDecision, is_allow, is_scoped, rule_of,
  default_rules, evaluate, outcomes, decide, is_deny,
}
use claude_router.Policy.Engine.Decisions.{evaluate_lem, evaluate-verdict}

in_scope_if_any-IsUnder :
    (resource : String) (scopes : List String)
    → in_scope_if_any resource scopes ≡ ok true
    → (raw : String) × Member raw scopes × IsUnder (codes resource) (scope_text raw)
in_scope_if_any-IsUnder resource [] h = let bad = ok-injective h in cc
in_scope_if_any-IsUnder resource (s ∷ scopes) h = in_scope-IsUnder resource (s ∷ scopes) h

module _ (env : Callees) (r : PolicyRequest) (p : DeploymentProfile) (decision : PolicyDecision)
    (decided : evaluate (default_rules env) r p ≡ ok decision)
    (allowed : is_allow decision.effect ≡ true) where
  -- A rule that gives a verdict gives allow.
  only_allow :
      (rule : PolicyRule) (effect : PolicyEffect) (why : Reason)
      → Member rule (default_rules env)
      → rule.actions r.action ≡ true
      → rule.evaluator r p ≡ ok (some (effect, why))
      → effect ≡ allow
  only_allow rule effect why m applies verdict =
      ((evaluate_lem r p (default_rules env) decision decided).0 allowed).agreed rule effect why m
        (record { applies = applies; verdict = verdict })

  -- Where the default rules allow a file to be read or written, or an effect to be applied, the resource
  -- lies under a declared scope: neither is absolute, neither goes up, and the parts of the resource
  -- continue those of the scope.
  pub allowed_access-IsUnder :
      is_scoped r.action ≡ true
      → (raw : String) × Member raw r.scopes × IsUnder (codes r.resource) (scope_text raw)
  unfolding scope_rule
  allowed_access-IsUnder scoped =
      let rule = rule_of "declared_scope" is_scoped scope_rule in
      let m : Member rule (default_rules env) = there (there (there here)) in
      let (v, e) = evaluate-verdict r p (default_rules env) decision rule decided m scoped in
      let (b, k, h) = >>=-eq-ok (in_scope_if_any r.resource r.scopes) scope_verdict e in
      elim (Bool-cases b) [
        | inl t ↦ in_scope_if_any-IsUnder r.resource r.scopes (k ∙ ap ok t)
        | inr f ↦
            let d =
              only_allow rule deny (reason "resource_outside_declared_scope") m scoped
                (rw (k, f) refl) in
            cc
      ]

remote_rule-deny :
    (r : PolicyRequest) (p : DeploymentProfile)
    → (why : Reason) × (remote_rule r p ≡ ok (some (deny, why)))
unfolding remote_rule missing_prerequisites
remote_rule-deny r p = elim (Bool-cases (is_remote_mode p.mode)) [
  | inl e ↦ rw e (_, refl)
  | inr e ↦ rw e (_, refl)
]

secret_reference-verdict :
    (value : Option String)
    → (effect : PolicyEffect) × (why : Reason) × (of_reference value ≡ ok (some (effect, why)))
secret_reference-verdict none = (allow, _, refl)
secret_reference-verdict (some value) = elim (Bool-cases (is_encrypted_secret_reference value)) [
  | inl e ↦ (allow, reason "secret_boundary_satisfied", rw e refl)
  | inr e ↦ (deny, reason "unencrypted_secret_reference", rw e refl)
]

strongest-deny :
    (os : List Outcome) {o : Outcome} → Member o os → is_deny o.effect ≡ true → strongest os ≡ deny
strongest-deny os m d =
    let e : any (λ (x : Outcome). is_deny x.effect) os ≡ true =
      any-true_of_Member (λ (x : Outcome). is_deny x.effect) m d in
    rw e refl

-- Every request for a remote claim gets a decision, which denies it, whatever the deployment.
pub remote_claim_is_denied :
    (env : Callees) (r : PolicyRequest) (p : DeploymentProfile)
    → r.action ≡ remote_claim
    → (decision : PolicyDecision) × (evaluate (default_rules env) r p ≡ ok decision)
      × (decision.effect ≡ deny)
unfolding evaluate outcomes decide secret_rule any
remote_claim_is_denied env r p a =
    let (effect, why, s) = secret_reference-verdict r.secret_reference in
    let (because, d) = remote_rule-deny (record r { action = remote_claim }) p in
    let os : List Outcome =
      record { rule = "secret_boundary"; effect = effect; why = why }
      ∷ record { rule = "remote_activation"; effect = deny; why = because }
      ∷ [] in
    (decide os, rw (a, s, d) refl, strongest-deny os (there here) refl)
