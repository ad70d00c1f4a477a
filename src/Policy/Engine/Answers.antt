-- ===== src/Policy/Engine/Answers.antt =====
-- Which requests PolicyEngine answers with a decision under the default rules of orchestrator/policy.py.
use mathlib.Core.Bool.{false≢true}
use claude_router.Prelude.{
  All, Bool, Bool-cases, List, Member, String, [], codes, err, false, here, inl, inr, ok, refl,
  some, subst, sym, there, true, ◌∙◌, ◌∷◌, ◌≡◌, ◌⊎◌,
}
use claude_router.Policy.{index_error, PolicyRequest, deny}
use claude_router.Policy.Paths.Stray.{IsStray, HasStray, in_scope-answers}
use claude_router.Policy.Deployment.{DeploymentProfile}
use claude_router.Policy.Rules.{reason, Callees, scope_rule, scope_verdict}
use claude_router.Policy.Engine.{
  PolicyDecision, default_rules, evaluate, is_scoped, outcomes, Outcome, PolicyRule, decide, noted,
}
use claude_router.Policy.Engine.Verdicts.{
  Answered, api_rule-Answered, secret_rule-Answered, command_rule-Answered, approval_rule-Answered,
  remote_rule-Answered,
}

-- A stray path that the scope rule meets.
abbrev MeetsStray : PolicyRequest → Type 0
MeetsStray r = IsStray (codes r.resource) ⊎ HasStray r.scopes

scope_verdict-Answered : (b : Bool) → Answered (scope_verdict b)
scope_verdict-Answered true = (_, refl)
scope_verdict-Answered false = (_, refl)

data ScopeCases (r : PolicyRequest) (p : DeploymentProfile) : Type 0 where
  answered :
      Answered (scope_rule r p)
      → ¬ (¬ (r.scopes ≡ []) × IsStray (codes r.resource))
      → ScopeCases r p
  raised : scope_rule r p ≡ err index_error → ¬ (r.scopes ≡ []) → MeetsStray r → ScopeCases r p

cons-not-nil : {s : String} {t : List String} → ¬ (s ∷ t ≡ [])
cons-not-nil h = cc

scope_rule-cases : (r : PolicyRequest) (p : DeploymentProfile) → ScopeCases r p
unfolding scope_rule
scope_rule-cases r p = by_scopes r.scopes refl
  where
    by_scopes : (scopes : List String) → r.scopes ≡ scopes → ScopeCases r p
    by_scopes [] e =
        answered (some (deny, reason "resource_outside_declared_scope"), rw e refl) (λ h. h.0 e)
    by_scopes (s ∷ scopes) e =
        let some_scope : ¬ (r.scopes ≡ []) = λ n. cons-not-nil (sym e ∙ n) in
        elim (in_scope-answers r.resource (s ∷ scopes)) [
          | inl (b, f, fine) ↦
              let (x, h) = scope_verdict-Answered b in answered (x, rw (e, f) h) (λ k. fine k.1)
          | inr (f, stray) ↦
              raised (rw (e, f) refl) some_scope
                (subst (λ z. IsStray (codes r.resource) ⊎ HasStray z) (sym e) stray)
        ]

module _ (r : PolicyRequest) (p : DeploymentProfile) where
  -- If the rule applies, it gives an answer.
  GivesAnswer : PolicyRule → Type 0
  GivesAnswer rule = rule.actions r.action ≡ true → Answered (rule.evaluator r p)

  outcomes-answers :
      (rules : List PolicyRule)
      → All GivesAnswer rules
      → (os : List Outcome) × (outcomes rules r p ≡ ok os)
  unfolding outcomes GivesAnswer
  outcomes-answers [] h = ([], refl)
  outcomes-answers (rule ∷ rules) h =
      let (os, e) = outcomes-answers rules h.1 in
      elim (Bool-cases (rule.actions r.action)) [
        | inr n ↦ (os, rw n e)
        | inl a ↦ let (x, f) = h.0 a in (noted rule.name x os, rw a (rw f (rw e refl)))
      ]

  -- If the rule applies, it gives an answer or raises an IndexError.
  AnswersOrRaises : PolicyRule → Type 0
  AnswersOrRaises rule =
      rule.actions r.action ≡ true
      → Answered (rule.evaluator r p) ⊎ (rule.evaluator r p ≡ err index_error)

  outcomes-raises :
      (rules : List PolicyRule) {rule : PolicyRule}
      → All AnswersOrRaises rules
      → Member rule rules
      → rule.actions r.action ≡ true
      → rule.evaluator r p ≡ err index_error
      → outcomes rules r p ≡ err index_error
  unfolding outcomes AnswersOrRaises
  outcomes-raises [] h m a e = elim m [ ]
  outcomes-raises (rule ∷ rules) h here a e = rw a (rw e refl)
  outcomes-raises (rule ∷ rules) h (there m) a e =
      let rest = outcomes-raises rules h.1 m a e in
      elim (Bool-cases (rule.actions r.action)) [
        | inr n ↦ rw n rest
        | inl b ↦ elim (h.0 b) [
          | inl (x, f) ↦ rw b (rw f (rw rest refl))
          | inr f ↦ rw b (rw f refl)
        ]
      ]

  default-answers :
      (env : Callees)
      → (is_scoped r.action ≡ true → Answered (scope_rule r p))
      → (d : PolicyDecision) × (evaluate (default_rules env) r p ≡ ok d)
  unfolding evaluate GivesAnswer
  default-answers env scope =
      let (os, e) = outcomes-answers (default_rules env) (
        λ a. api_rule-Answered env r p,
        (
          λ a. secret_rule-Answered env r p,
          (
            λ a. command_rule-Answered env r p,
            (scope, (λ a. approval_rule-Answered r p, (λ a. remote_rule-Answered r p, tt))),
          ),
        ),
      ) in
      (decide os, rw e refl)

  default-raises :
      (env : Callees)
      → is_scoped r.action ≡ true
      → scope_rule r p ≡ err index_error
      → evaluate (default_rules env) r p ≡ err index_error
  unfolding evaluate AnswersOrRaises
  default-raises env scoped raises =
      let e : outcomes (default_rules env) r p ≡ err index_error =
        outcomes-raises (default_rules env)
          (
            λ a. inl (api_rule-Answered env r p),
            (
              λ a. inl (secret_rule-Answered env r p),
              (
                λ a. inl (command_rule-Answered env r p),
                (
                  λ a. inr raises,
                  (
                    λ a. inl (approval_rule-Answered r p),
                    (λ a. inl (remote_rule-Answered r p), tt),
                  ),
                ),
              ),
            ),
          )
          (there (there (there here))) scoped raises in
      rw e refl

-- The default rules answer every request with a decision, except that a request to read, write or
-- apply an effect under declared scopes may end in an IndexError; then its resource or one of the
-- scopes is a stray path, such as ".". It does end so whenever its resource is a stray path.
pub request_is_answered_or_raises :
    (env : Callees) (r : PolicyRequest) (p : DeploymentProfile)
    → ((d : PolicyDecision) × (evaluate (default_rules env) r p ≡ ok d)
        × ¬ ((is_scoped r.action ≡ true) × ¬ (r.scopes ≡ []) × IsStray (codes r.resource)))
      ⊎ ((evaluate (default_rules env) r p ≡ err index_error)
          × (is_scoped r.action ≡ true)
          × ¬ (r.scopes ≡ [])
          × (IsStray (codes r.resource) ⊎ HasStray r.scopes))
request_is_answered_or_raises env r p = elim (Bool-cases (is_scoped r.action)) [
  | inr n ↦
      let (d, e) = default-answers r p env (λ s. absurd (false≢true (sym n ∙ s))) in
      inl (d, e, λ h. false≢true (sym n ∙ h.0))
  | inl s ↦ elim (scope_rule-cases r p) [
    | answered a fine ↦
        let (d, e) = default-answers r p env (λ x. a) in inl (d, e, λ h. fine (h.1, h.2))
    | raised e some_scope stray ↦ inr (default-raises r p env s e, s, some_scope, stray)
  ]
]
