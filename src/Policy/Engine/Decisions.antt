-- ===== src/Policy/Engine/Decisions.antt =====
-- What a decision says of the rules that apply.
use claude_router.Prelude.{
  >>=-eq-ok, Bool-cases, List, Member, Member-cons, Option, String, [], all, any, any-false-Member,
  any-false_of_Member, false, here, inl, inr, none, ok, ok-injective, refl, some, subst, sym, there,
  true, ◌↔◌, ◌∙◌, ◌∷◌, ◌≡◌, ◌⊎◌,
}
use claude_router.Policy.{PolicyEffect, allow, PolicyRequest, deny, require_approval}
use claude_router.Policy.Deployment.{DeploymentProfile}
use claude_router.Policy.Rules.{Reason}
use claude_router.Policy.Engine.{
  PolicyRule, Outcome, noted, outcomes, PolicyDecision, decide, evaluate, is_allow, is_deny,
  is_require_approval, strongest,
}

is_other : (e : PolicyEffect) → is_deny e ≡ false → is_require_approval e ≡ false → e ≡ allow
is_other allow d q = refl
is_other deny d q = cc
is_other require_approval d q = cc

noted-cases :
    (name : String) (x : Option (PolicyEffect × Reason)) (os : List Outcome) (o : Outcome)
    → Member o (noted name x os)
    → ((effect : PolicyEffect) × (why : Reason) × (x ≡ some (effect, why))
        × (o ≡ record { rule = name; effect = effect; why = why }))
      ⊎ Member o os
noted-cases name none os o m = inr m
noted-cases name (some (effect, why)) os o m = elim (Member-cons m) [
  | inl e ↦ inl (effect, why, refl, e)
  | inr n ↦ inr n
]

module _ (r : PolicyRequest) (p : DeploymentProfile) where
  -- The rule is for the action, and says this.
  pub record Says (rule : PolicyRule) (effect : PolicyEffect) (why : Reason) : Type 0 where
    pub applies : rule.actions r.action ≡ true
    pub verdict : rule.evaluator r p ≡ ok (some (effect, why))

  -- A rule says allow, and no rule says otherwise.
  pub record Approves (rules : List PolicyRule) : Type 0 where
    pub approver : (rule : PolicyRule) × Member rule rules × (why : Reason) × Says rule allow why
    pub agreed :
        (rule : PolicyRule) (effect : PolicyEffect) (why : Reason)
        → Member rule rules
        → Says rule effect why
        → effect ≡ allow

  abbrev outcome_of : PolicyRule → PolicyEffect → Reason → Outcome
  outcome_of rule effect why = record { rule = rule.name; effect = effect; why = why }

  noted-Member :
      (name : String) (o : Option (PolicyEffect × Reason)) (os : List Outcome) {x : Outcome}
      → Member x os
      → Member x (noted name o os)
  noted-Member name none os m = m
  noted-Member name (some (effect, why)) os m = there m

  outcomes-Member :
      (rules : List PolicyRule) (os : List Outcome) (rule : PolicyRule) (effect : PolicyEffect)
      (why : Reason)
      → outcomes rules r p ≡ ok os
      → Member rule rules
      → Says rule effect why
      → Member (outcome_of rule effect why) os
  unfolding outcomes
  outcomes-Member [] os rule effect why h m says = elim m [ ]
  outcomes-Member (q ∷ rules) os rule effect why h m says = elim (Bool-cases (q.actions r.action)) [
    | inl a ↦
        let (o, e, h1) = >>=-eq-ok (q.evaluator r p) _ (rw a at h) in
        let (others, k, h2) = >>=-eq-ok (outcomes rules r p) _ h1 in
        elim (Member-cons m) [
          | inl same_rule ↦
              let s = subst (λ x. Says x effect why) same_rule says in
              let q_is : o ≡ some (effect, why) = ok-injective (sym e ∙ s.verdict) in
              subst (λ x. Member (outcome_of x effect why) os) (sym same_rule)
                (subst (Member (outcome_of q effect why)) (ok-injective h2) (
                  subst (λ x. Member (outcome_of q effect why) (noted q.name x others)) (sym q_is)
                    here))
          | inr n ↦
              subst (Member (outcome_of rule effect why)) (ok-injective h2) (
                noted-Member q.name o others
                  (outcomes-Member rules others rule effect why k n says))
        ]
    | inr a ↦ elim (Member-cons m) [
      | inl same_rule ↦ let bad = (subst (λ x. Says x effect why) same_rule says).applies in cc
      | inr n ↦ outcomes-Member rules os rule effect why (rw a at h) n says
    ]
  ]

  -- A decision needs the verdict of every rule for the action.
  outcomes-verdict :
      (rules : List PolicyRule) (os : List Outcome) (rule : PolicyRule)
      → outcomes rules r p ≡ ok os
      → Member rule rules
      → rule.actions r.action ≡ true
      → (v : Option (PolicyEffect × Reason)) × (rule.evaluator r p ≡ ok v)
  unfolding outcomes
  outcomes-verdict [] os rule h m applies = elim m [ ]
  outcomes-verdict (q ∷ rules) os rule h m applies = elim (Bool-cases (q.actions r.action)) [
    | inl a ↦
        let (o, e, h1) = >>=-eq-ok (q.evaluator r p) _ (rw a at h) in
        let (others, k, h2) = >>=-eq-ok (outcomes rules r p) _ h1 in
        elim (Member-cons m) [
          | inl p_is ↦ (o, subst (λ (x : PolicyRule). x.evaluator r p ≡ ok o) (sym p_is) e)
          | inr n ↦ outcomes-verdict rules others rule k n applies
        ]
    | inr a ↦ elim (Member-cons m) [
      | inl p_is ↦ let b = subst (λ (x : PolicyRule). x.actions r.action ≡ true) p_is applies in cc
      | inr n ↦ outcomes-verdict rules os rule (rw a at h) n applies
    ]
  ]

  pub evaluate-verdict :
      (rules : List PolicyRule) (decision : PolicyDecision) (rule : PolicyRule)
      → evaluate rules r p ≡ ok decision
      → Member rule rules
      → rule.actions r.action ≡ true
      → (v : Option (PolicyEffect × Reason)) × (rule.evaluator r p ≡ ok v)
  unfolding evaluate
  evaluate-verdict rules decision rule h m applies =
      let (os, k, h1) = >>=-eq-ok (outcomes rules r p) _ h in
      outcomes-verdict rules os rule k m applies

  -- Every outcome comes from a rule.
  Member-outcomes :
      (rules : List PolicyRule) (os : List Outcome) (o : Outcome)
      → outcomes rules r p ≡ ok os
      → Member o os
      → (rule : PolicyRule) × Member rule rules × Says rule o.effect o.why
  unfolding outcomes
  Member-outcomes [] os o h m = elim (subst (Member o) (sym (ok-injective h)) m) [ ]
  Member-outcomes (q ∷ rules) os o h m = elim (Bool-cases (q.actions r.action)) [
    | inl a ↦
        let (x, e, h1) = >>=-eq-ok (q.evaluator r p) _ (rw a at h) in
        let (others, k, h2) = >>=-eq-ok (outcomes rules r p) _ h1 in
        elim (noted-cases q.name x others o (subst (Member o) (sym (ok-injective h2)) m)) [
          | inl (effect, why, x_is, o_is) ↦ (
            q,
            here,
            subst (λ (z : Outcome). Says q z.effect z.why) (sym o_is)
                (record { applies = a; verdict = subst (λ z. q.evaluator r p ≡ ok z) x_is e }),
          )
          | inr n ↦ let (rule, l, s) = Member-outcomes rules others o k n in (rule, there l, s)
        ]
    | inr a ↦ let (rule, l, s) = Member-outcomes rules os o (rw a at h) m in (rule, there l, s)
  ]

  strongest-allow :
      (os : List Outcome) (o : Outcome)
      → is_allow (strongest os) ≡ true
      → Member o os
      → o.effect ≡ allow
  strongest-allow os o h m = elim (Bool-cases (any (λ (x : Outcome). is_deny x.effect) os)) [
    | inl d ↦ let bad = rw d at h in cc
    | inr d ↦ elim (Bool-cases (any (λ (x : Outcome). is_require_approval x.effect) os)) [
      | inl q ↦ let bad = rw (d, q) at h in cc
      | inr q ↦
          is_other o.effect (any-false-Member (λ (x : Outcome). is_deny x.effect) m d)
            (any-false-Member (λ (x : Outcome). is_require_approval x.effect) m q)
    ]
  ]

  allow-strongest :
      (os : List Outcome)
      → ((o : Outcome) → Member o os → o.effect ≡ allow)
      → is_allow (strongest os) ≡ true
  allow-strongest os h =
      let d : any (λ (x : Outcome). is_deny x.effect) os ≡ false =
        any-false_of_Member (λ (x : Outcome). is_deny x.effect) os (λ o m. rw (h o m) refl) in
      let q : any (λ (x : Outcome). is_require_approval x.effect) os ≡ false =
        any-false_of_Member (λ (x : Outcome). is_require_approval x.effect) os
          (λ o m. rw (h o m) refl) in
      rw (d, q) refl

  decide-allow :
      (os : List Outcome)
      → is_allow (decide os).effect ≡ true
      → (o : Outcome) × Member o os × (is_allow (strongest os) ≡ true)
  unfolding decide
  decide-allow [] h = cc
  decide-allow (o ∷ os) h = (o, here, h)

  allow-decide :
      (os : List Outcome) (o : Outcome)
      → Member o os
      → is_allow (strongest os) ≡ true
      → is_allow (decide os).effect ≡ true
  unfolding decide
  allow-decide [] o m h = elim m [ ]
  allow-decide (x ∷ os) o m h = h

  -- A decision of `evaluate` allows the request exactly when some rule for its action says allow and no
  -- rule for its action says deny or asks for an approval, in whatever order the rules stand.
  pub evaluate_lem :
      (rules : List PolicyRule) (decision : PolicyDecision)
      → evaluate rules r p ≡ ok decision
      → (is_allow decision.effect ≡ true) ↔ Approves rules
  unfolding evaluate
  evaluate_lem rules decision h =
      let (os, k, h1) = >>=-eq-ok (outcomes rules r p) _ h in
      let d : decide os ≡ decision = ok-injective h1 in
      (
        λ a.
            let (o, m, all) = decide-allow os (rw d a) in
            let (rule, l, s) = Member-outcomes rules os o k m in
            record {
              approver =
                  (rule, l, o.why, subst (λ e. Says rule e o.why) (strongest-allow os o all m) s);
              agreed = λ other effect why n t.
                  strongest-allow os (outcome_of other effect why) all
                    (outcomes-Member rules os other effect why k n t);
            },
        λ a.
            let (rule, m, why, s) = a.approver in
            rw (← d) (
              allow-decide os (outcome_of rule allow why)
                (outcomes-Member rules os rule allow why k m s)
                (allow-strongest os (λ o l.
                  let (other, n, t) = Member-outcomes rules os o k l in
                  a.agreed other o.effect o.why n t))),
      )
