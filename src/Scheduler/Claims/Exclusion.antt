-- ===== src/Scheduler/Claims/Exclusion.antt =====
-- The write scopes of different owners in `_claims`.
use mathlib.Core.Bool.{false≢true}
use claude_router.Scheduler.Scopes.Symmetry.{scopes_conflict_comm}
use claude_router.Prelude.{
  ==_comm, Bool, Bool-cases, List, Member, Member-cons, Option, Steps, String, [], after, any,
  any-false-Member, ap, arith, false, here, inl, inr, ok, refl, still, sym, there, true, ≡→==, ◌==◌,
  ◌||◌, ◌∙◌, ◌∷◌, ◌≡◌, ◌⊎◌, nat_eq, string_eq, option_eq,
}
use claude_router.Scheduler.Scopes.{PathText, scopes_conflict, canonical_scopes}
use claude_router.Scheduler.Claims.{
  Claim, Waiter, ScopeClaims, set_claim, claim_blocks, waiter_blocks, acquire, poll, enter, release,
  pop_claim, request_of, can_grant, Step, created, acquires, enters, polls, releases,
}

-- Two claims of different owners do not conflict.
unfoldable pub AreDisjoint : (PathText → PathText) → List Claim → Type 0
AreDisjoint fold cs =
    (c d : Claim)
    → Member c cs
    → Member d cs
    → (c.owner_id == d.owner_id) ≡ false
    → scopes_conflict fold c.scopes d.scopes ≡ false

Member-set_claim :
    (c d : Claim) (cs : List Claim) → Member d (set_claim c cs) → (d ≡ c) ⊎ Member d cs
unfolding set_claim
Member-set_claim c d [] m = Member-cons m
Member-set_claim c d (e ∷ es) m = elim (Bool-cases (e.owner_id == c.owner_id)) [
  | inl t ↦ elim (Member-cons (rw t at m)) [ inl p ↦ inl p | inr k ↦ inr (there k) ]
  | inr t ↦ elim (Member-cons (rw t at m)) [
    | inl p ↦ inr (rw p here)
    | inr k ↦ elim (Member-set_claim c d es k) [ inl p ↦ inl p | inr l ↦ inr (there l) ]
  ]
]

Member-pop_claim :
    (o : String) (d : Claim) (cs : List Claim) → Member d (pop_claim o cs) → Member d cs
unfolding pop_claim
Member-pop_claim o d [] m = m
Member-pop_claim o d (c ∷ cs) m = elim (Bool-cases (c.owner_id == o)) [
  | inl t ↦ there (rw t at m)
  | inr t ↦ elim (Member-cons (rw t at m)) [
    | inl p ↦ rw p here
    | inr k ↦ there (Member-pop_claim o d cs k)
  ]
]

unblocked :
    (fold : PathText → PathText) (r d : Claim) (cs : List Claim)
    → any (claim_blocks fold r) cs ≡ false
    → Member d cs
    → (r.owner_id == d.owner_id) ≡ false
    → scopes_conflict fold r.scopes d.scopes ≡ false
unfolding claim_blocks
unblocked fold r d cs free m e =
    let b = any-false-Member (claim_blocks fold r) m free in
    let s = ==_comm r.owner_id d.owner_id in ground arith

-- A request that no claim blocks may be entered.
set_claim-AreDisjoint :
    (fold : PathText → PathText) (r : Claim) (cs : List Claim)
    → AreDisjoint fold cs
    → any (claim_blocks fold r) cs ≡ false
    → AreDisjoint fold (set_claim r cs)
unfolding AreDisjoint
set_claim-AreDisjoint fold r cs v free c d mc md e = elim (Member-set_claim r c cs mc) [
  | inl p ↦ elim (Member-set_claim r d cs md) [
    | inl q ↦
        absurd (false≢true (sym e ∙ ≡→== c.owner_id d.owner_id (ap (λ x. x.owner_id) (p ∙ sym q))))
    | inr kd ↦ rw p (unblocked fold r d cs free kd (rw p at e))
  ]
  | inr kc ↦ elim (Member-set_claim r d cs md) [
    | inl q ↦ rw q (
        scopes_conflict_comm fold c.scopes r.scopes
        ∙ unblocked fold r c cs free kc (==_comm r.owner_id c.owner_id ∙ rw q at e))
    | inr kd ↦ v c d kc kd e
  ]
]

acquire-AreDisjoint :
    (fold : PathText → PathText) (o : String) (xs : List PathText) (s : ScopeClaims)
    → AreDisjoint fold s.claims
    → AreDisjoint fold (acquire fold o xs s).1.claims
unfolding acquire
acquire-AreDisjoint fold o xs s v =
    let r : Claim = record { owner_id = o; scopes = canonical_scopes fold xs } in
    elim (Bool-cases (any (claim_blocks fold r) s.claims)) [
      | inl t ↦ rw t v
      | inr t ↦ elim (Bool-cases (any (waiter_blocks fold r) s.waiters)) [
        | inl w ↦ rw t (rw w v)
        | inr w ↦ rw t (rw w (set_claim-AreDisjoint fold r s.claims v t))
      ]
    ]

pub can_grant-free :
    (fold : PathText → PathText) (w : Waiter) (s : ScopeClaims)
    → can_grant fold w s ≡ true
    → any (claim_blocks fold (request_of w)) s.claims ≡ false
unfolding can_grant
can_grant-free fold w s h = ground arith

-- A poll that does not grant leaves the claims; one that grants enters the waiter's request.
pub poll-cases :
    (fold : PathText → PathText) (w : Waiter) (cancelled expired : Bool) (s : ScopeClaims)
    → ((poll fold w cancelled expired s).1.claims ≡ s.claims)
      ⊎ ((can_grant fold w s ≡ true)
          × ((poll fold w cancelled expired s).1.claims ≡ set_claim (request_of w) s.claims))
unfolding poll
poll-cases fold w cancelled expired s = elim (Bool-cases (can_grant fold w s)) [
  | inl t ↦ elim (Bool-cases cancelled) [
    | inl c ↦ inl (rw t (rw c refl))
    | inr c ↦ inr (t, rw t (rw c refl))
  ]
  | inr t ↦ elim (Bool-cases (cancelled || expired)) [
    | inl c ↦ inl (rw t (rw c refl))
    | inr c ↦ inl (rw t (rw c refl))
  ]
]

poll-AreDisjoint :
    (fold : PathText → PathText) (w : Waiter) (cancelled expired : Bool) (s : ScopeClaims)
    → AreDisjoint fold s.claims
    → AreDisjoint fold (poll fold w cancelled expired s).1.claims
poll-AreDisjoint fold w cancelled expired s v = elim (poll-cases fold w cancelled expired s) [
  | inl p ↦ rw p v
  | inr (g, p) ↦
      rw p (set_claim-AreDisjoint fold (request_of w) s.claims v (can_grant-free fold w s g))
]

enter-claims :
    (fold : PathText → PathText) (o : String) (xs : List PathText) (negative cancelled : Bool)
    (s t : ScopeClaims) (w : Option Waiter)
    → enter fold o xs negative cancelled s ≡ ok (w, t)
    → t.claims ≡ s.claims
unfolding enter
enter-claims fold o xs negative cancelled s t w h = ground arith

Step-AreDisjoint :
    (fold : PathText → PathText) {s t : ScopeClaims}
    → Step fold s t
    → AreDisjoint fold s.claims
    → AreDisjoint fold t.claims
Step-AreDisjoint fold {s} (acquires o xs p) v = rw p (acquire-AreDisjoint fold o xs s v)
Step-AreDisjoint fold {s} {t} (enters o xs negative cancelled {w} p) v =
    rw (enter-claims fold o xs negative cancelled s t w p) v
Step-AreDisjoint fold {s} (polls w cancelled expired m p) v =
    rw p (poll-AreDisjoint fold w cancelled expired s v)
Step-AreDisjoint fold {s} (releases o p) v = rw p (
    unfold release AreDisjoint in
    λ c d mc md e. v c d (Member-pop_claim o c s.claims mc) (Member-pop_claim o d s.claims md) e)

Steps-AreDisjoint :
    (fold : PathText → PathText) {s : ScopeClaims}
    → Steps (Step fold) created s
    → AreDisjoint fold s.claims
Steps-AreDisjoint fold still = unfold AreDisjoint in λ c d m n e. elim m [ ]
Steps-AreDisjoint fold (after r p) = Step-AreDisjoint fold p (Steps-AreDisjoint fold r)

-- However the calls of ScopeClaims interleave, the claimed scopes of two different owners do not
-- conflict.
pub claims_exclude :
    (fold : PathText → PathText) {s : ScopeClaims}
    → Steps (Step fold) created s
    → (c d : Claim) → Member c s.claims
    → Member d s.claims
    → (c.owner_id == d.owner_id) ≡ false
    → scopes_conflict fold c.scopes d.scopes ≡ false
unfolding AreDisjoint
claims_exclude fold r = Steps-AreDisjoint fold r
