-- ===== src/Scheduler/Claims/Order.antt =====
-- Waiters of ScopeClaims are served in the order of their tickets.
use claude_router.Prelude.{
  All-Member, Bool, Bool-cases, List, Member, Steps, String, [], any, any-false-Member,
  any-false_of_Member, arith, false, guard_false, here, inl, inr, refl, some, there, true, ℕ, ◌<◌,
  ◌==◌, ◌↔◌, ◌∷◌, ◌≡◌, nat_eq, string_eq, option_eq,
}
use claude_router.Scheduler.Scopes.{PathText, scopes_conflict, canonical_scopes}
use claude_router.Scheduler.Claims.{
  Claim, Waiter, ScopeClaims, claim_blocks, waiter_blocks, none_ahead_blocks, acquire, poll,
  request_of, can_grant, Step, created,
}
use claude_router.Scheduler.Claims.Exclusion.{can_grant-free}
use claude_router.Scheduler.Claims.Tickets.{Queued, IsQueued, Steps-IsQueued}

none_ahead_sound :
    (fold : PathText → PathText) (t : ℕ) (r : Claim) (ws : List Waiter) (n : ℕ)
    → Queued ws n
    → none_ahead_blocks fold t r ws ≡ true
    → (v : Waiter) → Member v ws
    → v.ticket < t
    → waiter_blocks fold r v ≡ false
unfolding none_ahead_blocks
none_ahead_sound fold t r [] n q h v m lt = elim m [ ]
none_ahead_sound fold t r (w ∷ ws) n (low, rest, q) h v here lt = ground arith
none_ahead_sound fold t r (w ∷ ws) n (low, rest, q) h v (there m) lt =
    let above : w.ticket < v.ticket = All-Member (λ u. w.ticket < u.ticket) rest m in
    none_ahead_sound fold t r ws n q (ground arith) v m lt

none_ahead_complete :
    (fold : PathText → PathText) (u : Waiter) (r : Claim) (ws : List Waiter) (n : ℕ)
    → Queued ws n
    → Member u ws
    → ((v : Waiter) → Member v ws → v.ticket < u.ticket → waiter_blocks fold r v ≡ false)
    → none_ahead_blocks fold u.ticket r ws ≡ true
unfolding none_ahead_blocks
none_ahead_complete fold u r [] n q m f = elim m [ ]
none_ahead_complete fold u r (w ∷ ws) n q here f = ground arith
none_ahead_complete fold u r (w ∷ ws) n (low, rest, q) (there m) f =
    let above : w.ticket < u.ticket = All-Member (λ v. w.ticket < v.ticket) rest m in
    let free = f w here above in
    let rec = none_ahead_complete fold u r ws n q m (λ v k. f v (there k)) in ground arith

-- Nothing that another owner claims, or asked for earlier, overlaps what `w` asks for.
pub record MayProceed (fold : PathText → PathText) (w : Waiter) (s : ScopeClaims) : Type 0 where
  no_claim :
      (c : Claim)
      → Member c s.claims
      → (c.owner_id == w.waiting_owner) ≡ false
      → scopes_conflict fold w.waiting_scopes c.scopes ≡ false
  nobody_ahead :
      (v : Waiter)
      → Member v s.waiters
      → v.ticket < w.ticket
      → (v.waiting_owner == w.waiting_owner) ≡ false
      → scopes_conflict fold w.waiting_scopes v.waiting_scopes ≡ false

can_grant→MayProceed :
    (fold : PathText → PathText) (w : Waiter) (s : ScopeClaims)
    → IsQueued s
    → can_grant fold w s ≡ true
    → MayProceed fold w s
unfolding can_grant
can_grant→MayProceed fold w s q h = record {
  no_claim = λ c m e.
      let b = any-false-Member (claim_blocks fold (request_of w)) m (can_grant-free fold w s h) in
      unfold claim_blocks in ground arith;
  nobody_ahead = λ v m lt e.
      let b =
        none_ahead_sound fold w.ticket (request_of w) s.waiters s.next_ticket q (ground arith) v m
          lt in
      unfold waiter_blocks in ground arith;
}

MayProceed→can_grant :
    (fold : PathText → PathText) (w : Waiter) (s : ScopeClaims)
    → IsQueued s
    → Member w s.waiters
    → MayProceed fold w s
    → can_grant fold w s ≡ true
unfolding can_grant claim_blocks waiter_blocks
MayProceed→can_grant fold w s q m p =
    let free : any (claim_blocks fold (request_of w)) s.claims ≡ false =
      any-false_of_Member (claim_blocks fold (request_of w)) s.claims
        (λ c k. guard_false (p.no_claim c k)) in
    let ahead : none_ahead_blocks fold w.ticket (request_of w) s.waiters ≡ true =
      none_ahead_complete fold w (request_of w) s.waiters s.next_ticket q m
        (λ v k lt. guard_false (p.nobody_ahead v k lt)) in
    ground arith

granted-can_grant :
    (fold : PathText → PathText) (w : Waiter) (expired : Bool) (s : ScopeClaims)
    → (poll fold w false expired s).0 ≡ some true
    → can_grant fold w s ≡ true
unfolding poll
granted-can_grant fold w expired s h = elim (Bool-cases (can_grant fold w s)) [
  | inl g ↦ g
  | inr g ↦ absurd (elim (Bool-cases expired) [ inl e ↦ ground arith | inr e ↦ ground arith ])
]

-- In any state that interleaved calls reach, a look at the claims by a waiter that is not cancelled
-- returns true exactly when no other owner claims a conflicting scope and no other owner with an
-- older ticket waits for one.
pub poll_grants_in_order :
    (fold : PathText → PathText) {s : ScopeClaims}
    → Steps (Step fold) created s
    → (w : Waiter) → Member w s.waiters
    → (expired : Bool) → ((poll fold w false expired s).0 ≡ some true) ↔ MayProceed fold w s
unfolding poll
poll_grants_in_order fold {s} r w m expired = (
  λ h. can_grant→MayProceed fold w s (Steps-IsQueued fold r) (granted-can_grant fold w expired s h),
  λ p. rw (MayProceed→can_grant fold w s (Steps-IsQueued fold r) m p) refl,
)

module _ (fold : PathText → PathText) (o : String) (xs : List PathText) (s : ScopeClaims) where
  abbrev asked : Claim
  asked = record { owner_id = o; scopes = canonical_scopes fold xs }

  acquired-free :
      (acquire fold o xs s).0 ≡ true
      → (any (claim_blocks fold asked) s.claims ≡ false)
        × (any (waiter_blocks fold asked) s.waiters ≡ false)
  unfolding acquire
  acquired-free h = ground arith

  -- `acquire` takes the scopes exactly when they conflict with no claim and no waiter of another
  -- owner, and changes nothing when it does not.
  acquire_yields :
      (((acquire fold o xs s).0 ≡ true) ↔ (
        ((c : Claim)
          → Member c s.claims
          → (c.owner_id == o) ≡ false
          → scopes_conflict fold (canonical_scopes fold xs) c.scopes ≡ false)
        × ((v : Waiter)
            → Member v s.waiters
            → (v.waiting_owner == o) ≡ false
            → scopes_conflict fold (canonical_scopes fold xs) v.waiting_scopes ≡ false)))
      × ((acquire fold o xs s).0 ≡ false → (acquire fold o xs s).1 ≡ s)
  unfolding acquire claim_blocks waiter_blocks
  acquire_yields = (
    (
      λ h.
          let (a, b) = acquired-free h in
          (
            λ c m e. let f = any-false-Member (claim_blocks fold asked) m a in ground arith,
            λ v m e. let f = any-false-Member (waiter_blocks fold asked) m b in ground arith,
          ),
      λ (p, q).
          rw (any-false_of_Member (claim_blocks fold asked) s.claims (λ c m. guard_false (p c m))) (
            rw
              (any-false_of_Member (waiter_blocks fold asked) s.waiters
                (λ v m. guard_false (q v m)))
              refl),
    ),
    λ h. ground arith,
  )
