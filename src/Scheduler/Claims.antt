-- ===== src/Scheduler/Claims.antt =====
-- The class ScopeClaims of orchestrator/scheduler.py. Each function is what a thread does between
-- two waits on `_condition`, whose lock it holds. `wait_acquire` is `enter`, then one `poll` for
-- each look at the claims. `fold` is the case folding of `canonical_scope`.
pub mod Exclusion
pub mod Tickets
pub mod Order
pub mod Samples
use claude_router.Prelude.{
  Bool, List, Member, Option, Result, String, [], any, err, false, if◌then◌else◌, none, not, ok,
  some, suc, true, ℕ, ◌&&◌, ◌++◌, ◌==◌, ◌||◌, ◌∷◌, ◌≡◌, nat_eq, string_eq, option_eq,
}
use claude_router.Scheduler.Scopes.{PathText, canonical_scopes, scopes_conflict}

-- An entry of `_claims`, in insertion order.
pub record Claim : Type 0 where
  pub owner_id : String
  pub scopes : List PathText

-- An entry of `_waiters`.
pub record Waiter : Type 0 where
  pub ticket : ℕ
  pub waiting_owner : String
  pub waiting_scopes : List PathText

pub record ScopeClaims : Type 0 where
  pub claims : List Claim
  pub waiters : List Waiter
  pub next_ticket : ℕ

abbrev pub created : ScopeClaims
created = record { claims = []; waiters = []; next_ticket = 0 }

-- `self._claims[owner_id] = requested`
unfoldable pub set_claim : Claim → List Claim → List Claim
set_claim c [] = c ∷ []
set_claim c (d ∷ ds) =
    let rest = set_claim c ds in if d.owner_id == c.owner_id then c ∷ ds else d ∷ rest

-- The generator over `_claims`: does this claim of another owner conflict with the request?
unfoldable pub claim_blocks : (PathText → PathText) → Claim → Claim → Bool
claim_blocks fold request c =
    not (c.owner_id == request.owner_id) && scopes_conflict fold request.scopes c.scopes

-- The generator over `_waiters`: does this waiter of another owner conflict with the request?
unfoldable pub waiter_blocks : (PathText → PathText) → Claim → Waiter → Bool
waiter_blocks fold request w =
    not (w.waiting_owner == request.owner_id)
    && scopes_conflict fold request.scopes w.waiting_scopes

unfoldable pub acquire :
    (PathText → PathText) → String → List PathText → ScopeClaims → Bool × ScopeClaims
unfolding any claim_blocks waiter_blocks set_claim
acquire fold owner_id scopes s =
    let request : Claim = record { owner_id = owner_id; scopes = canonical_scopes fold scopes } in
    if any (claim_blocks fold request) s.claims
    then (false, s)
    else if any (waiter_blocks fold request) s.waiters
    then (false, s)
    else (true, record s { claims = set_claim request s.claims })

abbrev pub request_of : Waiter → Claim
request_of w = record { owner_id = w.waiting_owner; scopes = w.waiting_scopes }

-- The loop over `_waiters`: it stops at the caller's own ticket.
unfoldable pub none_ahead_blocks : (PathText → PathText) → ℕ → Claim → List Waiter → Bool
unfolding waiter_blocks
none_ahead_blocks fold ticket request [] = true
none_ahead_blocks fold ticket request (w ∷ ws) =
    let rest = none_ahead_blocks fold ticket request ws in
    if w.ticket == ticket then true else if waiter_blocks fold request w then false else rest

-- `_can_grant(ticket, owner_id, requested)`, for the waiter that these three make up
unfoldable pub can_grant : (PathText → PathText) → Waiter → ScopeClaims → Bool
unfolding any claim_blocks none_ahead_blocks
can_grant fold w s =
    if any (claim_blocks fold (request_of w)) s.claims
    then false
    else none_ahead_blocks fold w.ticket (request_of w) s.waiters

-- `wait_acquire` up to its loop. `negative_timeout` raises ValueError; an answer `some false` is
-- the return for a cancelled caller; `none` goes on to the loop.
pub data Error : Type 0 where
  value_error : Error

unfoldable pub enter :
    (PathText → PathText)
    → String
    → List PathText
    → Bool
    → Bool
    → ScopeClaims
    → Result Error (Option Waiter × ScopeClaims)
enter fold owner_id scopes negative_timeout cancelled s =
    let w : Waiter = record {
      ticket = s.next_ticket;
      waiting_owner = owner_id;
      waiting_scopes = canonical_scopes fold scopes;
    } in
    let queued : ScopeClaims = record s {
      waiters = s.waiters ++ w ∷ [];
      next_ticket = suc s.next_ticket;
    } in
    if negative_timeout
    then err value_error
    else if cancelled
    then ok (none, s)
    else ok (some w, queued)

-- the `finally` block: tickets are unique, so the waiter is the one with its ticket
unfoldable pub remove_waiter : ℕ → List Waiter → List Waiter
remove_waiter ticket [] = []
remove_waiter ticket (w ∷ ws) =
    let rest = remove_waiter ticket ws in if w.ticket == ticket then ws else w ∷ rest

abbrev pub without : Waiter → ScopeClaims → ScopeClaims
without w s = record s { waiters = remove_waiter w.ticket s.waiters }

-- One look at the loop's condition: `none` waits again, `some b` returns `b`. `cancelled` is the
-- answer of the callback, `expired` is `remaining <= 0`, which is false without a timeout.
unfoldable pub poll :
    (PathText → PathText) → Waiter → Bool → Bool → ScopeClaims → Option Bool × ScopeClaims
unfolding can_grant set_claim remove_waiter
poll fold w cancelled expired s =
    if can_grant fold w s
    then (if cancelled
        then (some false, without w s)
        else (some true, record (without w s) { claims = set_claim (request_of w) s.claims }))
    else if cancelled || expired
    then (some false, without w s)
    else (none, s)

-- `self._claims.pop(owner_id, None)`
unfoldable pub pop_claim : String → List Claim → List Claim
pop_claim owner_id [] = []
pop_claim owner_id (c ∷ cs) =
    let rest = pop_claim owner_id cs in if c.owner_id == owner_id then cs else c ∷ rest

unfoldable pub release : String → ScopeClaims → Bool × ScopeClaims
unfolding any pop_claim
release owner_id s =
    (any (λ c. c.owner_id == owner_id) s.claims, record s { claims = pop_claim owner_id s.claims })

-- One atomic block of some thread. Only a thread inside `wait_acquire` polls, so its waiter stands
-- in `_waiters`.
pub data Step (fold : PathText → PathText) (s : ScopeClaims) (t : ScopeClaims) : Type 0 where
  acquires : (o : String) (xs : List PathText) → t ≡ (acquire fold o xs s).1 → Step fold s t
  enters :
      (o : String) (xs : List PathText) (negative cancelled : Bool) {w : Option Waiter}
      → enter fold o xs negative cancelled s ≡ ok (w, t)
      → Step fold s t
  polls :
      (w : Waiter) (cancelled expired : Bool)
      → Member w s.waiters
      → t ≡ (poll fold w cancelled expired s).1
      → Step fold s t
  releases : (o : String) → t ≡ (release o s).1 → Step fold s t
