-- ===== src/Scheduler/Claims/Tickets.antt =====
-- The queue `_waiters` of ScopeClaims: tickets are unique and grow.
use claude_router.Prelude.{
  All, All-append, Bool, Bool-cases, List, Option, Steps, String, [], after, arith, inl, inr, ok,
  refl, still, suc, ℕ, ◌++◌, ◌<◌, ◌==◌, ◌∷◌, ◌≡◌, ◌⊎◌, nat_eq, string_eq, option_eq,
}
use claude_router.Scheduler.Scopes.{PathText, canonical_scopes}
use claude_router.Scheduler.Claims.{
  Waiter, ScopeClaims, remove_waiter, acquire, poll, enter, release, Step, created, acquires,
  enters, polls, releases,
}

-- Tickets grow along `_waiters` and stay below the next ticket.
abbrev pub Queued : List Waiter → ℕ → Type 0
Queued [] n = Unit
Queued (w ∷ ws) n = (w.ticket < n) × All (λ v. w.ticket < v.ticket) ws × Queued ws n

Queued-append :
    (w : Waiter) (ws : List Waiter) (n : ℕ)
    → w.ticket ≡ n
    → Queued ws n
    → Queued (ws ++ w ∷ []) (suc n)
Queued-append w [] n e q = (omega arith, tt, tt)
Queued-append w (v ∷ vs) n e (low, rest, q) = (
  omega arith,
  All-append (λ u. v.ticket < u.ticket) vs (w ∷ []) rest (omega arith, tt),
  Queued-append w vs n e q,
)

All-remove_waiter {κ} :
    (P : Waiter → Type κ) (t : ℕ) (ws : List Waiter) → All P ws → All P (remove_waiter t ws)
unfolding remove_waiter
All-remove_waiter P t [] h = tt
All-remove_waiter P t (w ∷ ws) h = elim (Bool-cases (w.ticket == t)) [
  | inl e ↦ rw e h.1
  | inr e ↦ rw e (h.0, All-remove_waiter P t ws h.1)
]

Queued-remove_waiter :
    (t : ℕ) (ws : List Waiter) (n : ℕ) → Queued ws n → Queued (remove_waiter t ws) n
unfolding remove_waiter
Queued-remove_waiter t [] n q = tt
Queued-remove_waiter t (w ∷ ws) n q = elim (Bool-cases (w.ticket == t)) [
  | inl e ↦ rw e q.2
  | inr e ↦
      rw e (
        q.0,
        All-remove_waiter (λ v. w.ticket < v.ticket) t ws q.1,
        Queued-remove_waiter t ws n q.2,
      )
]

-- The state's queue.
abbrev pub IsQueued : ScopeClaims → Type 0
IsQueued s = Queued s.waiters s.next_ticket

acquire-queue :
    (fold : PathText → PathText) (o : String) (xs : List PathText) (s : ScopeClaims)
    → ((acquire fold o xs s).1.waiters ≡ s.waiters)
      × ((acquire fold o xs s).1.next_ticket ≡ s.next_ticket)
unfolding acquire
acquire-queue fold o xs s = ground arith

-- A caller that enters leaves the state as it is or is appended with the next ticket.
enter-cases :
    (fold : PathText → PathText) (o : String) (xs : List PathText) (negative cancelled : Bool)
    (s t : ScopeClaims) (w : Option Waiter)
    → enter fold o xs negative cancelled s ≡ ok (w, t)
    → (t ≡ s)
      ⊎ ((v : Waiter) × (v.ticket ≡ s.next_ticket)
          × (t.waiters ≡ s.waiters ++ v ∷ [])
          × (t.next_ticket ≡ suc s.next_ticket))
unfolding enter
enter-cases fold o xs negative cancelled s t w h = elim (Bool-cases negative) [
  | inl n ↦ absurd (ground arith)
  | inr n ↦ elim (Bool-cases cancelled) [
    | inl c ↦ inl (ground arith)
    | inr c ↦ inr (
      record {
        ticket = s.next_ticket;
        waiting_owner = o;
        waiting_scopes = canonical_scopes fold xs;
      },
      refl,
      ground arith,
      ground arith,
    )
  ]
]

enter-IsQueued :
    (fold : PathText → PathText) (o : String) (xs : List PathText) (negative cancelled : Bool)
    (s t : ScopeClaims) (w : Option Waiter)
    → enter fold o xs negative cancelled s ≡ ok (w, t)
    → IsQueued s
    → IsQueued t
enter-IsQueued fold o xs negative cancelled s t w h q =
    elim (enter-cases fold o xs negative cancelled s t w h) [
      | inl e ↦ rw e q
      | inr (v, e, ws, n) ↦ rw ws (rw n (Queued-append v s.waiters s.next_ticket e q))
    ]

poll-queue :
    (fold : PathText → PathText) (w : Waiter) (cancelled expired : Bool) (s : ScopeClaims)
    → ((poll fold w cancelled expired s).1.next_ticket ≡ s.next_ticket)
      × (((poll fold w cancelled expired s).1.waiters ≡ s.waiters)
          ⊎ ((poll fold w cancelled expired s).1.waiters ≡ remove_waiter w.ticket s.waiters))
unfolding poll
poll-queue fold w cancelled expired s = ground arith

poll-IsQueued :
    (fold : PathText → PathText) (w : Waiter) (cancelled expired : Bool) (s : ScopeClaims)
    → IsQueued s
    → IsQueued (poll fold w cancelled expired s).1
poll-IsQueued fold w cancelled expired s q =
    let (n, e) = poll-queue fold w cancelled expired s in
    rw n (elim e [
      | inl p ↦ rw p q
      | inr p ↦ rw p (Queued-remove_waiter w.ticket s.waiters s.next_ticket q)
    ])

release-IsQueued : (o : String) (s : ScopeClaims) → IsQueued s → IsQueued (release o s).1
unfolding release
release-IsQueued o s q = q

pub Steps-IsQueued :
    (fold : PathText → PathText) {s : ScopeClaims} → Steps (Step fold) created s → IsQueued s
Steps-IsQueued fold still = tt
Steps-IsQueued fold (after {y = s} r (acquires o xs p)) =
    let (e, n) = acquire-queue fold o xs s in rw p (rw e (rw n (Steps-IsQueued fold r)))
Steps-IsQueued fold (after {y = s} {z = t} r (enters o xs negative cancelled {w} p)) =
    enter-IsQueued fold o xs negative cancelled s t w p (Steps-IsQueued fold r)
Steps-IsQueued fold (after {y = s} r (polls w cancelled expired m p)) =
    rw p (poll-IsQueued fold w cancelled expired s (Steps-IsQueued fold r))
Steps-IsQueued fold (after {y = s} r (releases o p)) =
    rw p (release-IsQueued o s (Steps-IsQueued fold r))
