-- ===== src/Scheduler/Claims/Samples.antt =====
-- Two owners after one subtree: tests of the calls, and witnesses.
use claude_router.Prelude.{
  Steps, [], after, false, here, none, refl, some, still, there, true, ◌↔◌, ◌∷◌, ◌≡◌,
}
use claude_router.Scheduler.Scopes.{
  PathText, canonical_scope, canonical_scopes, overlaps, scopes_conflict,
}
use claude_router.Scheduler.Claims.{
  Waiter, ScopeClaims, acquire, poll, enter, release, Step, acquires, enters, releases, created,
}
use claude_router.Scheduler.Claims.Exclusion.{claims_exclude}
use claude_router.Scheduler.Claims.Order.{poll_grants_in_order, MayProceed}

abbrev posix : PathText → PathText
posix s = s

abbrev subtree : PathText
subtree = (b's' ∷ b'r' ∷ b'c' ∷ b'/' ∷ b'*' ∷ b'*' ∷ [])

abbrev inside : PathText
inside = (b'.' ∷ b'/' ∷ b's' ∷ b'r' ∷ b'c' ∷ 0x5C ∷ b'u' ∷ b'i' ∷ [])

abbrev elsewhere : PathText
elsewhere = (b'd' ∷ b'o' ∷ b'c' ∷ b's' ∷ b'/' ∷ [])

subtree_canonical :
    canonical_scopes posix (subtree ∷ inside ∷ elsewhere ∷ [])
    ≡ (b's' ∷ b'r' ∷ b'c' ∷ [])
      ∷ (b's' ∷ b'r' ∷ b'c' ∷ b'/' ∷ b'u' ∷ b'i' ∷ [])
      ∷ (b'd' ∷ b'o' ∷ b'c' ∷ b's' ∷ [])
      ∷ []
unfolding canonical_scopes canonical_scope
subtree_canonical = refl

abbrev src : PathText
src = b's' ∷ b'r' ∷ b'c' ∷ []

abbrev src_ui : PathText
src_ui = b's' ∷ b'r' ∷ b'c' ∷ b'/' ∷ b'u' ∷ b'i' ∷ []

abbrev docs : PathText
docs = b'd' ∷ b'o' ∷ b'c' ∷ b's' ∷ []

abbrev held : ScopeClaims
held = record created { claims = record { owner_id = "a"; scopes = src ∷ [] } ∷ [] }

abbrev second : Waiter
second = record { ticket = 0; waiting_owner = "b"; waiting_scopes = src_ui ∷ [] }

abbrev queued : ScopeClaims
queued = record held { waiters = second ∷ []; next_ticket = 1 }

abbrev shared : ScopeClaims
shared = record queued {
  claims =
      record { owner_id = "a"; scopes = src ∷ [] }
      ∷ record { owner_id = "c"; scopes = docs ∷ [] }
      ∷ [];
}

abbrev freed : ScopeClaims
freed = record queued { claims = record { owner_id = "c"; scopes = docs ∷ [] } ∷ [] }

to_queued : Steps (Step posix) created queued
unfolding acquire canonical_scopes canonical_scope scopes_conflict enter overlaps
to_queued =
    after {y = held} (after still (acquires "a" (subtree ∷ []) refl))
      (enters "b" (inside ∷ []) false false {w = some second} refl)

to_shared : Steps (Step posix) created shared
unfolding acquire canonical_scopes canonical_scope scopes_conflict overlaps
to_shared = after to_queued (acquires "c" (elsewhere ∷ []) refl)

to_freed : Steps (Step posix) created freed
unfolding release
to_freed = after to_shared (releases "a" refl)

still_waits : (poll posix second false false shared).0 ≡ none
unfolding poll scopes_conflict canonical_scopes canonical_scope overlaps
still_waits = refl

served : (poll posix second false false freed).0 ≡ some true
unfolding poll scopes_conflict canonical_scopes canonical_scope overlaps
served = refl

claims_exclude_example : scopes_conflict posix (src ∷ []) (docs ∷ []) ≡ false
claims_exclude_example =
    claims_exclude posix to_shared (record { owner_id = "a"; scopes = src ∷ [] })
      (record { owner_id = "c"; scopes = docs ∷ [] }) here (there here) refl

poll_grants_in_order_example :
    ((poll posix second false false freed).0 ≡ some true) ↔ MayProceed posix second freed
poll_grants_in_order_example = poll_grants_in_order posix to_freed second here false
