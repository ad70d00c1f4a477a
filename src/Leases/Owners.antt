-- ===== src/Leases/Owners.antt =====
-- The calls of all methods of SQLiteAccountLeaseStore in sequence, and the owners of the accounts.
use claude_router.Prelude.{Bool, List, Option, Steps, String, after, ok, still, ℕ, ◌≡◌}
use claude_router.Leases.Requests.{Assignments}
use claude_router.Leases.{AccountCandidate}
use claude_router.Leases.Store.{Store, ReservationRow, AccountLease, acquire}
use claude_router.Leases.Store.Holders.{Exclusive}
use claude_router.Leases.Reservations.{renew_task, activate, release_agent, release_task, release}
use claude_router.Leases.Reservations.Exclusion.{
  acquire-Exclusive, activate-Exclusive, renew_task-Exclusive, release_agent-Exclusive,
  release_task-Exclusive, release-Exclusive,
}
use claude_router.Leases.Cohorts.{reserve_many}
use claude_router.Leases.Cohorts.Exclusion.{reserve_many-Exclusive}
use claude_router.Leases.Replacement.{FailedAccount, renew, replace, record_health_transition}
use claude_router.Leases.Replacement.Exclusion.{renew-Exclusive, replace-Exclusive}
use claude_router.Leases.Adapters.{consume_reserved_account, replace_account_atomically}
use claude_router.Leases.Adapters.Exclusion.{consume-Exclusive, replace_atomically-Exclusive}
use claude_router.Leases.Store.{HealthEvent, occupied_accounts}

-- One call of a method, from the tables `s` to the tables `t`.
pub data LeaseStep (lower : String → String) (s t : Store) : Type 0 where
  acquires :
      (lease_id : String) (cs : List AccountCandidate) (owner_id : String) (ttl : ℕ)
      (excluded : List String) (now : ℕ) {lease : Option AccountLease}
      → acquire lower lease_id cs owner_id ttl excluded now s ≡ ok (t, lease)
      → LeaseStep lower s t
  activates :
      (task_id agent_id : String) (generation now : ℕ)
      → t ≡ (activate task_id agent_id generation now s).0
      → LeaseStep lower s t
  renews_task :
      (task_id : String) (ttl ttl_seconds lease_ttl_seconds : Option ℕ)
      (expected : Option (List (String × ℕ))) (now : ℕ) {rows : Option (List ReservationRow)}
      → renew_task task_id ttl ttl_seconds lease_ttl_seconds expected now s ≡ ok (t, rows)
      → LeaseStep lower s t
  releases_agent :
      (task_id agent_id : String) (generation : Option ℕ) (reason : String) (now : ℕ)
      {changed : Bool}
      → release_agent task_id agent_id generation reason now s ≡ ok (t, changed)
      → LeaseStep lower s t
  releases_task :
      (task_id reason : String) (now : ℕ) {n : ℕ}
      → release_task task_id reason now s ≡ ok (t, n)
      → LeaseStep lower s t
  releases :
      (lease : AccountLease) (outcome : String) (now : ℕ)
      → t ≡ release lease outcome now s
      → LeaseStep lower s t
  reserves_many :
      (fresh : String → String) (task_id : String) (assignments : Option Assignments)
      (shared : Option (List AccountCandidate)) (ttl : Option ℕ) (agent_ids : Option (List String))
      (ttl_seconds lease_ttl_seconds : Option ℕ) (now : ℕ) {rows : Option (List ReservationRow)}
      → reserve_many lower fresh task_id assignments shared ttl agent_ids ttl_seconds
          lease_ttl_seconds now s
        ≡ ok (t, rows)
      → LeaseStep lower s t
  renews :
      (lease : AccountLease) (ttl now : ℕ) {renewed : Option AccountLease}
      → renew lease ttl now s ≡ ok (t, renewed)
      → LeaseStep lower s t
  replaces :
      (fresh task_id agent_id : String) (failed : FailedAccount) (cs : List AccountCandidate)
      (ttl expected_generation : Option ℕ) (transition : Option HealthEvent)
      (ttl_seconds lease_ttl_seconds : Option ℕ) (now : ℕ) {row : Option ReservationRow}
      → replace lower fresh task_id agent_id failed cs ttl expected_generation transition
          ttl_seconds lease_ttl_seconds now s
        ≡ ok (t, row)
      → LeaseStep lower s t
  consumes :
      (task_id agent_id : String) (provider : Option String) (cs : List AccountCandidate)
      (ids excluded : List String) (now : ℕ)
      → t ≡ (consume_reserved_account task_id agent_id provider cs ids excluded now s).0
      → LeaseStep lower s t
  replaces_account :
      (fresh task_id agent_id current_account_id : String) (cs : List AccountCandidate)
      (reason : String) (current_lease : Option AccountLease) (excluded : List String)
      (lease_ttl_seconds : Option ℕ) (now : ℕ) {lease : Option AccountLease}
      → replace_account_atomically lower fresh task_id agent_id current_account_id cs reason
          current_lease excluded lease_ttl_seconds now s
        ≡ ok (t, lease)
      → LeaseStep lower s t
  records_health :
      (transition : HealthEvent) → t ≡ record_health_transition transition s → LeaseStep lower s t

record_health_transition-Exclusive :
    (transition : HealthEvent) (s : Store)
    → Exclusive s
    → Exclusive (record_health_transition transition s)
unfolding record_health_transition occupied_accounts
record_health_transition-Exclusive transition s e = e

LeaseStep-Exclusive :
    (lower : String → String) {s t : Store} → LeaseStep lower s t → Exclusive s → Exclusive t
LeaseStep-Exclusive lower {s} (acquires lease_id cs owner_id ttl excluded now h) e =
    acquire-Exclusive lower lease_id cs owner_id ttl excluded now s e h
LeaseStep-Exclusive lower {s} (activates task_id agent_id generation now p) e =
    rw p (activate-Exclusive task_id agent_id generation now s e)
LeaseStep-Exclusive lower {s} (renews_task task_id ttl ttl_seconds lease_ttl_seconds expected now h)
      e =
    renew_task-Exclusive task_id ttl ttl_seconds lease_ttl_seconds expected now s e h
LeaseStep-Exclusive lower {s} (releases_agent task_id agent_id generation reason now h) e =
    release_agent-Exclusive task_id agent_id generation reason now s e h
LeaseStep-Exclusive lower {s} (releases_task task_id reason now h) e =
    release_task-Exclusive task_id reason now s e h
LeaseStep-Exclusive lower {s} (releases lease outcome now p) e =
    rw p (release-Exclusive lease outcome now s e)
LeaseStep-Exclusive lower {s}
      (reserves_many fresh task_id assignments shared ttl agent_ids ttl_seconds lease_ttl_seconds
        now h)
      e =
    reserve_many-Exclusive lower fresh task_id assignments shared ttl agent_ids ttl_seconds
      lease_ttl_seconds now s e h
LeaseStep-Exclusive lower {s} (renews lease ttl now h) e = renew-Exclusive lease ttl now s e h
LeaseStep-Exclusive lower {s}
      (replaces fresh task_id agent_id failed cs ttl expected_generation transition ttl_seconds
        lease_ttl_seconds now h)
      e =
    replace-Exclusive lower fresh task_id agent_id failed cs ttl expected_generation transition
      ttl_seconds lease_ttl_seconds now s e h
LeaseStep-Exclusive lower {s} (consumes task_id agent_id provider cs ids excluded now p) e =
    rw p (consume-Exclusive task_id agent_id provider cs ids excluded now s e)
LeaseStep-Exclusive lower {s}
      (replaces_account fresh task_id agent_id current_account_id cs reason current_lease excluded
        lease_ttl_seconds now h)
      e =
    replace_atomically-Exclusive lower fresh task_id agent_id current_account_id cs reason
      current_lease excluded lease_ttl_seconds now s e h
LeaseStep-Exclusive lower {s} (records_health transition p) e =
    rw p (record_health_transition-Exclusive transition s e)

-- From tables where no account has two owners, among open leases and held reservations together, any
-- sequence of calls of the store's methods leads to tables where none has two: `acquire`, `renew`,
-- `release`, `reserve_many`, `activate`, `replace`, `renew_task`, `release_agent`, `release_task`,
-- `consume_reserved_account`, `replace_account_atomically` and `record_health_transition`.
pub accounts_stay_Exclusive :
    (lower : String → String) {s t : Store}
    → Steps (LeaseStep lower) s t
    → Exclusive s
    → Exclusive t
accounts_stay_Exclusive lower still e = e
accounts_stay_Exclusive lower (after steps step) e =
    LeaseStep-Exclusive lower step (accounts_stay_Exclusive lower steps e)
