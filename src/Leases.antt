-- ===== src/Leases.antt =====
-- orchestrator/account_lease.py and orchestrator/sqlite_account_lease.py: the accounts that agents may
-- use, and the choice of an account for every agent of a cohort.
pub mod Matching
pub mod Store
pub mod Reservations
pub mod Requests
pub mod Cohorts
pub mod Replacement
pub mod Adapters
pub mod Owners
use claude_router.Prelude.{
  ==_refl, ==→≡, Bool, Bool-cases, List, Member, Option, String, and-true, any, any-false-Member,
  any-true-Member, false, inl, inr, refl, subst, true, ℕ, ◌&&◌, ◌==◌, ◌∷◌, ◌≡◌, ◌⊎◌, nat_eq,
  string_eq, option_eq,
}

-- The entries of a `metadata` dict that the store reads or writes, and the rest as a JSON text.
pub record Metadata : Type 0 where
  pub health_state : Option String
  pub state : Option String
  pub disabled : Bool
  pub quarantined : Bool
  pub assignment : Option String
  pub task_id : Option String
  pub reservation_generation : Option ℕ
  pub task_reservation : Bool
  pub text : String

pub record AccountCandidate : Type 0 where
  pub account_id : String
  pub provider : String
  pub active_requests : ℕ
  pub cooldown_until : Option ℕ
  pub metadata : Metadata
  pub health_state : Option String
  pub enabled : Bool

abbrev pub Key : Type 0
Key = String × String

-- `_candidate_key`
abbrev pub candidate_key : AccountCandidate → Key
candidate_key c = (c.provider, c.account_id)

abbrev pub same_key : Key → Key → Bool
same_key k l = k.0 == l.0 && k.1 == l.1

-- `key in keys`
unfoldable pub has_key : Key → List Key → Bool
unfolding any
has_key key keys = any (λ k. same_key k key) keys

pub same_key→≡ : (k l : Key) → same_key k l ≡ true → k ≡ l
same_key→≡ (p, a) (q, b) h =
    let (e, f) = and-true (p == q) (a == b) h in rw (==→≡ p q e, ==→≡ a b f) refl

pub same_key_refl : (k : Key) → same_key k k ≡ true
same_key_refl k = rw (==_refl k.0, ==_refl k.1) refl

pub has_key_self : (k : Key) (ks : List Key) → has_key k (k ∷ ks) ≡ true
unfolding has_key
has_key_self k ks = rw (same_key_refl k) refl

pub has_key-Member : (k : Key) (ks : List Key) → has_key k ks ≡ true → Member k ks
unfolding has_key
has_key-Member k ks h =
    let (l, m, e) = any-true-Member _ ks h in subst (λ x. Member x ks) (same_key→≡ l k e) m

pub has_key-absent : (k : Key) (ks : List Key) → has_key k ks ≡ false → ¬ Member k ks
unfolding has_key
has_key-absent k ks h m =
    let e = any-false-Member (λ x. same_key x k) m h in let t = same_key_refl k in cc

pub same_key-cases : (k l : Key) → (k ≡ l) ⊎ ((same_key k l ≡ false) × (¬ (k ≡ l)))
same_key-cases k l = elim (Bool-cases (same_key k l)) [
  | inl h ↦ inl (same_key→≡ k l h)
  | inr h ↦ inr (h, λ p. let t : same_key k l ≡ true = rw p (same_key_refl l) in cc)
]
