-- ===== src/Leases/Matching/Names.antt =====
-- The selection is a dict: it names no agent twice.
use claude_router.Prelude.{
  Bool-cases, Distinct, List, Option-cases, String, [], dict_keys, dict_set-Distinct, inl, inr,
  length, ok, ok-injective, some, some_inj, subst, suc, zero, ℕ, ◌∷◌, ◌≡◌,
}
use claude_router.Leases.{AccountCandidate, Key, candidate_key, has_key}
use claude_router.Leases.Matching.{
  MatchResult, Matching, Outcome, Pools, augmented, in_vain, no_fuel, pool_keys, pool_of, augment,
  try_each, after_prior, unless_in_vain, match_each, match_candidates, unmatched,
}

abbrev Named : Matching → Type 0
Named m = Distinct (dict_keys m.selected)

abbrev NamedOutcome : Outcome → Type 0
NamedOutcome (augmented m) = Named m
NamedOutcome (in_vain seen) = Unit {0}
NamedOutcome no_fuel = Unit {0}

after_prior-Named :
    (agent : String) (c : AccountCandidate) (next : List Key → Outcome) (out : Outcome)
    → NamedOutcome out
    → ((seen : List Key) → NamedOutcome (next seen))
    → NamedOutcome (after_prior agent c next out)
after_prior-Named agent c next (augmented m) n f = dict_set-Distinct agent c m.selected n
after_prior-Named agent c next (in_vain seen) n f = f seen
after_prior-Named agent c next no_fuel n f = tt

try_each-Named :
    (augment_one : String → List Key → Matching → Outcome)
    → ((a : String) (seen : List Key) (m : Matching)
        → Named m
        → NamedOutcome (augment_one a seen m))
    → (agent : String) (cs : List AccountCandidate) (seen : List Key) (m : Matching) → Named m
    → NamedOutcome (try_each augment_one agent cs seen m)
unfolding try_each
try_each-Named augment_one one agent [] seen m n = tt
try_each-Named augment_one one agent (c ∷ cs) seen m n =
    elim (Bool-cases (has_key (candidate_key c) seen)) [
      | inl e ↦ rw e (try_each-Named augment_one one agent cs seen m n)
      | inr e ↦ elim (Option-cases (m.owner (candidate_key c))) [
        | inl o ↦ rw (e, o) (dict_set-Distinct agent c m.selected n)
        | inr (prior, o) ↦
            rw (e, o)
              (after_prior-Named agent c _ _ (one prior _ m n)
                (λ seen'. try_each-Named augment_one one agent cs seen' m n))
      ]
    ]

augment-Named :
    (pool : String → List AccountCandidate) (fuel : ℕ) (agent : String) (seen : List Key)
    (m : Matching)
    → Named m
    → NamedOutcome (augment pool fuel agent seen m)
unfolding augment
augment-Named pool zero agent seen m n = tt
augment-Named pool (suc fuel) agent seen m n =
    try_each-Named (augment pool fuel) (augment-Named pool fuel) agent (pool agent) seen m n

unless_in_vain-Named :
    (next : Matching → MatchResult) (out : Outcome) (sel : List (String × AccountCandidate))
    → NamedOutcome out
    → ((m : Matching) → Named m → next m ≡ ok (some sel) → Distinct (dict_keys sel))
    → unless_in_vain next out ≡ ok (some sel)
    → Distinct (dict_keys sel)
unless_in_vain-Named next (augmented m) sel n f h = f m n h
unless_in_vain-Named next (in_vain seen) sel n f h = cc
unless_in_vain-Named next no_fuel sel n f h = cc

match_each-Named :
    (pool : String → List AccountCandidate) (fuel : ℕ) (todo : List String) (m : Matching)
    (sel : List (String × AccountCandidate))
    → Named m
    → match_each pool fuel todo m ≡ ok (some sel)
    → Distinct (dict_keys sel)
unfolding match_each
match_each-Named pool fuel [] m sel n h =
    let p : m.selected ≡ sel = some_inj m.selected sel (ok-injective h) in
    subst (λ s. Distinct (dict_keys s)) p n
match_each-Named pool fuel (agent ∷ rest) m sel n h =
    unless_in_vain-Named (λ m'. match_each pool fuel rest m') (augment pool fuel agent [] m) sel
      (augment-Named pool fuel agent [] m n)
      (λ m' n' h'. match_each-Named pool fuel rest m' sel n' h') h

pub match_candidates-Distinct :
    (pools : Pools) (sel : List (String × AccountCandidate))
    → match_candidates pools ≡ ok (some sel)
    → Distinct (dict_keys sel)
unfolding match_candidates
match_candidates-Distinct pools sel h =
    match_each-Named (pool_of pools) (suc (length (pool_keys pools))) _ unmatched sel tt h
