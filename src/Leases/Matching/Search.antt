-- ===== src/Leases/Matching/Search.antt =====
-- The search for an augmenting path: it ends, and what it has found, or seen in vain.
use claude_router.Prelude.{
  Bool-cases, Distinct, List, Member, Member-cons, Option-cases, String, [], ap, arith, dict_get,
  length_of_Distinct, here, inl, inr, length, none, some, some_inj, suc, sym, there, zero, ℕ, ◌+◌,
  ◌<◌, ◌∙◌, ◌∷◌, ◌≡◌, ◌≤◌, ◌⊎◌,
}
use claude_router.Leases.{
  AccountCandidate, Key, candidate_key, has_key, has_key-Member, has_key-absent,
}
use claude_router.Leases.Matching.{
  Matching, Outcome, try_each, after_prior, augmented, in_vain, no_fuel, augment,
}
use claude_router.Leases.Matching.Handover.{
  Inv, Settled, Success, assigned-Success, unowned-Freed, moved-Freed,
}

module _ (pool : String → List AccountCandidate) (universe : List Key)
    (covers : (a : String) (c : AccountCandidate)
      → Member c (pool a)
      → Member (candidate_key c) universe) where
  -- All accounts of `cs` have been seen, and each account that was seen since `seen` has an owner whose
  -- whole pool has been seen.
  pub record Vain (cs : List AccountCandidate) (seen seen' : List Key) (m : Matching) : Type 0 where
    pub grows : (k : Key) → Member k seen → Member k seen'
    pub all_seen : (c : AccountCandidate) → Member c cs → Member (candidate_key c) seen'
    pub closed :
        (k : Key)
        → Member k seen'
        → Member k seen
          ⊎ ((o : String) × (m.owner k ≡ some o)
              × ((c : AccountCandidate) → Member c (pool o) → Member (candidate_key c) seen'))
    pub once : Distinct seen'
    pub inside : (k : Key) → Member k seen' → Member k universe
    pub longer : length seen ≤ length seen'

  abbrev pub Good : String → List AccountCandidate → List Key → Matching → Outcome → Type 0
  Good agent cs seen m (augmented m') = Success pool agent seen m m'
  Good agent cs seen m (in_vain seen') = Vain cs seen seen' m
  Good agent cs seen m no_fuel = ⊥

  -- What a call of `augment` relies on.
  pub record Callable (fuel : ℕ) (agent : String) (seen : List Key) (m : Matching) : Type 0 where
    pub settled : Settled pool seen m agent
    pub once : Distinct seen
    pub inside : (k : Key) → Member k seen → Member k universe
    pub enough : length universe < fuel + length seen

  skip-Good :
      (agent : String) (c : AccountCandidate) (cs : List AccountCandidate) (seen : List Key)
      (m : Matching) (out : Outcome)
      → Member (candidate_key c) seen
      → Good agent cs seen m out
      → Good agent (c ∷ cs) seen m out
  skip-Good agent c cs seen m (augmented m') k g = g
  skip-Good agent c cs seen m no_fuel k g = g
  skip-Good agent c cs seen m (in_vain seen') k g = record {
    grows = g.grows;
    closed = g.closed;
    once = g.once;
    inside = g.inside;
    longer = g.longer;
    all_seen =
        λ d l. elim (Member-cons l) [ inl p ↦ rw p (g.grows _ k) | inr l' ↦ g.all_seen d l' ];
  }

  later-Good :
      (agent prior : String) (c : AccountCandidate) (cs : List AccountCandidate)
      (seen seen' : List Key) (m : Matching) (out : Outcome)
      → m.owner (candidate_key c) ≡ some prior
      → Vain (pool prior) (candidate_key c ∷ seen) seen' m
      → Good agent cs seen' m out
      → Good agent (c ∷ cs) seen m out
  later-Good agent prior c cs seen seen' m no_fuel own v g = g
  later-Good agent prior c cs seen seen' m (augmented m') own v g = record {
    fresh = let (d, e, n) = g.fresh in (d, e, λ l. n (v.grows _ (there l)));
    owned = g.owned;
    used = g.used;
    moved = λ b d e. elim (g.moved b d e) [
      | inl h ↦ inl h
      | inr n ↦ inr (λ l. n (v.grows _ (there l)))
    ];
    kept_apart = λ b n s. g.kept_apart b n (λ k e. v.grows k (there (s k e)));
    stays = g.stays;
  }
  later-Good agent prior c cs seen seen' m (in_vain seen2) own v g = record {
    grows = λ k l. g.grows k (v.grows k (there l));
    all_seen = λ d l. elim (Member-cons l) [
      | inl p ↦ rw p (g.grows _ (v.grows _ here))
      | inr l' ↦ g.all_seen d l'
    ];
    closed = λ k l. elim (g.closed k l) [
      | inr r ↦ inr r
      | inl l1 ↦ elim (v.closed k l1) [
        | inr (o, e, h) ↦ inr (o, e, λ d l2. g.grows _ (h d l2))
        | inl l2 ↦ elim (Member-cons l2) [
          | inr l3 ↦ inl l3
          | inl p ↦ inr (prior, rw p own, λ d l3. g.grows _ (v.all_seen d l3))
        ]
      ]
    ];
    once = g.once;
    inside = g.inside;
    longer = omega (arith, v.longer, g.longer);
  }

  module _ (augment_one : String → List Key → Matching → Outcome) (fuel : ℕ)
      (one-Good : (a : String) (seen : List Key) (m : Matching)
        → Inv pool m
        → Callable fuel a seen m
        → Good a (pool a) seen m (augment_one a seen m)) where
    prior-Good :
        (agent prior : String) (c : AccountCandidate) (cs : List AccountCandidate) (seen : List Key)
        (m : Matching) (next : List Key → Outcome) (out : Outcome)
        → Inv pool m
        → Member c (pool agent)
        → ¬ Member (candidate_key c) seen
        → Callable (suc fuel) agent seen m
        → m.owner (candidate_key c) ≡ some prior
        → Good prior (pool prior) (candidate_key c ∷ seen) m out
        → ((seen' : List Key)
            → Callable (suc fuel) agent seen' m
            → Good agent cs seen' m (next seen'))
        → Good agent (c ∷ cs) seen m (after_prior agent c next out)
    prior-Good agent prior c cs seen m next no_fuel inv l unseen ready own g rest = g
    prior-Good agent prior c cs seen m next (augmented m') inv l unseen ready own g rest =
        assigned-Success pool agent c seen m m' inv l unseen ready.settled
          (moved-Freed pool (candidate_key c) seen m m' prior inv own unseen g)
    prior-Good agent prior c cs seen m next (in_vain seen') inv l unseen ready own g rest =
        later-Good agent prior c cs seen seen' m (next seen') own g (
          rest seen' (record {
            settled = λ k e. g.grows k (there (ready.settled k e));
            once = g.once;
            inside = g.inside;
            enough = omega (arith, ready.enough, g.longer);
          }))

    try_each-Good :
        (agent : String) (cs : List AccountCandidate) (seen : List Key) (m : Matching)
        → Inv pool m
        → ((c : AccountCandidate) → Member c cs → Member c (pool agent))
        → Callable (suc fuel) agent seen m
        → Good agent cs seen m (try_each augment_one agent cs seen m)
    unfolding try_each
    try_each-Good agent [] seen m inv sub ready = record {
      grows = λ k l. l;
      all_seen = λ c l. elim l [ ];
      closed = λ k l. inl l;
      once = ready.once;
      inside = ready.inside;
      longer = omega arith;
    }
    try_each-Good agent (c ∷ cs) seen m inv sub ready =
        let rest : (seen' : List Key)
            → Callable (suc fuel) agent seen' m
            → Good agent cs seen' m (try_each augment_one agent cs seen' m) =
          λ seen'. try_each-Good agent cs seen' m inv (λ d l. sub d (there l)) in
        elim (Bool-cases (has_key (candidate_key c) seen)) [
          | inl e ↦ rw e (skip-Good agent c cs seen m _ (has_key-Member _ seen e) (rest seen ready))
          | inr e ↦
              let unseen = has_key-absent (candidate_key c) seen e in
              elim (Option-cases (m.owner (candidate_key c))) [
                | inl n ↦ rw e (
                    rw n (
                      assigned-Success pool agent c seen m m inv (sub c here) unseen ready.settled
                        (unowned-Freed pool (candidate_key c) seen m inv n)))
                | inr (prior, own) ↦ rw e (
                    rw own (
                      prior-Good agent prior c cs seen m _ _ inv (sub c here) unseen ready own
                        (one-Good prior (candidate_key c ∷ seen) m inv (record {
                          settled = λ k q.
                              let (d, f, r) = inv.used k prior q in
                              let (d', f', r') = inv.used (candidate_key c) prior own in
                              rw (sym r ∙ ap candidate_key (some_inj d d' (sym f ∙ f')) ∙ r') here;
                          once = (unseen, ready.once);
                          inside = λ k q. elim (Member-cons q) [
                            | inl p ↦ rw p (covers agent c (sub c here))
                            | inr q' ↦ ready.inside k q'
                          ];
                          enough = omega (arith, ready.enough);
                        }))
                        rest))
              ]
        ]

  augment-Good :
      (fuel : ℕ) (agent : String) (seen : List Key) (m : Matching)
      → Inv pool m
      → Callable fuel agent seen m
      → Good agent (pool agent) seen m (augment pool fuel agent seen m)
  unfolding augment
  augment-Good zero agent seen m inv ready =
      let fit = length_of_Distinct seen universe ready.once ready.inside in
      omega (arith, fit, ready.enough)
  augment-Good (suc fuel) agent seen m inv ready =
      try_each-Good (augment pool fuel) fuel (augment-Good fuel) agent (pool agent) seen m inv
        (λ c l. l) ready

  -- A top-level call for an agent that has no account yet.
  pub augment_lem :
      (agent : String) (m : Matching)
      → Inv pool m
      → dict_get agent m.selected ≡ none
      → Good agent (pool agent) [] m (augment pool (suc (length universe)) agent [] m)
  augment_lem agent m inv n = augment-Good (suc (length universe)) agent [] m inv (record {
    settled =
        λ k e. let (c, f, p) = inv.used k agent e in let bad : none ≡ some c = sym n ∙ f in cc;
    once = tt;
    inside = λ k l. elim l [ ];
    enough = omega arith;
  })
