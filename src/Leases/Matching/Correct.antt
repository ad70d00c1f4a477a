-- ===== src/Leases/Matching/Correct.antt =====
-- `_match_candidates` as a whole: it finds a matching exactly when there is one.
use claude_router.Prelude.{
  Distinct, List, Member, Member-cons, Member-sorted_by, String, [], ap, dict_get, false,
  has_repeats, has_repeats-Distinct, here, inl, inr, length, none, ok, refl, some, some_inj,
  sorted_by, sorted_by-Distinct, sorted_by-Member, subst, suc, sym, there, ℕ, ◌∙◌, ◌∷◌, ◌≡◌, ◌⊎◌,
}
use claude_router.Leases.{AccountCandidate, Key, candidate_key}
use claude_router.Leases.Matching.{
  unless_in_vain, Matching, Outcome, Pools, augmented, in_vain, no_fuel, agents, pool_keys, pool_of,
  augment, match_each, fewer_first, match_candidates, unmatched,
}
use claude_router.Leases.Matching.Handover.{Inv, Success}
use claude_router.Leases.Matching.Search.{Vain, augment_lem}
use claude_router.Leases.Matching.Complete.{Choice, covers, vain-no_Choice}

-- The result of the search as such a choice.
pub record IsMatching (pools : Pools) (selected : List (String × AccountCandidate)) : Type 0 where
  pub total :
      (a : String)
      → Member a (agents pools)
      → (c : AccountCandidate) × (dict_get a selected ≡ some c) × Member c (pool_of pools a)
  pub owned :
      (b : String) (c : AccountCandidate)
      → dict_get b selected ≡ some c
      → Member c (pool_of pools b)
  pub apart :
      (a b : String) (c d : AccountCandidate)
      → dict_get a selected ≡ some c
      → dict_get b selected ≡ some d
      → candidate_key c ≡ candidate_key d
      → a ≡ b

Outcome-cases :
    (out : Outcome)
    → ((m : Matching) × (out ≡ augmented m))
      ⊎ (((seen : List Key) × (out ≡ in_vain seen)) ⊎ (out ≡ no_fuel))
Outcome-cases (augmented m) = inl (m, refl)
Outcome-cases (in_vain seen) = inr (inl (seen, refl))
Outcome-cases no_fuel = inr (inr refl)

module _ (pool : String → List AccountCandidate) (agent : String) (m m' : Matching)
    (inv : Inv pool m) (none_yet : dict_get agent m.selected ≡ none)
    (s : Success pool agent [] m m') where
  success-Inv : Inv pool m'
  success-Inv = record {
    owned = s.owned;
    used = λ k o e. elim (s.used k o e) [
      | inl h ↦ h
      | inr (p, h) ↦
          let (c, g, q) = inv.used k agent h in let bad : none ≡ some c = sym none_yet ∙ g in cc
    ];
  }

  success-others :
      (b : String) → ¬ (b ≡ agent) → dict_get b m.selected ≡ none → dict_get b m'.selected ≡ none
  success-others b d n =
      s.kept_apart b d
        (λ k e. let (c, g, q) = inv.used k b e in let bad : none ≡ some c = sym n ∙ g in cc)
      ∙ n

module _ (pool : String → List AccountCandidate) (n : ℕ) (agent : String) (rest : List String)
    (m : Matching) where
  match_each-augmented :
      (m' : Matching)
      → augment pool n agent [] m ≡ augmented m'
      → match_each pool n (agent ∷ rest) m ≡ match_each pool n rest m'
  unfolding match_each
  match_each-augmented m' e = ap (unless_in_vain (λ m2. match_each pool n rest m2)) e

  match_each-in_vain :
      (seen : List Key)
      → augment pool n agent [] m ≡ in_vain seen
      → match_each pool n (agent ∷ rest) m ≡ ok none
  unfolding match_each
  match_each-in_vain seen e = ap (unless_in_vain (λ m2. match_each pool n rest m2)) e

module _ (pools : Pools) where
  abbrev fuel : ℕ
  fuel = suc (length (pool_keys pools))

  -- Every agent of `todo` and of the matching `m` has an account in `m'`.
  record Covered (todo : List String) (m m' : Matching) : Type 0 where
    sound : Inv (pool_of pools) m'
    done : (a : String) → Member a todo → (c : AccountCandidate) × (dict_get a m'.selected ≡ some c)
    stays :
        (b : String) (c : AccountCandidate)
        → dict_get b m.selected ≡ some c
        → (d : AccountCandidate) × (dict_get b m'.selected ≡ some d)

  abbrev Verdict : List String → Matching → Type 0
  Verdict todo m =
      ((m' : Matching) × (match_each (pool_of pools) fuel todo m ≡ ok (some m'.selected))
        × Covered todo m m')
      ⊎ ((match_each (pool_of pools) fuel todo m ≡ ok none) × (Choice pools → ⊥))

  match_each-Verdict :
      (todo : List String) (m : Matching)
      → ((a : String) → Member a todo → Member a (agents pools))
      → Distinct todo
      → Inv (pool_of pools) m
      → ((a : String) → Member a todo → dict_get a m.selected ≡ none)
      → Verdict todo m
  unfolding match_each
  match_each-Verdict [] m sub d inv new =
      inl (m, refl, record { sound = inv; done = λ a l. elim l [ ]; stays = λ b c e. (c, e) })
  match_each-Verdict (agent ∷ rest) m sub (absent, d) inv new =
      let good =
        augment_lem (pool_of pools) (pool_keys pools) (covers pools) agent m inv (new agent here) in
      elim (Outcome-cases (augment (pool_of pools) fuel agent [] m)) [
        | inl (m1, e) ↦
            let s : Success (pool_of pools) agent [] m m1 = rw e at good in
            let inv1 = success-Inv (pool_of pools) agent m m1 inv (new agent here) s in
            let (c, g, n) = s.fresh in
            elim (match_each-Verdict rest m1 (λ a l. sub a (there l)) d inv1
              (λ a l.
                success-others (pool_of pools) agent m m1 inv (new agent here) s a
                  (λ p. absent (subst (λ z. Member z rest) p l)) (new a (there l)))) [
                    | inl (m2, r, x) ↦ inl (
                      m2,
                      match_each-augmented (pool_of pools) fuel agent rest m m1 e ∙ r,
                      record {
                        sound = x.sound;
                        done = λ a l. elim (Member-cons l) [
                          | inl p ↦ rw p (x.stays agent c g)
                          | inr l' ↦ x.done a l'
                        ];
                        stays = λ b k q. let (k', q') = s.stays b k q in x.stays b k' q';
                      },
                    )
                    | inr (r, hopeless) ↦
                        inr (
                          match_each-augmented (pool_of pools) fuel agent rest m m1 e ∙ r,
                          hopeless,
                        )
                  ]
        | inr (inl (seen, e)) ↦
            let v : Vain (pool_of pools) (pool_keys pools) (covers pools) (pool_of pools agent) []
                seen m =
              rw e at good in
            inr (
              match_each-in_vain (pool_of pools) fuel agent rest m seen e,
              λ f. vain-no_Choice pools f m inv agent seen v (sub agent here) (new agent here),
            )
        | inr (inr e) ↦ let bad : ⊥ = rw e at good in elim bad [ ]
      ]

Inv-unmatched : (pool : String → List AccountCandidate) → Inv pool unmatched
unfolding dict_get
Inv-unmatched pool = record { owned = λ b c e. cc; used = λ k o e. cc }

-- For pools of distinct agents, the search ends: it returns a candidate of the own pool for every
-- agent, with different accounts for different agents, or it returns None and there is no such choice.
pub match_candidates_lem :
    (pools : Pools)
    → has_repeats (agents pools) ≡ false
    → ((selected : List (String × AccountCandidate)) × (match_candidates pools ≡ ok (some selected))
        × IsMatching pools selected)
      ⊎ ((match_candidates pools ≡ ok none) × ¬ Choice pools)
unfolding match_candidates
match_candidates_lem pools once =
    let order = sorted_by (fewer_first pools) (agents pools) in
    elim (match_each-Verdict pools order unmatched
      (λ a l. Member-sorted_by (fewer_first pools) a (agents pools) l)
      (sorted_by-Distinct (fewer_first pools) (agents pools)
        (has_repeats-Distinct (agents pools) once))
      (Inv-unmatched (pool_of pools)) (λ a l. unfold dict_get in refl)) [
        | inl (m, r, x) ↦ inl (
          m.selected,
          r,
          record {
            total = λ a l.
                let (c, e) = x.done a (sorted_by-Member (fewer_first pools) a (agents pools) l) in
                (c, e, (x.sound.owned a c e).1);
            owned = λ b c e. (x.sound.owned b c e).1;
            apart = λ a b c d e e' p.
                some_inj a b
                  (sym (x.sound.owned a c e).0 ∙ ap m.owner p ∙ (x.sound.owned b d e').0);
          },
        )
        | inr (r, hopeless) ↦ inr (r, hopeless)
      ]
