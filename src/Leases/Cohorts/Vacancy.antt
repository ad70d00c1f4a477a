-- ===== src/Leases/Cohorts/Vacancy.antt =====
-- The pools of a cohort, and the accounts of its selection.
use claude_router.Prelude.{
  >>=-eq-ok, Bool-cases, Distinct, List, Member, Member-cons, Member-keys, Member→is_in, String, [],
  arith, dict_get, dict_get-Member, dict_keys, false, here, inl, inr, is_blank, is_in, map,
  map-Member, ok, ok-injective, raise_if, select, select-Member, sym, there, ℕ, ◌==◌, ◌∷◌, ◌≡◌,
  nat_eq, string_eq, option_eq,
}
use claude_router.Leases.Requests.{Assignment, check_agents, names_of}
use claude_router.Leases.{AccountCandidate, Key, candidate_key, has_key-absent}
use claude_router.Leases.Matching.{Pools, agents, pool_of}
use claude_router.Leases.Matching.Correct.{IsMatching}
use claude_router.Leases.Store.{value_error, HealthEvent, eligible_candidates}
use claude_router.Leases.Cohorts.{Held, is_held, is_vacant, pools_for}

-- Every candidate of the pools has an account that is not occupied, and no agent has two pools.
pub record AreVacant (occupied : List Key) (names : List String) (pools : Pools) : Type 0 where
  pub vacant :
      (a : String) (c : AccountCandidate)
      → Member c (pool_of pools a)
      → ¬ Member (candidate_key c) occupied
  pub requested : (a : String) → Member a (agents pools) → Member a names
  pub once : Distinct (agents pools)

no_pools-AreVacant : (occupied : List Key) → AreVacant occupied [] []
unfolding pool_of dict_get
no_pools-AreVacant occupied = record {
  vacant = λ a c m. elim m [ ];
  requested = λ a m. m;
  once = tt;
}

added-AreVacant :
    (occupied : List Key) (a : String) (names : List String) (ranked : List AccountCandidate)
    (pools : Pools)
    → ¬ Member a names
    → AreVacant occupied names pools
    → AreVacant occupied (a ∷ names) ((a, select (is_vacant occupied) ranked) ∷ pools)
unfolding pool_of dict_get
added-AreVacant occupied a names ranked pools absent v = record {
  vacant = λ b c m. elim (Bool-cases (a == b)) [
    | inl e ↦
        let (k, free) = select-Member (is_vacant occupied) ranked c (rw (pool_of, e) at m) in
        has_key-absent (candidate_key c) occupied (ground arith)
    | inr e ↦ v.vacant b c (rw (pool_of, e) at m)
  ];
  requested = λ b m. elim (Member-cons m) [ inl p ↦ rw p here | inr n ↦ there (v.requested b n) ];
  once = ((λ m. absent (v.requested a m)), v.once);
}

pub pools_for-AreVacant :
    (lower : String → String) (health : List HealthEvent) (occupied : List Key) (now : ℕ)
    (held : Held) (requested : List Assignment) (pools : Pools)
    → Distinct (names_of requested)
    → pools_for lower health occupied now held requested ≡ ok pools
    → AreVacant occupied (names_of requested) pools
unfolding pools_for
pools_for-AreVacant lower health occupied now held [] pools d h =
    let p : [] ≡ pools = ok-injective h in rw (← p) (no_pools-AreVacant occupied)
pools_for-AreVacant lower health occupied now held (a ∷ rest) pools (absent, d) h =
    elim (Bool-cases (is_held held a.agent_id)) [
      | inl e ↦
          let v = pools_for-AreVacant lower health occupied now held rest pools d (rw e at h) in
          record { vacant = v.vacant; requested = λ b m. there (v.requested b m); once = v.once }
      | inr e ↦
          let (ranked, r, h1) =
            >>=-eq-ok (eligible_candidates lower health [] now a.candidates) _ (rw e at h) in
          let (others, r', h2) = >>=-eq-ok (pools_for lower health occupied now held rest) _ h1 in
          rw (← ok-injective h2) (
            added-AreVacant occupied a.agent_id (names_of rest) ranked others absent
              (pools_for-AreVacant lower health occupied now held rest others d r'))
    ]

-- The agents that pass `_normalize_assignments` are distinct.
pub check_agents-Distinct :
    (seen : List String) (requested : List Assignment)
    → check_agents seen requested ≡ ok tt
    → Distinct (names_of requested)
      × ((a : String) → Member a (names_of requested) → ¬ Member a seen)
unfolding check_agents
check_agents-Distinct seen [] h = (tt, λ a m. elim m [ ])
check_agents-Distinct seen (a ∷ rest) h =
    let (u, p, h1) = >>=-eq-ok (raise_if (is_blank a.agent_id) value_error) _ h in
    let (u', q, h2) = >>=-eq-ok (raise_if (is_in a.agent_id seen) value_error) _ h1 in
    let (d, apart) = check_agents-Distinct (a.agent_id ∷ seen) rest h2 in
    let unseen : is_in a.agent_id seen ≡ false = ground arith in
    (
      ((λ m. apart a.agent_id m here), d),
      λ b m l. elim (Member-cons m) [
        | inl r ↦ let e = Member→is_in l in let e' : is_in b seen ≡ false = rw r unseen in cc
        | inr n ↦ apart b n (there l)
      ],
    )

-- The accounts of a matching are distinct.
pub IsMatching-Distinct :
    (pools : Pools) (selected part : List (String × AccountCandidate))
    → IsMatching pools selected
    → Distinct (dict_keys selected)
    → Distinct (dict_keys part)
    → ((e : String × AccountCandidate) → Member e part → Member e selected)
    → Distinct (map (λ (e : String × AccountCandidate). candidate_key e.1) part)
IsMatching-Distinct pools selected [] v d p sub = tt
IsMatching-Distinct pools selected ((a, c) ∷ rest) v d (absent, p) sub = (
  λ m.
      let ((b, c'), l, q) =
        map-Member (λ (e : String × AccountCandidate). candidate_key e.1) (candidate_key c) rest
          m in
      let same_agent =
        v.apart a b c c' (dict_get-Member a c selected d (sub (a, c) here))
          (dict_get-Member b c' selected d (sub (b, c') (there l))) (sym q) in
      absent (rw same_agent (Member-keys l)),
  IsMatching-Distinct pools selected rest v d p (λ e l. sub e (there l)),
)
