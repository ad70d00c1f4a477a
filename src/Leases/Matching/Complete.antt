-- ===== src/Leases/Matching/Complete.antt =====
-- A search in vain: the accounts that it has seen, their owners, and a choice of accounts for all agents.
use claude_router.Prelude.{
  ==→≡, Bool-cases, Distinct, List, Member, Member-append_left, Member-append_right, Member-cons,
  Member-map, String, [], all, ap, arith, dict_get, here, inl, inr, length, length_of_Distinct, map,
  none, refl, some, some_inj, suc, sym, there, ◌==◌, ◌∙◌, ◌∷◌, ◌≡◌, nat_eq, string_eq, option_eq,
}
use claude_router.Leases.{AccountCandidate, Key, candidate_key}
use claude_router.Leases.Matching.{Matching, Pools, agents, pool_keys, pool_of}
use claude_router.Leases.Matching.Handover.{Inv}
use claude_router.Leases.Matching.Search.{Vain}

pub pool_of-covers :
    (pools : Pools) (a : String) (c : AccountCandidate)
    → Member c (pool_of pools a)
    → Member a (agents pools) × Member (candidate_key c) (pool_keys pools)
unfolding pool_of dict_get
pool_of-covers [] a c l = elim l [ ]
pool_of-covers ((b, pool) ∷ rest) a c l = elim (Bool-cases (b == a)) [
  | inl e ↦ (
    rw (==→≡ b a e) here,
    Member-append_left (pool_keys rest) (Member-map candidate_key (rw (pool_of, e) at l)),
  )
  | inr e ↦
      let (k, n) = pool_of-covers rest a c (rw (pool_of, e) at l) in
      (there k, Member-append_right (map candidate_key pool) n)
]

-- A choice of an account for every agent, of its own pool and different for different agents.
pub record Choice (pools : Pools) : Type 0 where
  pub account : String → Key
  pub of_pool :
      (a : String)
      → Member a (agents pools)
      → (c : AccountCandidate) × Member c (pool_of pools a) × (candidate_key c ≡ account a)
  pub apart :
      (a b : String)
      → Member a (agents pools)
      → Member b (agents pools)
      → account a ≡ account b
      → a ≡ b

module _ (pools : Pools) where
  abbrev pub Covers : Type 0
  Covers =
      (a : String) (c : AccountCandidate)
      → Member c (pool_of pools a)
      → Member (candidate_key c) (pool_keys pools)

  pub covers : Covers
  covers a c l = (pool_of-covers pools a c l).1

  module _ (f : Choice pools) (m : Matching) (inv : Inv (pool_of pools) m) (agent : String)
      (seen : List Key)
      (v : Vain (pool_of pools) (pool_keys pools) covers (pool_of pools agent) [] seen m) where
    owner-Member : (k : Key) (o : String) → m.owner k ≡ some o → Member o (agents pools)
    owner-Member k o e =
        let (c, g, p) = inv.used k o e in (pool_of-covers pools o c (inv.owned o c g).1).0

    owned_once :
        (k j : Key) (o o' : String) → m.owner k ≡ some o → m.owner j ≡ some o' → o ≡ o' → k ≡ j
    owned_once k j o o' e e' q =
        let (c, g, p) = inv.used k o e in
        let (c', g', p') = inv.used j o' e' in
        sym p
        ∙ ap candidate_key (some_inj c c' (sym g ∙ ap (λ z. dict_get z m.selected) q ∙ g'))
        ∙ p'

    -- The chosen account of one of the owners.
    abbrev IsImage : List Key → Key → Type 0
    IsImage keys x =
        (k : Key) × Member k keys × (o : String) × (m.owner k ≡ some o) × (x ≡ f.account o)

    image_of :
        (k : Key) → Member k seen → (o : String) × (m.owner k ≡ some o) × Member (f.account o) seen
    image_of k l = elim (v.closed k l) [
      | inl n ↦ elim n [ ]
      | inr (o, e, all) ↦
          let (c, n, p) = f.of_pool o (owner-Member k o e) in (o, e, rw (← p) (all c n))
    ]

    images :
        (keys : List Key)
        → Distinct keys
        → ((k : Key) → Member k keys → Member k seen)
        → (xs : List Key) × (length xs ≡ length keys)
          × Distinct xs
          × ((x : Key) → Member x xs → Member x seen × IsImage keys x)
    images [] d sub = ([], refl, tt, λ x l. elim l [ ])
    images (k ∷ keys) (absent, d) sub =
        let (xs, n, once, ims) = images keys d (λ j l. sub j (there l)) in
        let (o, e, l) = image_of k (sub k here) in
        (
          f.account o ∷ xs,
          ap suc n,
          (
            λ r.
                let (j, l', o', e', p) = (ims (f.account o) r).1 in
                let q = f.apart o o' (owner-Member k o e) (owner-Member j o' e') p in
                absent (rw (owned_once k j o o' e e' q) l'),
            once,
          ),
          λ x r. elim (Member-cons r) [
            | inl p ↦ (rw p l, (k, here, o, e, p))
            | inr r' ↦ let (s, (j, l', o', e', p')) = ims x r' in (s, (j, there l', o', e', p'))
          ],
        )

    -- The agent and the owners are one more than the accounts that they may have.
    pub vain-no_Choice : Member agent (agents pools) → dict_get agent m.selected ≡ none → ⊥
    vain-no_Choice here_agent none_yet =
        let (xs, n, once, ims) = images seen v.once (λ k l. l) in
        let (c, l, p) = f.of_pool agent here_agent in
        let fit =
          length_of_Distinct (f.account agent ∷ xs) seen
            (
              λ r.
                  let (k, l', o, e, q) = (ims (f.account agent) r).1 in
                  let same_agent = f.apart agent o here_agent (owner-Member k o e) q in
                  let (d, g, t) = inv.used k o e in
                  let bad : none ≡ some d =
                    sym none_yet ∙ ap (λ z. dict_get z m.selected) same_agent ∙ g in
                  cc,
              once,
            )
            (λ x r. elim (Member-cons r) [
              | inl q ↦ rw (q, ← p) (v.all_seen c l)
              | inr r' ↦ (ims x r').0
            ]) in
        omega (arith, n, fit)
