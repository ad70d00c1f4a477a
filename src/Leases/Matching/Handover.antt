-- ===== src/Leases/Matching/Handover.antt =====
-- How an account is handed over to an agent: what a successful `augment` does to the matching.
use claude_router.Prelude.{
  ==-cases, ==_refl, List, Member, String, ap, dict_get, dict_get-set, here, inl, inr, none, refl,
  some, some_inj, sym, there, ◌∙◌, ◌∷◌, ◌≡◌, ◌⊎◌, nat_eq, string_eq, option_eq,
}
use claude_router.Leases.{AccountCandidate, Key, candidate_key, same_key-cases, same_key_refl}
use claude_router.Leases.Matching.{Matching, assign}

module _ (agent : String) (c : AccountCandidate) (m : Matching) where
  pub owner_here : (assign agent c m).owner (candidate_key c) ≡ some agent
  owner_here = rw (same_key_refl (candidate_key c)) refl

  pub owner_apart : (k : Key) → ¬ (candidate_key c ≡ k) → (assign agent c m).owner k ≡ m.owner k
  owner_apart k d = elim (same_key-cases (candidate_key c) k) [
    | inl p ↦ elim (d p) [ ]
    | inr (e, n) ↦ rw e refl
  ]

  owner_cases :
      (k : Key) (o : String)
      → (assign agent c m).owner k ≡ some o
      → ((candidate_key c ≡ k) × (agent ≡ o)) ⊎ ((¬ (candidate_key c ≡ k)) × (m.owner k ≡ some o))
  owner_cases k o h = elim (same_key-cases (candidate_key c) k) [
    | inl p ↦ inl (p, some_inj agent o (sym owner_here ∙ ap (assign agent c m).owner p ∙ h))
    | inr (e, n) ↦ inr (n, rw e at h)
  ]

  selected_here : dict_get agent (assign agent c m).selected ≡ some c
  selected_here = rw (dict_get-set agent agent c m.selected, ==_refl agent) refl

  selected_apart :
      (b : String) → ¬ (b ≡ agent) → dict_get b (assign agent c m).selected ≡ dict_get b m.selected
  selected_apart b d = elim (==-cases agent b) [
    | inl p ↦ elim (d (sym p)) [ ]
    | inr (e, n) ↦ rw (dict_get-set agent b c m.selected, e) refl
  ]

  selected_cases :
      (b : String) (d : AccountCandidate)
      → dict_get b (assign agent c m).selected ≡ some d
      → ((b ≡ agent) × (c ≡ d)) ⊎ ((¬ (b ≡ agent)) × (dict_get b m.selected ≡ some d))
  selected_cases b d h = elim (==-cases b agent) [
    | inl p ↦ inl (p, some_inj c d (sym selected_here ∙ rw p at h))
    | inr (e, n) ↦ inr (n, sym (selected_apart b n) ∙ h)
  ]

module _ (pool : String → List AccountCandidate) where
  -- Every selected account is of the agent's pool and owned by the agent.
  abbrev pub IsOwned : Matching → Type 0
  IsOwned m =
      (b : String) (c : AccountCandidate)
      → dict_get b m.selected ≡ some c
      → (m.owner (candidate_key c) ≡ some b) × Member c (pool b)

  -- The account is what the agent has selected.
  abbrev pub HasKey : Matching → String → Key → Type 0
  HasKey m b k = (c : AccountCandidate) × (dict_get b m.selected ≡ some c) × (candidate_key c ≡ k)

  pub record Inv (m : Matching) : Type 0 where
    pub owned : IsOwned m
    pub used : (k : Key) (o : String) → m.owner k ≡ some o → HasKey m o k

  -- Every account that the agent owns has been seen.
  abbrev pub Settled : List Key → Matching → String → Type 0
  Settled seen m b = (k : Key) → m.owner k ≡ some b → Member k seen

  -- `m'` is `m` after a success for `agent`, from `seen` on.
  pub record Success (agent : String) (seen : List Key) (m m' : Matching) : Type 0 where
    pub fresh :
        (c : AccountCandidate) × (dict_get agent m'.selected ≡ some c)
        × (¬ Member (candidate_key c) seen)
    pub owned : IsOwned m'
    pub used :
        (k : Key) (o : String)
        → m'.owner k ≡ some o
        → HasKey m' o k ⊎ ((o ≡ agent) × (m.owner k ≡ some agent))
    pub moved :
        (b : String) (c : AccountCandidate)
        → dict_get b m'.selected ≡ some c
        → (dict_get b m.selected ≡ some c) ⊎ (¬ Member (candidate_key c) seen)
    pub kept_apart :
        (b : String)
        → ¬ (b ≡ agent)
        → Settled seen m b
        → dict_get b m'.selected ≡ dict_get b m.selected
    pub stays :
        (b : String) (c : AccountCandidate)
        → dict_get b m.selected ≡ some c
        → (d : AccountCandidate) × (dict_get b m'.selected ≡ some d)

  -- `m'` is `m` with the account `key` made free.
  pub record Freed (key : Key) (seen : List Key) (m m' : Matching) : Type 0 where
    pub owned : IsOwned m'
    pub free :
        (b : String) (c : AccountCandidate)
        → dict_get b m'.selected ≡ some c
        → ¬ (candidate_key c ≡ key)
    pub used : (k : Key) (o : String) → m'.owner k ≡ some o → ¬ (k ≡ key) → HasKey m' o k
    pub moved :
        (b : String) (c : AccountCandidate)
        → dict_get b m'.selected ≡ some c
        → (dict_get b m.selected ≡ some c) ⊎ (¬ Member (candidate_key c) seen)
    pub kept_apart :
        (b : String) → Settled seen m b → dict_get b m'.selected ≡ dict_get b m.selected
    pub stays :
        (b : String) (c : AccountCandidate)
        → dict_get b m.selected ≡ some c
        → (d : AccountCandidate) × (dict_get b m'.selected ≡ some d)

  pub unowned-Freed :
      (key : Key) (seen : List Key) (m : Matching) → Inv m → m.owner key ≡ none → Freed key seen m m
  unowned-Freed key seen m inv n = record {
    owned = inv.owned;
    free =
        λ b c e p. let (o, l) = inv.owned b c e in let bad : none ≡ some b = rw (← n, ← p) o in cc;
    used = λ k o e d. inv.used k o e;
    moved = λ b c e. inl e;
    kept_apart = λ b s. refl;
    stays = λ b c e. (c, e);
  }

  -- The owner of the account has found another one.
  pub moved-Freed :
      (key : Key) (seen : List Key) (m m' : Matching) (prior : String)
      → Inv m
      → m.owner key ≡ some prior
      → ¬ Member key seen
      → Success prior (key ∷ seen) m m'
      → Freed key seen m m'
  moved-Freed key seen m m' prior inv own unseen s = record {
    owned = s.owned;
    free = λ b c e p. elim (s.moved b c e) [
      | inl h ↦
          let q = some_inj prior b (sym own ∙ ap m.owner (sym p) ∙ (inv.owned b c h).0) in
          let (c', e', unseen') = s.fresh in
          let one = some_inj c' c (sym e' ∙ ap (λ x. dict_get x m'.selected) q ∙ e) in
          unseen' (rw (ap candidate_key one ∙ p) here)
      | inr h ↦ h (rw p here)
    ];
    used = λ k o e d. elim (s.used k o e) [
      | inl h ↦ h
      | inr (q, h) ↦
          let (c1, e1, p1) = inv.used k prior h in
          let (c2, e2, p2) = inv.used key prior own in
          elim (d (sym p1 ∙ ap candidate_key (some_inj c1 c2 (sym e1 ∙ e2)) ∙ p2)) [ ]
    ];
    moved = λ b c e. elim (s.moved b c e) [ inl h ↦ inl h | inr h ↦ inr (λ l. h (there l)) ];
    kept_apart = λ b h. s.kept_apart b (λ p. unseen (h key (rw p own))) (λ k e. there (h k e));
    stays = s.stays;
  }

  pub assigned-Success :
      (agent : String) (c : AccountCandidate) (seen : List Key) (m m' : Matching)
      → Inv m
      → Member c (pool agent)
      → ¬ Member (candidate_key c) seen
      → Settled seen m agent
      → Freed (candidate_key c) seen m m'
      → Success agent seen m (assign agent c m')
  assigned-Success agent c seen m m' inv of_pool unseen settled f = record {
    fresh = (c, selected_here agent c m', unseen);
    owned = λ b d e. elim (selected_cases agent c m' b d e) [
      | inl (p, q) ↦ rw (p, ← q) (owner_here agent c m', of_pool)
      | inr (n, h) ↦
          let (o, l) = f.owned b d h in
          (owner_apart agent c m' (candidate_key d) (λ p. f.free b d h (sym p)) ∙ o, l)
    ];
    used = λ k o e. elim (owner_cases agent c m' k o e) [
      | inl (p, q) ↦ inl (rw (← q) (c, selected_here agent c m', p))
      | inr (n, h) ↦
          let (c1, e1, p1) = f.used k o h (λ p. n (sym p)) in
          elim (==-cases o agent) [
            | inl r ↦
                let before : dict_get agent m.selected ≡ some c1 =
                  sym (f.kept_apart agent settled)
                  ∙ ap (λ x. dict_get x m'.selected) (sym r)
                  ∙ e1 in
                inr (r, ap m.owner (sym p1) ∙ (inv.owned agent c1 before).0)
            | inr (t, n') ↦ inl (c1, selected_apart agent c m' o n' ∙ e1, p1)
          ]
    ];
    moved = λ b d e. elim (selected_cases agent c m' b d e) [
      | inl (p, q) ↦ inr (λ l. unseen (rw q l))
      | inr (n, h) ↦ f.moved b d h
    ];
    kept_apart = λ b d h. selected_apart agent c m' b d ∙ f.kept_apart b h;
    stays = λ b d e. elim (==-cases b agent) [
      | inl p ↦ (c, rw p (selected_here agent c m'))
      | inr (t, n) ↦ let (x, h) = f.stays b d e in (x, selected_apart agent c m' b n ∙ h)
    ];
  }
