-- ===== src/Leases/Cohorts/Holding.antt =====
-- The rows that the agents of a cohort hold, through the loops that insert and extend them.
use claude_router.Prelude.{
  ==-cases, ==_refl, ==→≡, Bool, Bool-cases, Distinct, List, Member, Member-cons, Member-keys,
  Member-map, Member-update, Member-updated, String, [], and-true, ap, arith, dict_get,
  dict_get-set, dict_keys, dict_set, false, find, here, inl, inr, leb, le→leb, map,
  map-update_where, ok, refl, some, some_inj, subst, sym, there, true, ℕ, ◌==◌, ◌∙◌, ◌∷◌, ◌≡◌, ◌⊎◌,
  nat_eq, string_eq, option_eq,
}
use claude_router.Leases.Store.{Store, ReservationRow, is_owned}
use claude_router.Leases.Reservations.{set_expiry}
use claude_router.Leases.Cohorts.{Held, extend_each, extend_row, is_held_row}

abbrev pub ids : List ReservationRow → List String
ids rows = map (λ (r : ReservationRow). r.reservation_id) rows

abbrev pub same_id : ReservationRow → ReservationRow → Bool
same_id r q = q.reservation_id == r.reservation_id

-- The identifier is a key: it finds its row.
find-row :
    (r : ReservationRow) (rows : List ReservationRow)
    → Distinct (ids rows)
    → Member r rows
    → find (same_id r) rows ≡ some r
unfolding find
find-row r [] d m = elim m [ ]
find-row r (q ∷ rows) (absent, d) m = elim (Member-cons m) [
  | inl p ↦ rw (p, ==_refl q.reservation_id) refl
  | inr n ↦ elim (Bool-cases (same_id r q)) [
    | inl e ↦
        elim (absent (
          subst (λ z. Member z (ids rows)) (sym (==→≡ q.reservation_id r.reservation_id e))
            (Member-map (λ (x : ReservationRow). x.reservation_id) n))) [ ]
    | inr e ↦ rw e (find-row r rows d n)
  ]
]

one_row :
    (q r : ReservationRow) (rows : List ReservationRow)
    → Distinct (ids rows)
    → Member q rows
    → Member r rows
    → q.reservation_id ≡ r.reservation_id
    → q ≡ r
one_row q r rows d m n e = some_inj q r (
    sym (find-row q rows d m)
    ∙ subst (λ id. find (λ (x : ReservationRow). x.reservation_id == id) rows ≡ some r) (sym e)
        (find-row r rows d n))

-- The row is in the tables, held by the agent for the task.
pub record Owns (task_id agent_id : String) (s : Store) (r : ReservationRow) : Type 0 where
  pub row : Member r s.reservations
  pub owned : is_owned r.state ≡ true
  pub task : r.task_id ≡ task_id
  pub agent : r.agent_id ≡ agent_id

abbrev pub AreOwned : String → Store → Held → Type 0
AreOwned task_id s held =
    (a : String) (r : ReservationRow) → dict_get a held ≡ some r → Owns task_id a s r

abbrev pub Has : String → Held → Type 0
Has a held = (r : ReservationRow) × (dict_get a held ≡ some r)

pub dict_set-Has :
    (a b : String) (r : ReservationRow) (held : Held) → Has b held → Has b (dict_set a r held)
dict_set-Has a b r held (q, e) = elim (Bool-cases (a == b)) [
  | inl f ↦ (r, rw (dict_get-set a b r held, f) refl)
  | inr f ↦ (q, rw (dict_get-set a b r held, f) e)
]

pub set_entry-Has : (a : String) (r : ReservationRow) (held : Held) → Has a (dict_set a r held)
set_entry-Has a r held = (r, rw (dict_get-set a a r held, ==_refl a) refl)

-- What the dict holds after it is set.
pub set-cases :
    (a b : String) (r q : ReservationRow) (held : Held)
    → dict_get b (dict_set a r held) ≡ some q
    → ((a ≡ b) × (r ≡ q)) ⊎ (((a == b) ≡ false) × (dict_get b held ≡ some q))
set-cases a b r q held h = elim (Bool-cases (a == b)) [
  | inl e ↦ inl (==→≡ a b e, some_inj r q (rw (dict_get-set a b r held, e) at h))
  | inr e ↦ inr (e, rw (dict_get-set a b r held, e) at h)
]

-- Extending a row keeps what the other agents hold.
extended-Owns :
    (task_id a b : String) (r q : ReservationRow) (expires_at : ℕ) (s : Store)
    → Distinct (ids s.reservations)
    → Owns task_id a s r
    → Owns task_id b s q
    → (a == b) ≡ false
    → Owns task_id b (extend_row expires_at r.reservation_id s) q
extended-Owns task_id a b r q expires_at s d o k differs =
    elim (Bool-cases (is_held_row r.reservation_id q)) [
      | inl e ↦
          let one = one_row q r s.reservations d k.row o.row (==→≡ _ _ (and-true _ _ e).0) in
          let p : a ≡ b =
            sym o.agent ∙ ap (λ (x : ReservationRow). x.agent_id) (sym one) ∙ k.agent in
          let t : (a == b) ≡ true = rw p (==_refl b) in cc
      | inr e ↦ record {
        row = Member-update (is_held_row r.reservation_id) (set_expiry expires_at) k.row e;
        owned = k.owned;
        task = k.task;
        agent = k.agent;
      }
    ]

extended_row-Owns :
    (task_id a : String) (r : ReservationRow) (expires_at : ℕ) (s : Store)
    → Owns task_id a s r
    → Owns task_id a (extend_row expires_at r.reservation_id s) (set_expiry expires_at r)
extended_row-Owns task_id a r expires_at s o = record {
  row =
      Member-updated (is_held_row r.reservation_id) (set_expiry expires_at) o.row
        (rw (==_refl r.reservation_id) o.owned);
  owned = o.owned;
  task = o.task;
  agent = o.agent;
}

-- What is held outlasts the instant, but for the entries that are `left`.
abbrev pub Outlasts : ℕ → Held → Held → Type 0
Outlasts expires_at left held =
    (a : String) (r : ReservationRow)
    → dict_get a held ≡ some r
    → (leb expires_at r.expires_at ≡ true) ⊎ Member (a, r) left

pub record Extended (task_id : String) (expires_at : ℕ) (held : Held) (t : Store) (extended : Held)
    : Type 0 where
  pub own : AreOwned task_id t extended
  pub outlasts : Outlasts expires_at [] extended
  pub keeps : (a : String) → Has a held → Has a extended

pub extend_each_lem :
    (task_id : String) (expires_at : ℕ) (left : Held) (s : Store) (held : Held)
    → Distinct (ids s.reservations)
    → Distinct (dict_keys left)
    → ((a : String) (r : ReservationRow) → Member (a, r) left → dict_get a held ≡ some r)
    → AreOwned task_id s held
    → Outlasts expires_at left held
    → (t : Store) × (extended : Held) × (extend_each expires_at left s held ≡ ok (t, extended))
      × Extended task_id expires_at held t extended
unfolding extend_each
extend_each_lem task_id expires_at [] s held d once stored own outlasts =
    (s, held, refl, record { own = own; outlasts = outlasts; keeps = λ a h. h })
extend_each_lem task_id expires_at ((a, r) ∷ rest) s held d (absent, once) stored own outlasts =
    elim (Bool-cases (leb expires_at r.expires_at)) [
      | inl l ↦ rw l (
          extend_each_lem task_id expires_at rest s held d once (λ b q m. stored b q (there m)) own
            (λ b q h. elim (outlasts b q h) [
              | inl k ↦ inl k
              | inr m ↦ elim (Member-cons m) [
                | inl p ↦ inl (rw (ap (λ (x : String × ReservationRow). x.1) p) l)
                | inr n ↦ inr n
              ]
            ]))
      | inr l ↦
          let row = set_expiry expires_at r in
          let extended = extend_row expires_at r.reservation_id s in
          let o = own a r (stored a r here) in
          let d' : Distinct (ids extended.reservations) =
            subst Distinct
              (sym (
                map-update_where (λ (x : ReservationRow). x.reservation_id)
                  (is_held_row r.reservation_id) (set_expiry expires_at) s.reservations
                  (λ x. refl)))
              d in
          let o' = extended_row-Owns task_id a r expires_at s o in
          let f : find (same_id r) extended.reservations ≡ some row =
            find-row row extended.reservations d' o'.row in
          let (t, last, e, x) =
            extend_each_lem task_id expires_at rest extended (dict_set a row held) d' once
              (λ b q m. elim (==-cases a b) [
                | inl p ↦ elim (absent (rw p (Member-keys m))) [ ]
                | inr (e, differs) ↦ rw (dict_get-set a b row held, e) (stored b q (there m))
              ])
              (λ b q h. elim (set-cases a b row q held h) [
                | inl (p, same_row) ↦
                    subst (λ y. Owns task_id y extended q) p
                      (subst (Owns task_id a extended) same_row o')
                | inr (differs, g) ↦
                    extended-Owns task_id a b r q expires_at s d o (own b q g) differs
              ])
              (λ b q h. elim (set-cases a b row q held h) [
                | inl (p, same_row) ↦ inl (
                    subst (λ (y : ReservationRow). leb expires_at y.expires_at ≡ true) same_row
                      (le→leb expires_at expires_at (omega arith)))
                | inr (differs, g) ↦ elim (outlasts b q g) [
                  | inl k ↦ inl k
                  | inr m ↦ elim (Member-cons m) [
                    | inl p ↦
                        let t : (a == b) ≡ true =
                          rw (ap (λ (y : String × ReservationRow). y.0) p) (==_refl a) in
                        cc
                    | inr n ↦ inr n
                  ]
                ]
              ]) in
          (
            t,
            last,
            rw (l, f) e,
            record {
              own = x.own;
              outlasts = x.outlasts;
              keeps = λ b g. x.keeps b (dict_set-Has a b row held g);
            },
          )
    ]
