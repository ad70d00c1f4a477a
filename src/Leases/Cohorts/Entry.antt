-- ===== src/Leases/Cohorts/Entry.antt =====
-- The dict of a cohort's rows: from the rows that are held already, with the rows that are inserted.
use claude_router.Prelude.{
  Distinct, Distinct-snoc, List, Member, Member-append, Member-append_left, Member-append_right,
  Member-cons, String, [], dict_get, dict_keys, dict_set, dict_set-Distinct, here, inl, inr, refl,
  some, subst, sym, there, ℕ, ◌++◌, ◌∷◌, ◌≡◌, ◌⊎◌,
}
use claude_router.Leases.Requests.{Assignment}
use claude_router.Leases.{AccountCandidate}
use claude_router.Leases.Store.{Store, ReservationRow}
use claude_router.Leases.Cohorts.{Held, hold_each, insert_each, insert_reservation, assignment_of}
use claude_router.Leases.Cohorts.Holding.{
  ids, AreOwned, Has, set_entry-Has, dict_set-Has, set-cases, Owns,
}

pub hold_each_lem :
    (rows : List ReservationRow) (held : Held) (a : String) (r : ReservationRow)
    → dict_get a (hold_each rows held) ≡ some r
    → (Member r rows × (r.agent_id ≡ a)) ⊎ (dict_get a held ≡ some r)
unfolding hold_each
hold_each_lem [] held a r h = inr h
hold_each_lem (q ∷ rows) held a r h = elim (hold_each_lem rows (dict_set q.agent_id q held) a r h) [
  | inl (m, p) ↦ inl (there m, p)
  | inr g ↦ elim (set-cases q.agent_id a q r held g) [
    | inl (p, e) ↦ inl (rw (← e) here, rw (← e) p)
    | inr (differs, k) ↦ inr k
  ]
]

pub hold_each-Distinct :
    (rows : List ReservationRow) (held : Held)
    → Distinct (dict_keys held)
    → Distinct (dict_keys (hold_each rows held))
unfolding hold_each
hold_each-Distinct [] held d = d
hold_each-Distinct (r ∷ rows) held d =
    hold_each-Distinct rows (dict_set r.agent_id r held) (dict_set-Distinct r.agent_id r held d)

ids-append :
    (rows : List ReservationRow) (r : ReservationRow)
    → ids (rows ++ r ∷ []) ≡ ids rows ++ r.reservation_id ∷ []
ids-append [] r = refl
ids-append (q ∷ rows) r = rw (ids-append rows r) refl

-- What the loop over the selection leaves.
pub record Inserted (task_id : String) (expires_at : ℕ)
    (selected : List (String × AccountCandidate)) (old : Held) (s : Store) (held : Held)
    : Type 0 where
  pub own : AreOwned task_id s held
  pub keys : Distinct (dict_keys held)
  pub identified : Distinct (ids s.reservations)
  pub keeps : (a : String) → Has a old → Has a held
  pub covers : (a : String) → Member a (dict_keys selected) → Has a held

module _ (fresh : String → String) (task_id : String) (requested : List Assignment)
    (now expires_at : ℕ) (apart : (a b : String) → fresh a ≡ fresh b → a ≡ b) where
  pub insert_each_lem :
      (selected : List (String × AccountCandidate)) (s : Store) (held : Held)
      → Distinct (dict_keys selected)
      → ((a : String) → Member a (dict_keys selected) → ¬ Member (fresh a) (ids s.reservations))
      → Distinct (ids s.reservations)
      → Distinct (dict_keys held)
      → AreOwned task_id s held
      → let (t, rows) = insert_each fresh task_id requested now expires_at selected s held in
        Inserted task_id expires_at selected held t rows
  unfolding insert_each insert_reservation
  insert_each_lem [] s held once new d keys own = record {
    own = own;
    keys = keys;
    identified = d;
    keeps = λ a h. h;
    covers = λ a m. elim m [ ];
  }
  insert_each_lem ((a, c) ∷ rest) s held (absent, once) new d keys own =
      let (t, row) =
        insert_reservation (fresh a) task_id a c (assignment_of a requested) now expires_at s in
      let k =
        insert_each_lem rest t (dict_set a row held) once
          (λ b m l.
            elim (Member-append (ids s.reservations)
              (subst (Member (fresh b)) (ids-append s.reservations row) l)) [
                | inl l' ↦ new b (there m) l'
                | inr l' ↦ elim (Member-cons l') [
                  | inl p ↦ absent (subst (λ x. Member x (dict_keys rest)) (apart b a p) m)
                  | inr z ↦ elim z [ ]
                ]
              ])
          (subst Distinct (sym (ids-append s.reservations row))
            (Distinct-snoc (ids s.reservations) (fresh a) d (new a here)))
          (dict_set-Distinct a row held keys)
          (λ b q h. elim (set-cases a b row q held h) [
            | inl (p, e) ↦
                subst (λ y. Owns task_id y t q) p
                  (subst (Owns task_id a t) e (record {
                    row = Member-append_right s.reservations here;
                    owned = refl;
                    task = refl;
                    agent = refl;
                  }))
            | inr (differs, g) ↦
                let o = own b q g in
                record {
                  row = Member-append_left (row ∷ []) o.row;
                  owned = o.owned;
                  task = o.task;
                  agent = o.agent;
                }
          ]) in
      record {
        own = k.own;
        keys = k.keys;
        identified = k.identified;
        keeps = λ b h. k.keeps b (dict_set-Has a b row held h);
        covers = λ b m. elim (Member-cons m) [
          | inl p ↦ k.keeps b (rw p (set_entry-Has a row held))
          | inr n ↦ k.covers b n
        ];
      }
