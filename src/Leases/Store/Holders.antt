-- ===== src/Leases/Store/Holders.antt =====
-- The accounts that are held, and the statements that keep them distinct.
use claude_router.Prelude.{
  Bool, Distinct, Distinct-append, List, Option-cases, String, Sublist, Sublist-Distinct,
  Sublist-append, Sublist-refl, Sublist-update, arith, false, find, find-Member, inl, inr,
  live-append, refl, true, update_where, ℕ, ◌≡◌,
}
use claude_router.Leases.{AccountCandidate, candidate_key, has_key, has_key-absent}
use claude_router.Leases.Store.{
  lease_row, Store, LeaseRow, ReservationRow, AccountLease, is_open, is_owned, lease_key,
  reservation_key, expired_lease, expired_reservation, set_lease_expired, set_reservation_expired,
  expire_owned, occupied_accounts, is_free, grant, new_lease, insert_lease,
}

-- The held accounts are distinct.
abbrev pub Exclusive : Store → Type 0
Exclusive s = Distinct (occupied_accounts s)

-- A statement on leases that opens none and changes no open one's account.
abbrev pub ClosesLeases : (LeaseRow → Bool) → (LeaseRow → LeaseRow) → Type 0
ClosesLeases p f =
    (r : LeaseRow)
    → p r ≡ true
    → is_open (f r).released_at ≡ true
    → (is_open r.released_at ≡ true) × (lease_key (f r) ≡ lease_key r)

abbrev pub ClosesReservations : (ReservationRow → Bool) → (ReservationRow → ReservationRow) → Type 0
ClosesReservations p f =
    (r : ReservationRow)
    → p r ≡ true
    → is_owned (f r).state ≡ true
    → (is_owned r.state ≡ true) × (reservation_key (f r) ≡ reservation_key r)

update-Exclusive :
    (p : LeaseRow → Bool) (f : LeaseRow → LeaseRow) (q : ReservationRow → Bool)
    (g : ReservationRow → ReservationRow) (s : Store)
    → ClosesLeases p f
    → ClosesReservations q g
    → Exclusive s
    → Exclusive (record s {
      leases = update_where p f s.leases;
      reservations = update_where q g s.reservations;
    })
unfolding occupied_accounts
update-Exclusive p f q g s h k e =
    Sublist-Distinct
      (Sublist-append
        (Sublist-update lease_key (λ (r : LeaseRow). is_open r.released_at) p f s.leases h)
        (Sublist-update reservation_key (λ (r : ReservationRow). is_owned r.state) q g
          s.reservations k))
      e

pub reservations-Sublist :
    (q : ReservationRow → Bool) (g : ReservationRow → ReservationRow) (s : Store)
    → ClosesReservations q g
    → Sublist
        (occupied_accounts (record s { reservations = update_where q g s.reservations }))
        (occupied_accounts s)
unfolding occupied_accounts
reservations-Sublist q g s k =
    Sublist-append (Sublist-refl _) (
      Sublist-update reservation_key (λ (r : ReservationRow). is_owned r.state) q g s.reservations
        k)

pub reservations-Exclusive :
    (q : ReservationRow → Bool) (g : ReservationRow → ReservationRow) (s : Store)
    → ClosesReservations q g
    → Exclusive s
    → Exclusive (record s { reservations = update_where q g s.reservations })
reservations-Exclusive q g s k e = Sublist-Distinct (reservations-Sublist q g s k) e

pub leases-Exclusive :
    (p : LeaseRow → Bool) (f : LeaseRow → LeaseRow) (s : Store)
    → ClosesLeases p f
    → Exclusive s
    → Exclusive (record s { leases = update_where p f s.leases })
unfolding occupied_accounts
leases-Exclusive p f s h e =
    Sublist-Distinct
      (Sublist-append
        (Sublist-update lease_key (λ (r : LeaseRow). is_open r.released_at) p f s.leases h)
        (Sublist-refl _))
      e

pub expire_owned-Exclusive : (now : ℕ) (s : Store) → Exclusive s → Exclusive (expire_owned now s)
unfolding expire_owned
expire_owned-Exclusive now s e =
    update-Exclusive (expired_lease now) (set_lease_expired now) (expired_reservation now)
      (set_reservation_expired now) s (λ r p o. cc) (λ r p o. cc) e

insert-Exclusive :
    (l : AccountLease) (s : Store)
    → has_key (l.provider, l.account_id) (occupied_accounts s) ≡ false
    → Exclusive s
    → Exclusive (insert_lease l s)
unfolding occupied_accounts
insert-Exclusive l s free e =
    rw (live-append lease_key (λ (r : LeaseRow). is_open r.released_at) s.leases (lease_row l) refl)
      (Distinct-append _ _ (l.provider, l.account_id) e (has_key-absent _ _ free))

pub grant-Exclusive :
    (lease_id owner_id : String) (now ttl : ℕ) (excluded : List String) (s : Store)
    (ranked : List AccountCandidate)
    → Exclusive s
    → Exclusive
        (grant lease_id owner_id now ttl s (find (is_free excluded (occupied_accounts s)) ranked)).0
grant-Exclusive lease_id owner_id now ttl excluded s ranked e =
    elim (Option-cases (find (is_free excluded (occupied_accounts s)) ranked)) [
      | inl n ↦ rw n e
      | inr (c, h) ↦
          let (m, t) = find-Member (is_free excluded (occupied_accounts s)) ranked h in
          let free : has_key (candidate_key c) (occupied_accounts s) ≡ false = ground arith in
          rw h (insert-Exclusive (new_lease lease_id c owner_id now ttl) s free e)
    ]
