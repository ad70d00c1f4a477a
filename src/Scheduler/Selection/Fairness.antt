-- ===== src/Scheduler/Selection/Fairness.antt =====
-- The wait ages of ready nodes, and the selection by them.
use claude_router.Prelude.{
  ==→≡, All, Bool-cases, List, Member, String, [], any, ap, arith, dict_get, dict_get-set, dict_set,
  false, has_repeats, has_repeats-cons, if◌then◌else◌, inl, inr, is_in, is_in-unfold, length, none,
  refl, select, some, sym, true, ℕ, ◌+◌, ◌==◌, ◌∙◌, ◌∷◌, ◌≡◌, ◌≤◌, ◌⊎◌, nat_eq, string_eq,
  option_eq,
}
use claude_router.Models.{Workstream}
use claude_router.Scheduler.Selection.{stream_ids, update_wait_age, Ages, age_of, grow_ages}

age_of-set :
    (ages : Ages) (k j : String) (n : ℕ)
    → age_of (dict_set k n ages) j ≡ (if k == j then n else age_of ages j)
unfolding age_of
age_of-set ages k j n =
    ap (λ o. elim o as (λ _. ℕ) [ none ↦ 0 | some m ↦ m ]) (dict_get-set k j n ages)
    ∙ (elim (Bool-cases (k == j)) [ inl e ↦ rw e refl | inr e ↦ rw e refl ])

grow_ages_lem :
    (ages : Ages) (ready selected : List String) (id : String)
    → has_repeats ready ≡ false
    → age_of (grow_ages ages ready selected) id ≡ (
        if is_in id ready
        then (if is_in id selected then 0 else age_of ages id + 1)
        else age_of ages id)
unfolding grow_ages
grow_ages_lem ages [] selected id once = unfold is_in any in refl
grow_ages_lem ages (k ∷ rest) selected id once =
    let (absent, once') = has_repeats-cons k rest once in
    let n = if is_in k selected then 0 else age_of ages k + 1 in
    let later = grow_ages_lem (dict_set k n ages) rest selected id once' in
    let here_set = age_of-set ages k id n in
    let member = is_in-unfold id k rest in
    elim (Bool-cases (k == id)) [
      | inl e ↦
          let p = ==→≡ k id e in
          let out : is_in id rest ≡ false = ap (λ z. is_in z rest) (sym p) ∙ absent in
          let chosen : is_in k selected ≡ is_in id selected = ap (λ z. is_in z selected) p in
          let age : age_of ages k ≡ age_of ages id = ap (age_of ages) p in ground arith
      | inr e ↦ ground arith
    ]

select_ages :
    (ages : Ages) (ready_ids : List String) (id : String)
    → is_in id ready_ids ≡ true
    → dict_get id (select (λ entry. is_in entry.0 ready_ids) ages) ≡ dict_get id ages
unfolding dict_get select
select_ages [] ready_ids id m = refl
select_ages ((k, n) ∷ rest) ready_ids id m = elim (Bool-cases (k == id)) [
  | inl e ↦
      let here_in : is_in k ready_ids ≡ true = ap (λ z. is_in z ready_ids) (==→≡ k id e) ∙ m in
      rw here_in (rw e refl)
  | inr e ↦ elim (Bool-cases (is_in k ready_ids)) [
    | inl f ↦ rw f (rw e (select_ages rest ready_ids id m))
    | inr f ↦ rw f (rw e (select_ages rest ready_ids id m))
  ]
]

-- Where no ready id is repeated, a ready node that is selected has age 0 after the round, and a ready
-- node that is passed over is one round older.
update_wait_age_lem :
    (ages : Ages) (ready_ids selected : List String) (id : String)
    → has_repeats ready_ids ≡ false
    → is_in id ready_ids ≡ true
    → age_of (update_wait_age ages ready_ids selected) id
      ≡ (if is_in id selected then 0 else age_of ages id + 1)
unfolding update_wait_age age_of
update_wait_age_lem ages ready_ids selected id once m =
    let grown =
      grow_ages_lem (select (λ entry. is_in entry.0 ready_ids) ages) ready_ids selected id once in
    let kept_age =
      ap (λ o. elim o as (λ _. ℕ) [ none ↦ 0 | some n ↦ n ]) (select_ages ages ready_ids id m) in
    ground arith

-- `w` waits no longer than `v`.
abbrev NotOlder : Ages → Workstream → Workstream → Type 0
NotOlder ages v w = age_of ages w.id ≤ age_of ages v.id

-- Among the ready workstreams `waiting`, `round.0` are taken: ready ones only, at most `slots`, none that
-- waited less than one that is left out; and `round.1` are the new ages.
abbrev pub IsFair : List Workstream → ℕ → Ages → List Workstream × Ages → Type 0
IsFair waiting slots ages round =
    (length round.0 ≤ slots)
    × ((v : Workstream) → Member v round.0 → Member v waiting)
    × ((w : Workstream)
        → Member w waiting
        → Member w round.0 ⊎ All (λ v. age_of ages w.id ≤ age_of ages v.id) round.0)
    × (round.1 ≡ update_wait_age ages (stream_ids waiting) (stream_ids round.0))
