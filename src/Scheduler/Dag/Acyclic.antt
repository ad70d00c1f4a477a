-- ===== src/Scheduler/Dag/Acyclic.antt =====
-- The search accepts exactly the acyclic graphs.
use claude_router.Prelude.{
  ==_refl, >>=-eq-ok, All-Member, Bool, Bool-cases, List, Member, Member→is_in, String, [], any,
  any-false-Member, any-false_of_Member, ap, arith, err, false, has_repeats, here, inl, inr, is_in,
  is_in-cases, length, not, ok, or-false, raise_if, refl, subst, suc, there, true, ℕ, ≡→==, ◌<◌,
  ◌↔◌, ◌∷◌, ◌≡◌, ◌≢◌, nat_eq, string_eq, option_eq,
}
use claude_router.Scheduler.Dag.{
  Node, cycle, out_of_fuel, unknown_dependency, ids, deps_of, has_unknown, visit_each, visit,
  validate_dag,
}
use claude_router.Scheduler.Dag.Ends.{
  Ends, visit_each-Ends, visit-Ends, visit_each_no_cycle, visit_no_cycle,
}
use claude_router.Scheduler.Dag.Search.{rank, Ordered-below, visit_each-Sound, visit-Sound}

-- The graph has no cycle: a numbering falls along every dependency, and each one is known.
abbrev pub IsAcyclic : List Node → Type 0
IsAcyclic nodes =
    (r : String → ℕ) × ((n : Node)
      → Member n nodes
      → (d : String) → Member d n.dependencies
      → (is_in d (ids nodes) ≡ true) × (r d < r n.id))

pub Member-ids : (n : Node) (nodes : List Node) → Member n nodes → Member n.id (ids nodes)
Member-ids n [] k = elim k [ ]
Member-ids n (m ∷ ms) here = here
Member-ids n (m ∷ ms) (there k) = there (Member-ids n ms k)

deps_of-node :
    (nodes : List Node) (s : String)
    → is_in s (ids nodes) ≡ true
    → (n : Node) × Member n nodes × (n.id ≡ s) × (deps_of nodes s ≡ n.dependencies)
unfolding deps_of
deps_of-node [] s h = absurd (unfold is_in any in cc)
deps_of-node (m ∷ ms) s h = elim (is_in-cases s m.id (ids ms) h) [
  | inl inside ↦ let (n, k, e, d) = deps_of-node ms s inside in (n, there k, e, rw inside d)
  | inr (outside, e) ↦ (m, here, e, rw outside (rw (≡→== m.id s e) refl))
]

deps_of_unique :
    (nodes : List Node) (n : Node)
    → has_repeats (ids nodes) ≡ false
    → Member n nodes
    → deps_of nodes n.id ≡ n.dependencies
unfolding deps_of has_repeats
deps_of_unique [] n once k = elim k [ ]
deps_of_unique (m ∷ ms) n once here =
    rw ((or-false (is_in m.id (ids ms)) (has_repeats (ids ms)) once).0) (rw (==_refl m.id) refl)
deps_of_unique (m ∷ ms) n once (there k) =
    rw (Member→is_in (Member-ids n ms k))
      (deps_of_unique ms n (or-false (is_in m.id (ids ms)) (has_repeats (ids ms)) once).1 k)

has_unknown-false :
    (nodes : List Node)
    → has_unknown nodes ≡ false
    → (n : Node) → Member n nodes
    → (d : String) → Member d n.dependencies
    → is_in d (ids nodes) ≡ true
unfolding has_unknown
has_unknown-false nodes h n m d k =
    let here_false =
      any-false-Member (λ (x : Node). any (λ e. not (is_in e (ids nodes))) x.dependencies) m h in
    let known = any-false-Member (λ e. not (is_in e (ids nodes))) k here_false in ground arith

has_unknown_none :
    (nodes : List Node)
    → ((n : Node)
        → Member n nodes
        → (d : String) → Member d n.dependencies
        → is_in d (ids nodes) ≡ true)
    → has_unknown nodes ≡ false
unfolding has_unknown
has_unknown_none nodes f =
    any-false_of_Member _ nodes
      λ n m. any-false_of_Member _ n.dependencies λ d k. ap not (f n m d k)

raise_if-false : (b : Bool) {u : Unit {0}} → raise_if b unknown_dependency ≡ ok u → b ≡ false
raise_if-false b h = ground arith

pub length-ids : (nodes : List Node) → length (ids nodes) ≡ length nodes
length-ids [] = refl
length-ids (n ∷ ns) = ap suc (length-ids ns)

validate_dag_sound :
    (nodes : List Node) (later : List String)
    → has_repeats (ids nodes) ≡ false
    → validate_dag nodes ≡ ok later
    → IsAcyclic nodes
unfolding validate_dag
validate_dag_sound nodes later once h =
    let (u, checked, run) = >>=-eq-ok (raise_if (has_unknown nodes) unknown_dependency) _ h in
    let known = has_unknown-false nodes (raise_if-false (has_unknown nodes) checked) in
    let search = visit (deps_of nodes) (suc (length nodes)) [] in
    let (ordered, visited, grows) =
      visit_each-Sound (deps_of nodes) search (visit-Sound (deps_of nodes) (suc (length nodes)) [])
        (ids nodes) [] later run tt in
    (
      rank later,
      λ n m d k. (
        known n m d k,
        (Ordered-below (deps_of nodes) later n.id d ordered
            (All-Member (λ s. is_in s later ≡ true) visited (Member-ids n nodes m))
            (rw (deps_of_unique nodes n once m) k)).1,
      ),
    )

deps_fall :
    (nodes : List Node) (r : String → ℕ)
    → ((n : Node)
        → Member n nodes
        → (d : String) → Member d n.dependencies
        → (is_in d (ids nodes) ≡ true) × (r d < r n.id))
    → (s d : String) → is_in s (ids nodes) ≡ true
    → Member d (deps_of nodes s)
    → (is_in d (ids nodes) ≡ true) × (r d < r s)
deps_fall nodes r falls s d known m =
    let (n, k, e, same_deps) = deps_of-node nodes s known in
    subst (λ z. (is_in d (ids nodes) ≡ true) × (r d < r z)) e (falls n k d (rw same_deps at m))

-- With all dependencies known the search comes to an answer: the fuel is enough.
search-Ends :
    (nodes : List Node)
    → ((n : Node)
        → Member n nodes
        → (d : String) → Member d n.dependencies
        → is_in d (ids nodes) ≡ true)
    → Ends (visit_each (visit (deps_of nodes) (suc (length nodes)) []) (ids nodes) [])
search-Ends nodes known =
    visit_each-Ends (visit (deps_of nodes) (suc (length nodes)) []) (ids nodes) [] λ s m seen.
      visit-Ends (deps_of nodes) (ids nodes)
        (λ x d k l.
          let (n, a, e, same_deps) = deps_of-node nodes x k in known n a d (rw same_deps at l))
        (suc (length nodes)) [] s seen (omega (arith, length-ids nodes))
        (unfold has_repeats in refl) tt (Member→is_in m)

validate_dag_complete :
    (nodes : List Node) → IsAcyclic nodes → (later : List String) × (validate_dag nodes ≡ ok later)
unfolding validate_dag
validate_dag_complete nodes (r, falls) =
    let search = visit (deps_of nodes) (suc (length nodes)) [] in
    let known = has_unknown_none nodes (λ n m d k. (falls n m d k).0) in
    rw known (elim (search-Ends nodes (λ n m d k. (falls n m d k).0)) [
      | inl done ↦ done
      | inr stuck ↦ absurd (
          visit_each_no_cycle search (ids nodes) []
            (λ s m seen.
              visit_no_cycle (deps_of nodes) (ids nodes) r (deps_fall nodes r falls)
                (suc (length nodes)) [] s seen tt (Member→is_in m))
            stuck)
    ])

validate_dag-ends : (nodes : List Node) → validate_dag nodes ≢ err out_of_fuel
unfolding validate_dag
validate_dag-ends nodes h = elim (Bool-cases (has_unknown nodes)) [
  | inl u ↦ let bad : err unknown_dependency ≡ err out_of_fuel = rw u at h in cc
  | inr u ↦ elim (search-Ends nodes (has_unknown-false nodes u)) [
    | inl (later, e) ↦ let bad : ok later ≡ err out_of_fuel = rw e at (rw u at h) in cc
    | inr e ↦ let bad : err cycle ≡ err out_of_fuel = rw e at (rw u at h) in cc
  ]
]

-- On nodes with distinct ids `_validate_dag` accepts exactly the acyclic graphs whose dependencies
-- are all known, and it always comes to an answer.
pub validate_dag_lem :
    (nodes : List Node)
    → has_repeats (ids nodes) ≡ false
    → (((later : List String) × (validate_dag nodes ≡ ok later)) ↔ IsAcyclic nodes)
      × (validate_dag nodes ≢ err out_of_fuel)
validate_dag_lem nodes once = (
  (λ (later, h). validate_dag_sound nodes later once h, validate_dag_complete nodes),
  validate_dag-ends nodes,
)
