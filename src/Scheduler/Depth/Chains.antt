-- ===== src/Scheduler/Depth/Chains.antt =====
-- The fuel of `depth` is enough on an acyclic graph, where a chain holds each id at most once.
use claude_router.Prelude.{
  ==_refl, ==→≡, All, All-map, Bool-cases, List, Member, Member-append, Member-append_left,
  Member-append_right, Member-cons, Member→is_in, String, [], any, ap, arith, false, has_repeats,
  here, inl, inr, is_in, length, max, pigeonhole, refl, subst, suc, there, true, zero, ℕ, ◌+◌, ◌<◌,
  ◌==◌, ◌∙◌, ◌∷◌, ◌≡◌, ◌≤◌, nat_eq, string_eq, option_eq,
}
use claude_router.Scheduler.Dag.{Node, ids}
use claude_router.Scheduler.Dag.Acyclic.{IsAcyclic, Member-ids, length-ids}
use claude_router.Scheduler.Depth.{mentions, max_over, depth, critical_path_depth, dependents}

max_over_cong :
    (f g : String → ℕ) (cs : List String)
    → ((c : String) → Member c cs → f c ≡ g c)
    → max_over f cs ≡ max_over g cs
unfolding max_over
max_over_cong f g [] h = refl
max_over_cong f g (c ∷ cs) h =
    rw (h c here) (ap (max (g c)) (max_over_cong f g cs (λ x m. h x (there m))))

max_over-le : (f : String → ℕ) (cs : List String) {c : String} → Member c cs → f c ≤ max_over f cs
unfolding max_over
max_over-le f [] m = elim m [ ]
max_over-le f (c ∷ cs) here = omega arith
max_over-le f (d ∷ cs) (there m) = omega (arith, max_over-le f cs m)

-- `r` puts every name on the path below the name that is visited.
absent_below :
    (r : String → ℕ) (s : String) (path : List String)
    → All (λ z. r z < r s) path
    → is_in s path ≡ false
unfolding is_in any
absent_below r s [] h = refl
absent_below r s (z ∷ zs) (lt, h) = elim (Bool-cases (z == s)) [
  | inl e ↦ let p = ap r (==→≡ z s e) in absurd (omega (arith, p, lt))
  | inr e ↦ rw e (absent_below r s zs h)
]

module _ (children : String → List String) (names : List String) (r : String → ℕ)
    (rises : (s c : String) → Member c (children s) → (is_in c names ≡ true) × (r s < r c)) where
  depth-stable :
      (fuel : ℕ) (path : List String) (s : String)
      → length names ≤ fuel + length path
      → has_repeats path ≡ false
      → All (λ z. is_in z names ≡ true) path
      → All (λ z. r z < r s) path
      → is_in s names ≡ true
      → depth children fuel s ≡ depth children (suc fuel) s
  unfolding depth
  depth-stable zero path s enough once inside below known =
      let once' : has_repeats (s ∷ path) ≡ false =
        unfold has_repeats in rw (absent_below r s path below) once in
      absurd (omega (arith, pigeonhole (s ∷ path) names once' (known, inside), enough))
  depth-stable (suc fuel) path s enough once inside below known =
      let once' : has_repeats (s ∷ path) ≡ false =
        unfold has_repeats in rw (absent_below r s path below) once in
      ap suc (
        max_over_cong (depth children fuel) (depth children (suc fuel)) (children s) λ c m.
          depth-stable fuel (s ∷ path) c (omega (arith, enough)) once' (known, inside)
            (
              (rises s c m).1,
              All-map (λ z. r z < r s) (λ z. r z < r c) path
                  (λ z lt. omega (arith, lt, (rises s c m).1)) below,
            )
            (rises s c m).0)

  depth_lem :
      (s : String)
      → is_in s names ≡ true
      → depth children (length names) s
        ≡ suc (max_over (depth children (length names)) (children s))
  depth_lem s known =
      depth-stable (length names) [] s (omega arith) (unfold has_repeats in refl) tt tt known
      ∙ unfold depth in refl

mentions-Member :
    (id from c : String) (ds : List String)
    → Member c (mentions id from ds)
    → (c ≡ from) × Member id ds
unfolding mentions
mentions-Member id from c [] m = elim m [ ]
mentions-Member id from c (d ∷ ds) m = elim (Bool-cases (d == id)) [
  | inl e ↦ elim (Member-cons (rw e at m)) [
    | inl p ↦ (p, rw (==→≡ d id e) here)
    | inr k ↦ let (p, l) = mentions-Member id from c ds k in (p, there l)
  ]
  | inr e ↦ let (p, l) = mentions-Member id from c ds (rw e at m) in (p, there l)
]

Member-mentions :
    (id from : String) (ds : List String) → Member id ds → Member from (mentions id from ds)
unfolding mentions
Member-mentions id from [] m = elim m [ ]
Member-mentions id from (d ∷ ds) here = rw (==_refl d) here
Member-mentions id from (d ∷ ds) (there m) = elim (Bool-cases (d == id)) [
  | inl e ↦ rw e (there (Member-mentions id from ds m))
  | inr e ↦ rw e (Member-mentions id from ds m)
]

dependents-Member :
    (nodes : List Node) (s c : String)
    → Member c (dependents nodes s)
    → (n : Node) × Member n nodes × (c ≡ n.id) × Member s n.dependencies
unfolding dependents
dependents-Member [] s c m = elim m [ ]
dependents-Member (n ∷ ns) s c m = elim (Member-append (mentions s n.id n.dependencies) m) [
  | inl k ↦ let (p, l) = mentions-Member s n.id c n.dependencies k in (n, here, p, l)
  | inr k ↦ let (o, l, p, q) = dependents-Member ns s c k in (o, there l, p, q)
]

Member-dependents :
    (nodes : List Node) (n : Node) (d : String)
    → Member n nodes
    → Member d n.dependencies
    → Member n.id (dependents nodes d)
unfolding dependents
Member-dependents [] n d m k = elim m [ ]
Member-dependents (x ∷ xs) n d here k =
    Member-append_left (dependents xs d) (Member-mentions d n.id n.dependencies k)
Member-dependents (x ∷ xs) n d (there m) k =
    Member-append_right (mentions d x.id x.dependencies) (Member-dependents xs n d m k)

rises_of :
    (nodes : List Node) (a : IsAcyclic nodes) (s c : String)
    → Member c (dependents nodes s)
    → (is_in c (ids nodes) ≡ true) × (a.0 s < a.0 c)
rises_of nodes (r, falls) s c m =
    let (n, k, p, l) = dependents-Member nodes s c m in
    (rw p (Member→is_in (Member-ids n nodes k)), rw p ((falls n k s l).1))

-- On an acyclic graph the depth of a node is one more than the greatest depth of the nodes that
-- depend on it, so a prerequisite always ranks above what waits for it; the fuel is enough.
pub critical_path_depth_lem :
    (nodes : List Node)
    → IsAcyclic nodes
    → ((s : String)
        → is_in s (ids nodes) ≡ true
        → critical_path_depth nodes s
          ≡ suc (max_over (critical_path_depth nodes) (dependents nodes s)))
      × ((n : Node)
          → Member n nodes
          → (d : String) → Member d n.dependencies
          → critical_path_depth nodes n.id < critical_path_depth nodes d)
unfolding critical_path_depth
critical_path_depth_lem nodes (r, falls) =
    let equation = λ (s : String) (known : is_in s (ids nodes) ≡ true).
      subst
        (λ k.
          depth (dependents nodes) k s
          ≡ suc (max_over (depth (dependents nodes) k) (dependents nodes s)))
        (length-ids nodes)
        (depth_lem (dependents nodes) (ids nodes) r (rises_of nodes (r, falls)) s known) in
    (
      equation,
      λ n m d k.
          let e = equation d ((falls n m d k).0) in
          let l =
            max_over-le (depth (dependents nodes) (length nodes)) (dependents nodes d)
              (Member-dependents nodes n d m k) in
          omega (arith, e, l),
    )
