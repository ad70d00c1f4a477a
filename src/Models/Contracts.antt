-- ===== src/Models/Contracts.antt =====
-- The contract that a record without one is given.
use Prim.Native.String.append
use claude_router.Prelude.{
  ==_refl, ==→≡, Bool, List, String, [], and-true, any, ap, arith, false, has_repeats, is_blank,
  is_in, none, ok, raise_if, refl, some, true, ℕ, ◌==◌, ◌∙◌, ◌∷◌, ◌≡◌, nat_eq, string_eq, option_eq,
}
use claude_router.Models.Checks.{
  require_text, for_each, clean_tuple, or_texts, >>-ok, is_empty, validate_scope, value_error,
  same_texts,
}
use claude_router.Models.{
  WorkItem, work_contract, item_contract, item_fields, contract_id, contract_or_default, work_item,
}

is_blank-contract_id : (s : String) → is_blank (contract_id s) ≡ false
unfolding is_blank
is_blank-contract_id String.[] = ap is_blank (append.nil "-contract")
is_blank-contract_id (String.◌∷◌ c s) =
    ap is_blank (append.cons c s "-contract") ∙ (let rest = is_blank-contract_id s in ground arith)

clean_tuple-single : (s : String) → require_text s ≡ ok tt → clean_tuple (s ∷ []) ≡ ok tt
unfolding clean_tuple for_each has_repeats is_in any
clean_tuple-single s h = rw h refl

clean_tuple-or_texts :
    (xs : List String) (s : String)
    → clean_tuple xs ≡ ok tt
    → require_text s ≡ ok tt
    → clean_tuple (or_texts xs (s ∷ [])) ≡ ok tt
clean_tuple-or_texts [] s h k = clean_tuple-single s k
clean_tuple-or_texts (x ∷ xs) s h k = h

is_empty-or_texts : (xs : List String) (s : String) → is_empty (or_texts xs (s ∷ [])) ≡ false
unfolding is_empty
is_empty-or_texts [] s = refl
is_empty-or_texts (x ∷ xs) s = refl

same_texts_refl : (xs : List String) → same_texts xs xs ≡ true
unfolding same_texts
same_texts_refl [] = refl
same_texts_refl (x ∷ xs) = rw (==_refl x) (same_texts_refl xs)

pub same_texts→≡ : (xs ys : List String) → same_texts xs ys ≡ true → xs ≡ ys
unfolding same_texts
same_texts→≡ [] [] h = refl
same_texts→≡ [] (y ∷ ys) h = cc
same_texts→≡ (x ∷ xs) [] h = cc
same_texts→≡ (x ∷ xs) (y ∷ ys) h =
    let (e, r) = and-true (x == y) (same_texts xs ys) h in
    let p = ==→≡ x y e in let q = same_texts→≡ xs ys r in cc

-- What the field checks of an item establish.
pub record HasValidFields (is_alpha : ℕ → Bool) (i : WorkItem) : Type 0 where
  pub id_given : require_text i.id ≡ ok tt
  pub stream_given : require_text i.workstream_id ≡ ok tt
  pub title_given : require_text i.title ≡ ok tt
  pub goal_given : require_text i.goal ≡ ok tt
  pub criteria_clean : clean_tuple i.acceptance_criteria ≡ ok tt
  pub criteria_given : is_empty i.acceptance_criteria ≡ false
  pub dependencies_clean : clean_tuple i.dependencies ≡ ok tt
  pub no_self_dependency : is_in i.id i.dependencies ≡ false
  pub scopes_clean : clean_tuple i.write_scopes ≡ ok tt
  pub scopes_relative : for_each (validate_scope is_alpha) i.write_scopes ≡ ok tt

pub raise_if-ok : (b : Bool) → raise_if b value_error ≡ ok tt → b ≡ false
raise_if-ok b h = ground arith

pub item_fields-HasValidFields :
    (is_alpha : ℕ → Bool) (i : WorkItem)
    → item_fields is_alpha i ≡ ok tt
    → HasValidFields is_alpha i
unfolding item_fields
item_fields-HasValidFields is_alpha i h =
    let (a, h1) = >>-ok (require_text i.id) _ h in
    let (b, h2) = >>-ok (require_text i.workstream_id) _ h1 in
    let (c, h3) = >>-ok (require_text i.title) _ h2 in
    let (d, h4) = >>-ok (require_text i.goal) _ h3 in
    let (e, h5) = >>-ok (clean_tuple i.acceptance_criteria) _ h4 in
    let (f, h6) = >>-ok (raise_if (is_empty i.acceptance_criteria) value_error) _ h5 in
    let (g, h7) = >>-ok (clean_tuple i.dependencies) _ h6 in
    let (k, h8) = >>-ok (raise_if (is_in i.id i.dependencies) value_error) _ h7 in
    let (l, m) = >>-ok (clean_tuple i.write_scopes) _ h8 in
    record {
      id_given = a;
      stream_given = b;
      title_given = c;
      goal_given = d;
      criteria_clean = e;
      criteria_given = raise_if-ok _ f;
      dependencies_clean = g;
      no_self_dependency = raise_if-ok _ k;
      scopes_clean = l;
      scopes_relative = m;
    }

item_contract-valid :
    (is_alpha : ℕ → Bool) (i : WorkItem)
    → HasValidFields is_alpha i
    → work_contract is_alpha (item_contract i) ≡ ok tt
unfolding work_contract item_contract
item_contract-valid is_alpha i v =
    let named : require_text (contract_id i.id) ≡ ok tt =
      unfold require_text in rw (is_blank-contract_id i.id) refl in
    let nothing : clean_tuple [] ≡ ok tt = unfold clean_tuple for_each has_repeats in refl in
    rw named (
      rw v.dependencies_clean (
        rw (clean_tuple-or_texts i.write_scopes i.goal v.scopes_clean v.goal_given) (
          rw nothing (
            rw v.scopes_clean (
              rw v.criteria_clean (
                rw (clean_tuple-single i.workstream_id v.stream_given) (
                  rw v.criteria_given (
                    rw (is_empty-or_texts i.write_scopes i.goal)
                      (unfold is_empty for_each in v.scopes_relative)))))))))

-- A work item that is given no contract is accepted as soon as its own fields pass their checks: the
-- contract made for it passes all checks of a contract and agrees with the item.
pub default_contract_is_accepted :
    (is_alpha : ℕ → Bool) (i : WorkItem)
    → item_fields is_alpha i ≡ ok tt
    → i.contract ≡ none
    → (work_contract is_alpha (item_contract i) ≡ ok tt)
      × (work_item is_alpha i ≡ ok (record i { contract = some (item_contract i) }))
unfolding work_item contract_or_default
default_contract_is_accepted is_alpha i h none_given =
    let valid = item_contract-valid is_alpha i (item_fields-HasValidFields is_alpha i h) in
    let c : contract_or_default is_alpha i.contract (item_contract i) ≡ ok (item_contract i) =
      ap (λ o. contract_or_default is_alpha o (item_contract i)) none_given ∙ rw valid refl in
    let criteria : same_texts (item_contract i).acceptance_criteria i.acceptance_criteria ≡ true =
      unfold item_contract in same_texts_refl i.acceptance_criteria in
    let scopes : same_texts (item_contract i).write_scopes i.write_scopes ≡ true =
      unfold item_contract in same_texts_refl i.write_scopes in
    let rank : ((item_contract i).priority == i.priority) ≡ true =
      unfold item_contract in ==_refl i.priority in
    (valid, rw h (rw c (rw criteria (rw scopes (rw rank refl)))))
