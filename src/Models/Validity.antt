-- ===== src/Models/Validity.antt =====
-- What an accepted record satisfies.
use claude_router.Prelude.{
  ==→≡, >>=-eq-ok, Bool, arith, false, not, ok, raise_if, some, true, ℕ, ◌==◌, ◌≡◌, nat_eq,
  string_eq, option_eq,
}
use claude_router.Models.Checks.{value_error, same_texts}
use claude_router.Models.{
  WorkContract, WorkItem, item_contract, item_fields, contract_or_default, work_item,
}
use claude_router.Models.Sound.{IsSound, HasValidFields-IsSound}
use claude_router.Models.Contracts.{item_fields-HasValidFields, same_texts→≡, raise_if-ok}

-- The contract that an item carries says the same as the item.
pub record Agrees (i : WorkItem) (c : WorkContract) : Type 0 where
  pub same_criteria : c.acceptance_criteria ≡ i.acceptance_criteria
  pub same_scopes : c.write_scopes ≡ i.write_scopes
  pub same_priority : c.priority ≡ i.priority

not-true : (b : Bool) → not b ≡ false → b ≡ true
not-true b h = ground arith

-- An item that was accepted is the item that was given with a contract that agrees with it, and its
-- fields are sound: the texts are not blank; criteria, dependencies and write scopes have no blanks
-- and no repeats; there is a criterion; the item does not depend on itself; and every write scope
-- stays below the project: it starts at no root, drive or home directory and has no component "..".
pub accepted_item-Agrees :
    (is_alpha : ℕ → Bool) (i j : WorkItem)
    → work_item is_alpha i ≡ ok j
    → IsSound is_alpha i × ((c : WorkContract) × (j ≡ record i { contract = some c }) × Agrees i c)
unfolding work_item
accepted_item-Agrees is_alpha i j h =
    let (u, fields, h1) = >>=-eq-ok (item_fields is_alpha i) _ h in
    let (c, made, h2) =
      >>=-eq-ok (contract_or_default is_alpha i.contract (item_contract i)) _ h1 in
    let (u1, a, h3) =
      >>=-eq-ok
        (raise_if (not (same_texts c.acceptance_criteria i.acceptance_criteria)) value_error) _
        h2 in
    let (u2, b, h4) =
      >>=-eq-ok (raise_if (not (same_texts c.write_scopes i.write_scopes)) value_error) _ h3 in
    let (u3, d, h5) = >>=-eq-ok (raise_if (not (c.priority == i.priority)) value_error) _ h4 in
    (
      HasValidFields-IsSound is_alpha i (item_fields-HasValidFields is_alpha i fields),
      (
        c,
        cc,
        record {
          same_criteria = same_texts→≡ _ _ (not-true _ (raise_if-ok _ a));
          same_scopes = same_texts→≡ _ _ (not-true _ (raise_if-ok _ b));
          same_priority = ==→≡ _ _ (not-true _ (raise_if-ok _ d));
        },
      ),
    )
