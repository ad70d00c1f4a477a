-- ===== src/Models/Samples.antt =====
-- A small item: tests and witnesses.
use claude_router.Prelude.{
  Bool, [], err, has_repeats, is_blank, is_in, leb, none, ok, refl, some, ℕ, ◌&&◌, ◌||◌, ◌∷◌, ◌≡◌,
}
use claude_router.Scheduler.Scopes.{strip_by}
use claude_router.Models.Checks.{
  require_text, clean_tuple, for_each, validate_scope, is_empty, has_drive_prefix, value_error,
}
use claude_router.Models.{
  WorkContract, WorkItem, pending, work_contract, item_contract, item_fields, work_item,
}
use claude_router.Models.Sound.{IsSound}
use claude_router.Models.Contracts.{default_contract_is_accepted}
use claude_router.Models.Validity.{Agrees, accepted_item-Agrees}

abbrev ascii_letter : ℕ → Bool
ascii_letter c = (leb b'a' c && leb c b'z') || (leb b'A' c && leb c b'Z')

abbrev docs_item : WorkItem
docs_item = record {
  id = "w1";
  workstream_id = "s1";
  title = "Docs";
  goal = "Write";
  acceptance_criteria = "done" ∷ [];
  dependencies = [];
  write_scopes = "docs/x" ∷ [];
  status = pending;
  priority = 2;
  contract = none;
}

docs_item-item_fields : item_fields ascii_letter docs_item ≡ ok tt
unfolding item_fields require_text clean_tuple for_each validate_scope is_empty is_in has_repeats
    has_drive_prefix is_blank strip_by
docs_item-item_fields = refl

docs_item_is_accepted :
    (work_contract ascii_letter (item_contract docs_item) ≡ ok tt)
    × (work_item ascii_letter docs_item
        ≡ ok (record docs_item { contract = some (item_contract docs_item) }))
docs_item_is_accepted =
    default_contract_is_accepted ascii_letter docs_item docs_item-item_fields refl

accepted_item-Agrees_example :
    IsSound ascii_letter docs_item
    × ((c : WorkContract) × (record docs_item { contract = some (item_contract docs_item) }
          ≡ record docs_item { contract = some c })
        × Agrees docs_item c)
accepted_item-Agrees_example =
    accepted_item-Agrees ascii_letter docs_item
      (record docs_item { contract = some (item_contract docs_item) }) docs_item_is_accepted.1

-- A scope that leaves the project is refused.
escaping_scope : validate_scope ascii_letter "docs/../../etc" ≡ err value_error
unfolding validate_scope require_text has_drive_prefix is_blank strip_by
escaping_scope = refl
