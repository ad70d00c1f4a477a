-- ===== src/Models/Checks.antt =====
-- The helpers of orchestrator/models.py that check texts, tuples and scopes.
use claude_router.Prelude.{
  Bool, List, Result, String, [], any, codes, err, false, has_repeats, is_blank, ok, raise_if, refl,
  true, ℕ, ◌&&◌, ◌==◌, ◌>>◌, ◌||◌, ◌∷◌, ◌≡◌, nat_eq, string_eq, option_eq,
}
use claude_router.Scheduler.Scopes.{
  PathText, strip, to_slashes, dot_dot, slash, text_eq, starts_with, split_slashes,
}

pub data Error : Type 0 where
  value_error : Error

abbrev pub Checked : Type 0
Checked = Result Error (Unit {0})

-- `_require_text`
unfoldable pub require_text : String → Checked
unfolding is_blank
require_text s = raise_if (is_blank s) value_error

unfoldable pub for_each {ℓ} : {A : Type ℓ} → (A → Checked) → List A → Checked
for_each check [] = ok tt
for_each check (x ∷ xs) = do check x; for_each check xs

-- `_clean_tuple`, of a tuple
unfoldable pub clean_tuple : List String → Checked
unfolding for_each require_text has_repeats
clean_tuple values = do for_each require_text values; raise_if (has_repeats values) value_error

unfoldable pub is_empty {ℓ} : {A : Type ℓ} → List A → Bool
is_empty [] = true
is_empty (x ∷ xs) = false

unfoldable pub has_drive_prefix : (ℕ → Bool) → PathText → Bool
has_drive_prefix is_alpha (c ∷ d ∷ s) = is_alpha c && d == b':'
has_drive_prefix is_alpha _ = false

-- `_validate_scope`
unfoldable pub validate_scope : (ℕ → Bool) → String → Checked
unfolding require_text has_drive_prefix starts_with split_slashes text_eq any
validate_scope is_alpha scope = do
  require_text scope
  let normalized = to_slashes (strip (codes scope))
  raise_if
      (starts_with normalized (slash ∷ [])
        || has_drive_prefix is_alpha normalized
        || text_eq normalized (b'~' ∷ [])
        || starts_with normalized (b'~' ∷ b'/' ∷ [])
        || any (text_eq dot_dot) (split_slashes normalized))
      value_error

unfoldable pub same_texts : List String → List String → Bool
same_texts [] [] = true
same_texts (x ∷ xs) (y ∷ ys) = x == y && same_texts xs ys
same_texts _ _ = false

abbrev pub or_texts : List String → List String → List String
or_texts [] ys = ys
or_texts (x ∷ xs) ys = x ∷ xs

-- The parts of a check that passed.
pub >>-ok : (r k : Checked) → (r >> k) ≡ ok tt → (r ≡ ok tt) × (k ≡ ok tt)
>>-ok (err e) k h = cc
>>-ok (ok u) k h = (refl, h)
