-- ===== src/Models/Sound.antt =====
-- What the fields of an item or a stream mean once their checks have passed.
use claude_router.Prelude.{
  All, Bool, Distinct, List, Member, Member→is_in, String, [], any, any-true_of_Member, ap, arith,
  codes, false, has_repeats, has_repeats-Distinct, is_blank, ok, refl, sym, true, ℕ, ◌||◌, ◌∙◌, ◌∷◌,
  ◌≡◌, ◌≢◌,
}
use mathlib.Core.Bool.{false≢true}
use claude_router.Scheduler.Scopes.{
  PathText, strip, to_slashes, dot_dot, slash, text_eq, starts_with, split_slashes,
}
use claude_router.Scheduler.Scopes.Symmetry.{text_eq_refl}
use claude_router.Models.Checks.{
  Checked, require_text, for_each, clean_tuple, >>-ok, is_empty, validate_scope, has_drive_prefix,
}
use claude_router.Models.{WorkItem}
use claude_router.Models.Contracts.{HasValidFields, raise_if-ok}

-- The scope as it is read: without the spaces around it, and with slashes for backslashes.
abbrev pub path_text : String → PathText
path_text scope = to_slashes (strip (codes scope))

-- No text of the list is blank, and none occurs twice.
pub record AreClean (xs : List String) : Type 0 where
  pub given : All (λ x. is_blank x ≡ false) xs
  pub distinct : Distinct xs

-- A scope, read with slashes, is a text that stays below the project: it does not start at a root, a drive
-- or a home directory, and has no component "..".
pub record StaysInside (is_alpha : ℕ → Bool) (scope : String) : Type 0 where
  pub given : is_blank scope ≡ false
  pub not_rooted : (s : PathText) → path_text scope ≢ slash ∷ s
  pub no_drive : (c : ℕ) (s : PathText) → path_text scope ≡ c ∷ b':' ∷ s → is_alpha c ≡ false
  pub not_home : path_text scope ≢ b'~' ∷ []
  pub not_below_home : (s : PathText) → path_text scope ≢ b'~' ∷ b'/' ∷ s
  pub no_escape : ¬ Member dot_dot (split_slashes (path_text scope))

-- The fields of an item make sense: every text is given, the lists have no blanks and no repeats, there is a
-- criterion, the item does not wait for itself, and every scope stays below the project.
pub record IsSound (is_alpha : ℕ → Bool) (i : WorkItem) : Type 0 where
  pub id : is_blank i.id ≡ false
  pub workstream_id : is_blank i.workstream_id ≡ false
  pub title : is_blank i.title ≡ false
  pub goal : is_blank i.goal ≡ false
  pub criteria : AreClean i.acceptance_criteria
  pub some_criterion : i.acceptance_criteria ≢ []
  pub dependencies : AreClean i.dependencies
  pub no_self_dependency : ¬ Member i.id i.dependencies
  pub write_scopes : AreClean i.write_scopes
  pub inside : All (StaysInside is_alpha) i.write_scopes

require_text-given : (s : String) → require_text s ≡ ok tt → is_blank s ≡ false
unfolding require_text
require_text-given s h = raise_if-ok (is_blank s) h

for_each-All :
    (check : String → Checked) (P : String → Type 0) (xs : List String)
    → ((x : String) → check x ≡ ok tt → P x)
    → for_each check xs ≡ ok tt
    → All P xs
unfolding for_each
for_each-All check P [] f h = tt
for_each-All check P (x ∷ xs) f h =
    let (a, b) = >>-ok (check x) _ h in (f x a, for_each-All check P xs f b)

clean_tuple-AreClean : (xs : List String) → clean_tuple xs ≡ ok tt → AreClean xs
unfolding clean_tuple
clean_tuple-AreClean xs h =
    let (a, b) = >>-ok (for_each require_text xs) _ h in
    record {
      given = for_each-All require_text (λ x. is_blank x ≡ false) xs require_text-given a;
      distinct = has_repeats-Distinct xs (raise_if-ok (has_repeats xs) b);
    }

starts_with-slash : (s : PathText) → starts_with (slash ∷ s) (slash ∷ []) ≡ true
unfolding starts_with
starts_with-slash s = refl

starts_with-home : (s : PathText) → starts_with (b'~' ∷ b'/' ∷ s) (b'~' ∷ b'/' ∷ []) ≡ true
unfolding starts_with
starts_with-home s = refl

drive_prefix :
    (is_alpha : ℕ → Bool) (c : ℕ) (s : PathText)
    → has_drive_prefix is_alpha (c ∷ b':' ∷ s) ≡ false
    → is_alpha c ≡ false
unfolding has_drive_prefix
drive_prefix is_alpha c s h = ground arith

module _ (is_alpha : ℕ → Bool) (n : PathText) where
  refuses : Bool
  refuses =
      starts_with n (slash ∷ [])
      || has_drive_prefix is_alpha n
      || text_eq n (b'~' ∷ [])
      || starts_with n (b'~' ∷ b'/' ∷ [])
      || any (text_eq dot_dot) (split_slashes n)

  -- A test that passed has none of its causes.
  record Passed : Type 0 where
    root : starts_with n (slash ∷ []) ≡ false
    drive : has_drive_prefix is_alpha n ≡ false
    home : text_eq n (b'~' ∷ []) ≡ false
    below_home : starts_with n (b'~' ∷ b'/' ∷ []) ≡ false
    escape : any (text_eq dot_dot) (split_slashes n) ≡ false

  refuses-Passed : refuses ≡ false → Passed
  unfolding refuses
  refuses-Passed h = record {
    root = ground arith;
    drive = ground arith;
    home = ground arith;
    below_home = ground arith;
    escape = ground arith;
  }

validate_scope-StaysInside :
    (is_alpha : ℕ → Bool) (scope : String)
    → validate_scope is_alpha scope ≡ ok tt
    → StaysInside is_alpha scope
unfolding validate_scope refuses
validate_scope-StaysInside is_alpha scope h =
    let (a, b) = >>-ok (require_text scope) _ h in
    let n = path_text scope in
    let p : Passed is_alpha n = refuses-Passed is_alpha n (raise_if-ok _ b) in
    record {
      given = require_text-given scope a;
      not_rooted = λ s e.
          false≢true (sym p.root ∙ ap (λ t. starts_with t (slash ∷ [])) e ∙ starts_with-slash s);
      no_drive =
          λ c s e. drive_prefix is_alpha c s (ap (has_drive_prefix is_alpha) (sym e) ∙ p.drive);
      not_home = λ e.
          false≢true (sym p.home ∙ ap (λ t. text_eq t (b'~' ∷ [])) e ∙ text_eq_refl (b'~' ∷ []));
      not_below_home = λ s e.
          false≢true
            (sym p.below_home ∙ ap (λ t. starts_with t (b'~' ∷ b'/' ∷ [])) e ∙ starts_with-home s);
      no_escape = λ m.
          false≢true (sym p.escape ∙ any-true_of_Member (text_eq dot_dot) m (text_eq_refl dot_dot));
    }

full : (xs : List String) → is_empty xs ≡ false → xs ≢ []
unfolding is_empty
full xs h e = false≢true (sym h ∙ ap is_empty e)

-- The checks of the fields mean that the item is sound.
pub HasValidFields-IsSound :
    (is_alpha : ℕ → Bool) (i : WorkItem) → HasValidFields is_alpha i → IsSound is_alpha i
HasValidFields-IsSound is_alpha i v = record {
  id = require_text-given i.id v.id_given;
  workstream_id = require_text-given i.workstream_id v.stream_given;
  title = require_text-given i.title v.title_given;
  goal = require_text-given i.goal v.goal_given;
  criteria = clean_tuple-AreClean i.acceptance_criteria v.criteria_clean;
  some_criterion = full i.acceptance_criteria v.criteria_given;
  dependencies = clean_tuple-AreClean i.dependencies v.dependencies_clean;
  no_self_dependency = λ m. false≢true (sym v.no_self_dependency ∙ Member→is_in m);
  write_scopes = clean_tuple-AreClean i.write_scopes v.scopes_clean;
  inside =
      for_each-All (validate_scope is_alpha) (StaysInside is_alpha) i.write_scopes
        (validate_scope-StaysInside is_alpha) v.scopes_relative;
}
