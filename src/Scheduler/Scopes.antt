-- ===== src/Scheduler/Scopes.antt =====
-- `canonical_scope` and `scopes_conflict` of orchestrator/scheduler.py. A text is the list of its
-- code points. `fold` is the last line of `canonical_scope`: `str.casefold` where `os.name` is "nt",
-- and the identity elsewhere. `posixpath.normpath` and the `str` methods are written out.
pub mod Symmetry
use mathlib.Core.List.{reverse}
use claude_router.Prelude.{
  Bool, List, [], any, false, if◌then◌else◌, is_space, map, not, true, ℕ, ◌&&◌, ◌++◌, ◌==◌, ◌||◌,
  ◌∷◌, nat_eq, string_eq, option_eq,
}

abbrev pub PathText : Type 0
PathText = List ℕ

abbrev pub slash : ℕ
slash = b'/'

abbrev pub dot : PathText
dot = b'.' ∷ []

abbrev pub dot_dot : PathText
dot_dot = b'.' ∷ b'.' ∷ []

unfoldable pub text_eq : PathText → PathText → Bool
text_eq [] [] = true
text_eq (a ∷ s) (b ∷ t) = a == b && text_eq s t
text_eq _ _ = false

-- `s.startswith(prefix)`
unfoldable pub starts_with : PathText → PathText → Bool
starts_with s [] = true
starts_with [] (p ∷ ps) = false
starts_with (c ∷ cs) (p ∷ ps) = c == p && starts_with cs ps

unfoldable pub ends_with : PathText → PathText → Bool
unfolding starts_with
ends_with s suffix = starts_with (reverse s) (reverse suffix)

unfoldable pub drop_while : (ℕ → Bool) → PathText → PathText
drop_while p [] = []
drop_while p (c ∷ cs) = let rest = drop_while p cs in if p c then rest else c ∷ cs

-- Strips the characters that pass the test at both ends.
unfoldable pub strip_by : (ℕ → Bool) → PathText → PathText
unfolding drop_while
strip_by p s = reverse (drop_while p (reverse (drop_while p s)))

-- `s.strip()`
abbrev pub strip : PathText → PathText
strip = strip_by is_space

-- `s.strip("/")`
abbrev strip_slashes : PathText → PathText
strip_slashes = strip_by (λ c. c == slash)

-- `s.replace("\\", "/")`
abbrev pub to_slashes : PathText → PathText
to_slashes = map (λ c. if c == 0x5C then slash else c)

-- `s.rsplit("/", 1)[0]` of a text that has a slash
unfoldable pub before_last_slash : PathText → PathText
unfolding drop_while
before_last_slash s = reverse (drop_first (drop_while (λ c. not (c == slash)) (reverse s)))
  where
    drop_first : PathText → PathText
    drop_first [] = []
    drop_first (c ∷ cs) = cs

abbrev push_char : ℕ → List PathText → List PathText
push_char c [] = (c ∷ []) ∷ []
push_char c (part ∷ parts) = (c ∷ part) ∷ parts

-- `s.split("/")`
unfoldable pub split_slashes : PathText → List PathText
split_slashes [] = [] ∷ []
split_slashes (c ∷ cs) =
    let parts = split_slashes cs in if c == slash then [] ∷ parts else push_char c parts

-- `"/".join(parts)`
unfoldable pub join_slashes : List PathText → PathText
join_slashes [] = []
join_slashes (p ∷ []) = p
join_slashes (p ∷ q ∷ ps) = p ++ slash ∷ join_slashes (q ∷ ps)

abbrev pub is_nil {ℓ} : {A : Type ℓ} → List A → Bool
is_nil [] = true
is_nil (x ∷ xs) = false

-- is `..` the component on top of the stack?
abbrev climbs : List PathText → Bool
climbs [] = false
climbs (c ∷ cs) = text_eq c dot_dot

abbrev pop_part : List PathText → List PathText
pop_part [] = []
pop_part (c ∷ cs) = cs

-- The component loop of `posixpath.normpath`; `stack` is `new_comps`, last component first.
unfoldable pub norm_parts : Bool → List PathText → List PathText → List PathText
unfolding text_eq
norm_parts rooted stack [] = stack
norm_parts rooted stack (c ∷ cs) =
    norm_parts rooted
      (if is_nil c || text_eq c dot
        then stack
        else if not (text_eq c dot_dot) || (not rooted && is_nil stack) || climbs stack
        then c ∷ stack
        else pop_part stack)
      cs

abbrev or_dot : PathText → PathText
or_dot [] = dot
or_dot (c ∷ cs) = c ∷ cs

-- `posixpath.normpath(s).strip("/")`: the slashes that normpath puts back in front are stripped.
unfoldable pub normpath_stripped : PathText → PathText
unfolding norm_parts split_slashes join_slashes strip_by starts_with
normpath_stripped s =
    strip_slashes (
      or_dot
        (join_slashes (reverse (norm_parts (starts_with s (slash ∷ [])) [] (split_slashes s)))))

unfoldable pub without_wildcard : PathText → PathText
unfolding ends_with before_last_slash
without_wildcard s =
    if ends_with s (b'/' ∷ b'*' ∷ b'*' ∷ []) || ends_with s (b'/' ∷ b'*' ∷ [])
    then before_last_slash s
    else s

unfoldable pub canonical_scope : (PathText → PathText) → PathText → PathText
unfolding normpath_stripped without_wildcard strip_by is_space text_eq
canonical_scope fold scope =
    let value = to_slashes (strip scope) in
    if is_nil value || text_eq value dot
    then dot
    else fold (or_dot (normpath_stripped (without_wildcard value)))

-- `[canonical_scope(v) for v in values] or ["."]`
unfoldable pub canonical_scopes : (PathText → PathText) → List PathText → List PathText
canonical_scopes fold [] = dot ∷ []
canonical_scopes fold (v ∷ vs) = map (canonical_scope fold) (v ∷ vs)

-- The body of the two loops: do these two canonical scopes overlap?
unfoldable pub overlaps : PathText → PathText → Bool
overlaps first second =
    text_eq first dot
    || text_eq second dot
    || text_eq first second
    || starts_with first (second ++ slash ∷ [])
    || starts_with second (first ++ slash ∷ [])

unfoldable pub scopes_conflict : (PathText → PathText) → List PathText → List PathText → Bool
scopes_conflict fold left right =
    any (λ first. any (overlaps first) (canonical_scopes fold right)) (canonical_scopes fold left)
