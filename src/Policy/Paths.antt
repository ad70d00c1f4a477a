-- ===== src/Policy/Paths.antt =====
-- `_normalize_resource` and `_in_scope`, with what they use of `str` and of `PurePosixPath`.
pub mod Joining
pub mod Normal
pub mod Containment
pub mod Stray
use claude_router.Prelude.{
  Bool, List, Option, Result, String, [], any, codes, err, false, if◌then◌else◌, is_space, map,
  nat_beq, none, not, ok, select, some, starts_with, true, ℕ, ◌&&◌, ◌++◌, ◌>>=◌, ◌||◌, ◌∷◌,
}
use claude_router.Policy.{Error, index_error}

abbrev pub Text : Type 0
Text = List ℕ

abbrev pub slash : ℕ
slash = 0x2F

abbrev pub is_empty : Text → Bool
is_empty [] = true
is_empty (c ∷ s) = false

unfoldable pub lstrip : (ℕ → Bool) → Text → Text
lstrip p [] = []
lstrip p (c ∷ s) = let rest = lstrip p s in if p c then rest else c ∷ s

unfoldable pub rstrip : (ℕ → Bool) → Text → Text
rstrip p [] = []
rstrip p (c ∷ s) = let rest = rstrip p s in if p c && is_empty rest then [] else c ∷ rest

-- `.strip().replace("\\", "/")`
unfoldable pub cleaned : Text → Text
unfolding is_space lstrip rstrip
cleaned s = map (λ c. if nat_beq c 0x5C then slash else c) (rstrip is_space (lstrip is_space s))

abbrev pub push : ℕ → List Text → List Text
push c [] = (c ∷ []) ∷ []
push c (p ∷ ps) = (c ∷ p) ∷ ps

-- `s.split("/")`
unfoldable pub split : Text → List Text
split [] = [] ∷ []
split (c ∷ s) = let rest = split s in if nat_beq c slash then [] ∷ rest else push c rest

-- `"/".join(parts)`
unfoldable pub join : List Text → Text
join [] = []
join (p ∷ []) = p
join (p ∷ ps) = p ++ slash ∷ join ps

abbrev pub is_dot : Text → Bool
is_dot (c ∷ []) = nat_beq c 0x2E
is_dot _ = false

abbrev pub is_dot_dot : Text → Bool
is_dot_dot (c ∷ d ∷ []) = nat_beq c 0x2E && nat_beq d 0x2E
is_dot_dot _ = false

-- `PurePosixPath(s).parts` of a relative path
unfoldable pub parts : Text → List Text
unfolding split select
parts s = select (λ p. not (is_empty p || is_dot p)) (split s)

abbrev pub is_absolute : Text → Bool
is_absolute [] = false
is_absolute (c ∷ s) = nat_beq c slash

-- `":" in path.parts[0] or ".." in path.parts`, and `as_posix`
abbrev pub relative : List Text → Result Error (Option Text)
relative [] = err index_error
relative (p ∷ ps) =
    if any (λ c. nat_beq c 0x3A) p || any is_dot_dot (p ∷ ps)
    then ok none
    else ok (some (join (p ∷ ps)))

-- `_normalize_resource`
unfoldable pub normalize_resource : Text → Result Error (Option Text)
unfolding cleaned parts any join
normalize_resource value =
    let normalized = cleaned value in
    if is_empty normalized || is_absolute normalized then ok none else relative (parts normalized)

abbrev pub text_beq : Text → Text → Bool
text_beq s t = starts_with s t && starts_with t s

-- `s.removesuffix(suffix)`
unfoldable pub remove_suffix : Text → Text → Text
unfolding starts_with
remove_suffix suffix [] = []
remove_suffix suffix (c ∷ s) =
    let rest = remove_suffix suffix s in if text_beq (c ∷ s) suffix then [] else c ∷ rest

-- `normalized == scope or normalized.startswith(scope.rstrip("/") + "/")`
abbrev pub covers : Option Text → Text → Bool
covers none normalized = false
covers (some scope) normalized =
    text_beq normalized scope
    || starts_with normalized (rstrip (λ c. nat_beq c slash) scope ++ slash ∷ [])

-- The loop of `_in_scope`.
unfoldable pub in_some_scope : Text → List String → Result Error Bool
unfolding normalize_resource remove_suffix starts_with rstrip
in_some_scope normalized [] = ok false
in_some_scope normalized (raw_scope ∷ scopes) =
    let rest = in_some_scope normalized scopes in
    normalize_resource (remove_suffix (codes "/**") (codes raw_scope)) >>= λ scope.
    if covers scope normalized then ok true else rest

abbrev pub in_scopes : List String → Option Text → Result Error Bool
in_scopes scopes none = ok false
in_scopes scopes (some normalized) = in_some_scope normalized scopes

-- `_in_scope`
unfoldable pub in_scope : String → List String → Result Error Bool
unfolding normalize_resource in_some_scope
in_scope resource scopes = normalize_resource (codes resource) >>= in_scopes scopes
