-- ===== src/Prelude/Text.antt =====
-- The text operations of Python that the program uses, over code points.
use Prim.Native.Nat.{ℕ}
use Prim.Native.Char.{code}
use Prim.Native.String.{String, compare}
use mathlib.Core.Bool.{Bool, true, false, ◌&&◌, ◌||◌}
use mathlib.Core.List.{List, [], ◌∷◌}
use text.Mathlib.Text.{is_lt}
use claude_router.Prelude.Tests.{leb, nat_beq}

-- `str.isspace` of one character
unfoldable pub is_space : ℕ → Bool
is_space c =
    (leb 9 c && leb c 13)
    || (leb 28 c && leb c 32)
    || nat_beq c 0x85
    || nat_beq c 0xA0
    || nat_beq c 0x1680
    || (leb 0x2000 c && leb c 0x200A)
    || (leb 0x2028 c && leb c 0x2029)
    || nat_beq c 0x202F
    || nat_beq c 0x205F
    || nat_beq c 0x3000

-- `not s.strip()`
unfoldable pub is_blank : String → Bool
unfolding is_space
is_blank String.[] = true
is_blank (String.◌∷◌ c s) = is_space (code c) && is_blank s

-- `s < t`, by code points
unfoldable pub str_ltb : String → String → Bool
str_ltb s t = is_lt (compare s t)

-- The code points of a text.
abbrev pub codes : String → List ℕ
codes String.[] = []
codes (String.◌∷◌ c s) = code c ∷ codes s

-- Of code points: whether the first text starts with the second
unfoldable pub starts_with : List ℕ → List ℕ → Bool
starts_with s [] = true
starts_with [] (c ∷ token) = false
starts_with (d ∷ s) (c ∷ token) = nat_beq d c && starts_with s token

unfoldable pub has_codes : List ℕ → List ℕ → Bool
unfolding starts_with
has_codes token [] = starts_with [] token
has_codes token (d ∷ s) = starts_with (d ∷ s) token || has_codes token s

-- `token in s`
abbrev pub contains : String → String → Bool
contains token s = has_codes (codes token) (codes s)

-- `s + t`
unfoldable pub append : String → String → String
append String.[] t = t
append (String.◌∷◌ c s) t = String.◌∷◌ c (append s t)
