-- ===== src/Prelude/Runes.antt =====
-- Texts as lists of code points, with the functions of Go's `strings` and `unicode` that are used.
use Prim.Native.Nat.{ℕ}
use mathlib.Core.Bool.{Bool, true, false, ◌&&◌, ◌||◌}
use mathlib.Core.List.{List, [], ◌∷◌, reverse}
use ssh_idlefarmer.Prelude.Tests.{◌==◌, leb}

abbrev pub between : ℕ → ℕ → ℕ → Bool
between lo hi x = leb lo x && leb x hi

-- `unicode.IsSpace`: the code points of Unicode's property White_Space.
unfoldable pub is_space : ℕ → Bool
is_space r =
    between 9 13 r
    || r == 32
    || r == 0x85
    || r == 0xA0
    || r == 0x1680
    || between 0x2000 0x200A r
    || between 0x2028 0x2029 r
    || r == 0x202F
    || r == 0x205F
    || r == 0x3000

unfoldable pub trim_left : List ℕ → List ℕ
trim_left [] = []
trim_left (r ∷ rs) = let rest = trim_left rs in elim (is_space r) [ true ↦ rest | false ↦ r ∷ rs ]

-- `strings.TrimSpace`
unfoldable pub trim_space : List ℕ → List ℕ
unfolding trim_left
trim_space rs = reverse (trim_left (reverse (trim_left rs)))
