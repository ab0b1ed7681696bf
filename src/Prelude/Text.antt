-- ===== src/Prelude/Text.antt =====
-- Python's `str` operations on names: `strip` and the order of code points.
use Prim.Native.Nat.{ℕ, ◌+◌}
use Prim.Native.Char.{code}
use Prim.Native.String.{String, compare, ◌++◌}
use mathlib.Core.Bool.{Bool, true, false, not, ◌&&◌, ◌||◌}
use mathlib.Core.List.{List, [], ◌∷◌, reverse}
use text.Mathlib.Text.{is_le}
use ryuk.Prelude.Tests.{leb, eqb, if◌then◌else◌}

-- `s + t`
abbrev pub append_text : String → String → String
append_text s t = s ++ t

abbrev pub codes : String → List ℕ
codes String.[] = []
codes (String.◌∷◌ c s) = code c ∷ codes s

-- `str.isspace` of one code point.
is_space : ℕ → Bool
is_space c =
    (leb 9 c && leb c 13)
    || (leb 0x1c c && leb c 0x20)
    || eqb c 0x85
    || eqb c 0xa0
    || eqb c 0x1680
    || (leb 0x2000 c && leb c 0x200a)
    || eqb c 0x2028
    || eqb c 0x2029
    || eqb c 0x202f
    || eqb c 0x205f
    || eqb c 0x3000

strip_left : List ℕ → List ℕ
unfolding is_space
strip_left [] = []
strip_left (c ∷ cs) = if is_space c then strip_left cs else c ∷ cs

unfoldable pub strip : List ℕ → List ℕ
unfolding strip_left
strip cs = reverse (strip_left (reverse (strip_left cs)))

unfoldable pub same_codes : List ℕ → List ℕ → Bool
same_codes [] [] = true
same_codes (c ∷ cs) (d ∷ ds) = eqb c d && same_codes cs ds
same_codes _ _ = false

-- `value and value == value.strip()`
unfoldable pub is_identifier : String → Bool
unfolding strip same_codes
is_identifier s = not (same_codes (codes s) []) && same_codes (codes s) (strip (codes s))

-- `tuple(sorted(names)) == names`: each name is at most the next.
unfoldable pub is_sorted : List String → Bool
is_sorted [] = true
is_sorted (x ∷ []) = true
is_sorted (x ∷ y ∷ ys) = is_le (compare x y) && is_sorted (y ∷ ys)

-- `str.lower` of one code point, for the ASCII letters.
lower_code : ℕ → ℕ
lower_code c = if leb 65 c && leb c 90 then c + 32 else c

-- `str.lower` of an ASCII text.
unfoldable pub lower : List ℕ → List ℕ
unfolding lower_code
lower [] = []
lower (c ∷ cs) = lower_code c ∷ lower cs

-- `s.lower() == t.lower()`
unfoldable pub same_lower : String → String → Bool
unfolding lower same_codes
same_lower s t = same_codes (lower (codes s)) (lower (codes t))
