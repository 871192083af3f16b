-- ===== src/Packs/Text.antt =====
-- Python's str methods that the readers of pack.yaml use, on lists of code points.
use Prim.Native.Char.{code}
use stoker.Prelude.{
  ℕ, suc, ◌+◌, Bool, true, false, ◌&&◌, ◌||◌, Option, none, some, List, [], ◌∷◌, ◌++◌, String, leb,
  ◌==◌, if◌then◌else◌,
}

abbrev pub Text : Type 0
Text = List ℕ

abbrev pub codes : String → Text
codes String.[] = []
codes (String.◌∷◌ c s) = code c ∷ codes s

abbrev within : ℕ → ℕ → ℕ → Bool
within lo hi c = leb lo c && leb c hi

-- str.isspace, which is also the class \s of re.
unfoldable pub is_white : ℕ → Bool
is_white c =
    within 9 13 c
    || within 28 32 c
    || c == 133
    || c == 160
    || c == 5760
    || within 8192 8202 c
    || c == 8232
    || c == 8233
    || c == 8239
    || c == 8287
    || c == 12288

-- Where str.splitlines breaks.
unfoldable pub is_break : ℕ → Bool
is_break c = within 10 13 c || within 28 30 c || c == 133 || c == 8232 || c == 8233

unfoldable pub equal : Text → Text → Bool
equal [] [] = true
equal (x ∷ xs) (y ∷ ys) = x == y && equal xs ys
equal _ _ = false

abbrev pub is_empty : Text → Bool
is_empty [] = true
is_empty (c ∷ cs) = false

unfoldable pub lstrip : Text → Text
unfolding is_white
lstrip [] = []
lstrip (c ∷ cs) = let rest = lstrip cs in if is_white c then rest else c ∷ cs

unfoldable pub rstrip : Text → Text
unfolding is_white
rstrip [] = []
rstrip (c ∷ cs) = let rest = rstrip cs in if is_white c && is_empty rest then [] else c ∷ rest

unfoldable pub strip : Text → Text
unfolding lstrip rstrip
strip s = lstrip (rstrip s)

-- len(s) - len(s.lstrip(" "))
unfoldable pub leading_spaces : Text → ℕ
leading_spaces [] = 0
leading_spaces (c ∷ cs) = if c == 32 then suc (leading_spaces cs) else 0

unfoldable pub startswith : Text → Text → Bool
startswith [] s = true
startswith (p ∷ ps) [] = false
startswith (p ∷ ps) (c ∷ cs) = p == c && startswith ps cs

-- s.partition(sep), none where s has no sep.
unfoldable pub partition : ℕ → Text → Option (Text × Text)
partition sep [] = none
partition sep (c ∷ cs) =
    let rest = partition sep cs in
    if c == sep
    then some ([], cs)
    else elim rest [ none ↦ none | some (before, after) ↦ some (c ∷ before, after) ]

-- What stands before the last character, and that character.
unfoldable pub init_last : Text → Option (Text × ℕ)
init_last [] = none
init_last (c ∷ cs) = elim (init_last cs) [
  | none ↦ some ([], c)
  | some (before, last) ↦ some (c ∷ before, last)
]

abbrev pub prefix_first : ℕ → List Text → List Text
prefix_first c [] = (c ∷ []) ∷ []
prefix_first c (l ∷ ls) = (c ∷ l) ∷ ls

-- The flag says that a carriage return stands before.
unfoldable pub lines_after : Bool → Text → List Text
unfolding is_break
lines_after cr [] = []
lines_after cr (c ∷ cs) =
    let rest = lines_after (c == 13) cs in
    if cr && c == 10 then rest else if is_break c then [] ∷ rest else prefix_first c rest

unfoldable pub splitlines : Text → List Text
unfolding lines_after
splitlines s = lines_after false s

-- "\n".join(lines)
unfoldable pub join_lines : List Text → Text
join_lines [] = []
join_lines (l ∷ []) = l
join_lines (l ∷ m ∷ ls) = l ++ (10 ∷ join_lines (m ∷ ls))

unfoldable pub lower : ℕ → ℕ
lower c = if leb 65 c && leb c 90 then c + 32 else c
