-- ===== src/Packs/Rename.antt =====
-- server/packrename.py: clean_name and rewrite_pack_yaml. A file is the text that is read from it, after
-- the newline translation of open; none is a pack without pack.yaml.
pub mod NameLine
pub mod Lines
pub mod Placing
pub mod ReadsBack
pub mod OldLine
mod Alike
pub mod OtherKeys
use stoker.Prelude.{
  ℕ, zero, suc, Bool, true, false, ◌&&◌, ◌||◌, Option, none, some, List, [], ◌∷◌, ◌++◌, length, ltb,
  ◌==◌, if◌then◌else◌, any, or_else,
}
use mathlib.Core.Option
use stoker.Packs.Text.{Text, codes, is_empty, lstrip, strip, startswith, splitlines, join_lines}

pub data Refusal : Type 0 where
  empty too_long control_characters both_quotes : Refusal

pub data Checked : Type 0 where
  clean : Text → Checked
  refused : Refusal → Checked

-- _CONTROL_RE
abbrev pub is_control : ℕ → Bool
is_control c = ltb c 32 || c == 127

abbrev pub contains : ℕ → Text → Bool
contains c s = any (λ d. d == c) s

-- The checks of clean_name on the trimmed name.
unfoldable pub check_name : Text → Checked
check_name name =
    if is_empty name
    then refused empty
    else if ltb 255 (length name)
    then refused too_long
    else if any is_control name
    then refused control_characters
    else if contains 34 name && contains 39 name
    then refused both_quotes
    else clean name

unfoldable pub clean_name : Text → Checked
unfolding strip check_name
clean_name raw = check_name (strip raw)

abbrev pub quote_for : Text → ℕ
quote_for name = if contains 34 name then 39 else 34

-- _yaml_value
abbrev pub yaml_value : Text → Text
yaml_value name = quote_for name ∷ (name ++ (quote_for name ∷ []))

abbrev pub name_line : Text → Text
name_line name = codes "name: " ++ yaml_value name

-- _NAME_LINE_RE.match
unfoldable pub is_name_line : Text → Bool
unfolding lstrip startswith
is_name_line (a ∷ b ∷ c ∷ d ∷ rest) =
    startswith (codes "name") (a ∷ b ∷ c ∷ d ∷ []) && startswith (codes ":") (lstrip rest)
is_name_line _ = false

-- The first line that names the pack is replaced; none where there is no such line.
unfoldable pub replace_first : Text → List Text → Option (List Text)
unfolding is_name_line
replace_first line [] = none
replace_first line (l ∷ ls) =
    let rest = replace_first line ls in
    if is_name_line l then some (line ∷ ls) else elim rest [ none ↦ none | some ms ↦ some (l ∷ ms) ]

abbrev pub is_comment : Text → Bool
is_comment l = startswith (codes "#") (lstrip l)

unfoldable pub insert_after_comments : Text → List Text → List Text
unfolding startswith lstrip
insert_after_comments line [] = line ∷ []
insert_after_comments line (l ∷ ls) =
    let rest = insert_after_comments line ls in if is_comment l then l ∷ rest else line ∷ l ∷ ls

unfoldable pub set_name_line : Text → List Text → List Text
unfolding replace_first insert_after_comments
set_name_line line lines = or_else (replace_first line lines) (insert_after_comments line lines)

-- The text that _write_atomic gets.
unfoldable pub rewritten : Text → Text → Text
unfolding splitlines join_lines set_name_line
rewritten name file = join_lines (set_name_line (name_line name) (splitlines file)) ++ (10 ∷ [])

-- Whether there is a pack.yaml, and its text afterwards.
unfoldable pub rewrite_pack_yaml : Text → Option Text → Bool × Option Text
unfolding rewritten
rewrite_pack_yaml name none = (false, none)
rewrite_pack_yaml name (some file) = (true, some (rewritten name file))
