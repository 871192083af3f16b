-- ===== src/Packs/Examples.antt =====
-- A pack.yaml, before and after a rename.
use stoker.Prelude.{ℕ, ◌≡◌, refl, Option, none, some, [], ◌∷◌, if◌then◌else◌}
use stoker.Packs.Text.{Text, codes, equal, splitlines, is_break}
use stoker.Packs.Yaml.{
  text, numeral, scalar, section, insert, read_scalar, lookup, read_line, parse_pack_yaml,
  worker_parse_pack_yaml,
}
use stoker.Packs.Yaml.Agreement.{worker_parse-eq-parse}
use stoker.Packs.Rename.{clean_name, clean, refused, control_characters, rewritten, is_name_line}
use stoker.Packs.Rename.ReadsBack.{name_key, parse-rewritten_name}
use stoker.Packs.Rename.OtherKeys.{parse-rewritten_other}

-- int or float, on the one number of the file.
seven : Text → Option ℕ
unfolding equal
seven s = if equal s (codes "7") then some 7 else none

abbrev file : Text
file = codes "# demo\nname: old # one\nengine: eventgen\nestimates:\n  bytes_per_event: 7\n"

abbrev new_name : Text
new_name = codes "a # \"b\": c"

file_parsed :
    parse_pack_yaml seven file
    ≡ (name_key, scalar (text (codes "old")))
      ∷ (codes "engine", scalar (text (codes "eventgen")))
      ∷ (codes "estimates", section ((codes "bytes_per_event", numeral 7) ∷ []))
      ∷ []
unfolding parse_pack_yaml seven lookup insert read_scalar
file_parsed = refl

file-rewritten :
    rewritten new_name file
    ≡ codes "# demo\nname: 'a # \"b\": c'\nengine: eventgen\nestimates:\n  bytes_per_event: 7\n"
unfolding rewritten
file-rewritten = refl

name_inserted :
    rewritten (codes "n") (codes "# c\nengine: x") ≡ codes "# c\nname: \"n\"\nengine: x\n"
unfolding rewritten
name_inserted = refl

tab_refused : clean_name (codes "a\tb") ≡ refused control_characters
unfolding clean_name
tab_refused = refl

worker_parse-eq-parse_example :
    worker_parse_pack_yaml seven file ≡ some (parse_pack_yaml seven file)
worker_parse-eq-parse_example = worker_parse-eq-parse seven file

new_name_clean : clean_name (codes "  a # \"b\": c ") ≡ clean new_name
unfolding clean_name
new_name_clean = refl

parse-rewritten_name_example :
    lookup name_key (parse_pack_yaml seven (rewritten new_name file))
    ≡ some (scalar (text new_name))
unfolding splitlines is_break is_name_line read_line equal
parse-rewritten_name_example =
    parse-rewritten_name seven new_name file (codes "  a # \"b\": c ") new_name_clean refl
      (refl, (refl, (refl, tt)))

parse-rewritten_other_example :
    lookup (codes "engine") (parse_pack_yaml seven (rewritten new_name file))
    ≡ lookup (codes "engine") (parse_pack_yaml seven file)
unfolding is_break equal
parse-rewritten_other_example =
    parse-rewritten_other seven (codes "  a # \"b\": c ") new_name file (codes "engine")
      new_name_clean refl refl

-- A line break that clean_name lets pass ends the name.
paragraph_separator :
    lookup name_key (parse_pack_yaml seven (rewritten (97 ∷ 8233 ∷ 98 ∷ []) file))
    ≡ some (scalar (text (34 ∷ 97 ∷ [])))
unfolding parse_pack_yaml rewritten seven lookup insert read_scalar
paragraph_separator = refl
