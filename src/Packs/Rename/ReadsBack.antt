-- ===== src/Packs/Rename/ReadsBack.antt =====
-- The name that is read from a pack.yaml after rewrite_pack_yaml.
use stoker.Prelude.{
  Bool, false, ◌&&◌, ◌≡◌, refl, ◌∙◌, Option, none, some, List, [], ◌∷◌, ◌++◌, ◌==◌, arith,
  Bool-cases, inl, inr,
}
use stoker.Packs.Text.{Text, codes, equal, is_empty, strip, splitlines}
use stoker.Packs.Yaml.{
  Entry, text, Value, scalar, section, Doc, empty_doc, lookup, read_scalar, top_entry, nested_entry,
  add_entry, read_line, read_lines, parse_pack_yaml, parse_pack_yaml-eq, put_in,
}
use stoker.Packs.Yaml.Dicts.{lookup-insert}
use stoker.Packs.Rename.{
  yaml_value, name_line, set_name_line, rewritten, clean_name, clean, check_name,
}
use stoker.Packs.Rename.NameLine.{IsQuotable, read_line-name_line, read_scalar-yaml_value}
use stoker.Packs.Rename.Placing.{later_lines, set_name_line-cases}
use stoker.Packs.Rename.Lines.{IsOneLine, splitlines-rewritten}

abbrev pub name_key : Text
name_key = codes "name"

abbrev is_name_entry : Option Entry → Bool
is_name_entry none = false
is_name_entry (some e) = e.indent == 0 && equal e.key name_key

-- A line that sets the top-level name.
abbrev pub sets_name : Text → Bool
sets_name l = is_name_entry (read_line l)

abbrev pub AreNameless : List Text → Type 0
AreNameless [] = Unit {0}
AreNameless (l ∷ ls) = (sets_name l ≡ false) × AreNameless ls

module _ {N : Type 0} (number : Text → Option N) where
  abbrev name_of : Doc N → Option (Value N)
  name_of d = lookup name_key d.result

  -- The open section is not called name.
  abbrev IsElsewhere : Option Text → Type 0
  IsElsewhere none = Unit {0}
  IsElsewhere (some s) = equal s name_key ≡ false

  put_in-name :
      (s : Text) (e : Entry) (v : Option (Value N)) (r : List (Text × Value N))
      → equal s name_key ≡ false
      → lookup name_key (put_in number s e v r) ≡ lookup name_key r
  put_in-name s e none r h = refl
  put_in-name s e (some (scalar v)) r h = refl
  put_in-name s e (some (section m)) r h = rw (lookup-insert s name_key _ r, h) refl

  nested_entry-name :
      (e : Entry) (o : Option Text) (d : Doc N)
      → IsElsewhere o
      → d.open_section ≡ o
      → (name_of (nested_entry number e o d) ≡ name_of d)
        × IsElsewhere (nested_entry number e o d).open_section
  unfolding nested_entry
  nested_entry-name e none d h q = (refl, rw q tt)
  nested_entry-name e (some s) d h q = elim (Bool-cases (is_empty e.value)) [
    | inl z ↦ rw z (refl, rw q h)
    | inr z ↦ rw z (put_in-name s e (lookup s d.result) d.result h, rw q h)
  ]

  top_entry-name :
      (e : Entry) (d : Doc N)
      → equal e.key name_key ≡ false
      → (name_of (top_entry number e d) ≡ name_of d)
        × IsElsewhere (top_entry number e d).open_section
  unfolding top_entry
  top_entry-name e d h = elim (Bool-cases (is_empty e.value)) [
    | inl z ↦ rw z (rw (lookup-insert e.key name_key (section []) d.result, h) refl, h)
    | inr z ↦ rw z (
      rw (lookup-insert e.key name_key (scalar (read_scalar number e.value)) d.result, h) refl,
      tt,
    )
  ]

  add_entry-name :
      (e : Option Entry) (d : Doc N)
      → is_name_entry e ≡ false
      → IsElsewhere d.open_section
      → (name_of (add_entry number e d) ≡ name_of d)
        × IsElsewhere (add_entry number e d).open_section
  unfolding add_entry
  add_entry-name none d h o = (refl, o)
  add_entry-name (some e) d h o = elim (Bool-cases (e.indent == 0)) [
    | inl z ↦ rw z (top_entry-name e d (ground arith))
    | inr z ↦ rw z (nested_entry-name e d.open_section d o refl)
  ]

  read_lines-nameless :
      (ls : List Text) (d : Doc N)
      → AreNameless ls
      → IsElsewhere d.open_section
      → name_of (read_lines number ls d) ≡ name_of d
  unfolding read_lines
  read_lines-nameless [] d h o = refl
  read_lines-nameless (l ∷ ls) d h o =
      let step = add_entry-name (read_line l) d h.0 o in
      read_lines-nameless ls (add_entry number (read_line l) d) h.1 step.1 ∙ step.0

  abbrev IsNamed : Text → Doc N → Type 0
  IsNamed name d = name_of d ≡ some (scalar (text name))

  module _ (name : Text) (quotable : IsQuotable name) where
    add_entry-name_line :
        (d : Doc N)
        → IsNamed name (add_entry number (read_line (name_line name)) d)
          × IsElsewhere (add_entry number (read_line (name_line name)) d).open_section
    unfolding add_entry top_entry equal
    add_entry-name_line d = rw (read_line-name_line name quotable) (
      rw
          (
            lookup-insert name_key name_key (scalar (read_scalar number (yaml_value name)))
                d.result,
            read_scalar-yaml_value number name,
          )
          refl,
      tt,
    )

    read_lines-IsNamed :
        (ls : List Text) (d : Doc N)
        → AreNameless ls
        → IsNamed name (read_lines number (name_line name ∷ ls) d)
    unfolding read_lines
    read_lines-IsNamed ls d h =
        let step = add_entry-name_line d in
        read_lines-nameless ls (add_entry number (read_line (name_line name)) d) h step.1 ∙ step.0

  pub read_lines-append :
      (xs ys : List Text) (d : Doc N)
      → read_lines number (xs ++ ys) d ≡ read_lines number ys (read_lines number xs d)
  unfolding read_lines
  read_lines-append [] ys d = refl
  read_lines-append (x ∷ xs) ys d = read_lines-append xs ys (add_entry number (read_line x) d)

AreNameless-drop : (xs ys : List Text) → AreNameless (xs ++ ys) → AreNameless ys
AreNameless-drop [] ys h = h
AreNameless-drop (x ∷ xs) ys h = AreNameless-drop xs ys h.1

check_name-IsQuotable : (s : Text) {name : Text} → check_name s ≡ clean name → IsQuotable name
unfolding check_name
check_name-IsQuotable s h = ground arith

pub clean_name-IsQuotable :
    (raw : Text) {name : Text} → clean_name raw ≡ clean name → IsQuotable name
unfolding clean_name
clean_name-IsQuotable raw h = check_name-IsQuotable (strip raw) h

module _ {N : Type 0} (number : Text → Option N) (name file : Text) where
  placed-IsNamed :
      (before after : List Text) {ms : List Text}
      → IsQuotable name
      → ms ≡ before ++ (name_line name ∷ after)
      → AreNameless after
      → IsNamed number name (read_lines number ms empty_doc)
  placed-IsNamed before after q e h =
      rw (e, read_lines-append number before (name_line name ∷ after) empty_doc)
        (read_lines-IsNamed number name q after (read_lines number before empty_doc) h)

  set_name_line-IsNamed :
      (ls : List Text)
      → IsQuotable name
      → AreNameless (later_lines ls)
      → IsNamed number name (read_lines number (set_name_line (name_line name) ls) empty_doc)
  set_name_line-IsNamed ls q h = elim (set_name_line-cases (name_line name) ls) [
    | inl r ↦ placed-IsNamed r.before r.after q r.new_lines (rw r.later at h)
    | inr (r, z) ↦
        placed-IsNamed r.before r.after q r.new_lines
          (AreNameless-drop r.before r.after (rw (← r.lines) (rw z at h)))
  ]

  -- A name that clean_name accepts, with no line break but the ones that it refuses, is read back from a
  -- pack.yaml that rewrite_pack_yaml has written it to, as the same text, whatever the file held: if no
  -- line after the one that is replaced sets the top-level name again (no line at all, where none is).
  pub parse-rewritten_name :
      (raw : Text)
      → clean_name raw ≡ clean name
      → IsOneLine name
      → AreNameless (later_lines (splitlines file))
      → lookup name_key (parse_pack_yaml number (rewritten name file)) ≡ some (scalar (text name))
  parse-rewritten_name raw c o h =
      rw (parse_pack_yaml-eq number (rewritten name file), splitlines-rewritten name file o)
        (set_name_line-IsNamed (splitlines file) (clean_name-IsQuotable raw c) h)
