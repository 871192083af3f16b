-- ===== src/Packs/Rename/OtherKeys.antt =====
-- The keys of a pack.yaml other than its name, before and after rewrite_pack_yaml.
use stoker.Prelude.{
  true, false, ◌≡◌, refl, sym, Option, none, some, List, [], ◌∷◌, ◌++◌, Bool-cases, inl, inr,
}
use stoker.Packs.Text.{Text, equal, is_empty, splitlines}
use stoker.Packs.Yaml.{
  section, Doc, empty_doc, lookup, top_entry, add_entry, read_line, read_lines, parse_pack_yaml,
  parse_pack_yaml-eq,
}
use stoker.Packs.Yaml.Dicts.{lookup-insert, equal_refl}
use stoker.Packs.Rename.{
  yaml_value, clean_name, clean, name_line, is_name_line, set_name_line, rewritten,
}
use stoker.Packs.Rename.NameLine.{IsQuotable, read_line-name_line}
use stoker.Packs.Rename.Lines.{IsOneLine, splitlines-rewritten}
use stoker.Packs.Rename.Placing.{AreComments, set_name_line-cases}
use stoker.Packs.Rename.OldLine.{read_line-is_name_line, read_line-is_comment}
use stoker.Packs.Rename.ReadsBack.{name_key, read_lines-append, clean_name-IsQuotable}
use stoker.Packs.Rename.Alike.{Alike, insert_name-AgreeAside, read_lines-Alike}

module _ {N : Type 0} (number : Text → Option N) where
  -- Replacing a line that is read as the name's.
  add_entry-name_line-Alike :
      (v w : Text) (d : Doc N)
      → is_empty w ≡ false
      → Alike
          (add_entry number (some (record { indent = 0; key = name_key; value = v })) d)
          (add_entry number (some (record { indent = 0; key = name_key; value = w })) d)
  unfolding add_entry top_entry
  add_entry-name_line-Alike v w d h = elim (Bool-cases (is_empty v)) [
    | inl z ↦
        rw (z, h)
          (record {
            results = insert_name-AgreeAside (section []) _ d.result d.result (λ k n. refl);
            sections = inr (equal_refl name_key, tt);
          })
    | inr z ↦
        rw (z, h)
          (record {
            results = insert_name-AgreeAside _ _ d.result d.result (λ k n. refl);
            sections = inl refl;
          })
  ]

  read_lines-cons :
      (l : Text) (ls : List Text) (d : Doc N)
      → read_lines number (l ∷ ls) d ≡ read_lines number ls (add_entry number (read_line l) d)
  unfolding read_lines
  read_lines-cons l ls d = refl

  module _ (name : Text) (quotable : IsQuotable name) where
    replaced-Alike :
        (before after : List Text) (old : Text) (d : Doc N)
        → is_name_line old ≡ true
        → Alike
            (read_lines number (before ++ (old ∷ after)) d)
            (read_lines number (before ++ (name_line name ∷ after)) d)
    replaced-Alike before after old d h =
        let e = read_line-is_name_line old h in
        let c = read_lines number before d in
        rw
          (
            read_lines-append number before (old ∷ after) d,
            read_lines-append number before (name_line name ∷ after) d,
            read_lines-cons old after c,
            read_lines-cons (name_line name) after c,
            e.1,
            read_line-name_line name quotable,
          )
          (read_lines-Alike number after _ _
            (add_entry-name_line-Alike e.0 (yaml_value name) c refl))

    read_lines-comments : (ls : List Text) (d : Doc N) → AreComments ls → read_lines number ls d ≡ d
    unfolding read_lines add_entry
    read_lines-comments [] d h = refl
    read_lines-comments (l ∷ ls) d h =
        rw (read_line-is_comment l h.0) (read_lines-comments ls d h.1)

    -- The new line where no section is open.
    add_entry-new_name_line-Alike :
        (d : Doc N)
        → d.open_section ≡ none
        → Alike d (add_entry number (read_line (name_line name)) d)
    unfolding add_entry top_entry
    add_entry-new_name_line-Alike d h = rw (read_line-name_line name quotable) (record {
      results = λ k n. rw (lookup-insert name_key k _ d.result, n) refl;
      sections = inl h;
    })

    inserted-Alike :
        (before after : List Text)
        → AreComments before
        → Alike
            (read_lines number (before ++ after) empty_doc)
            (read_lines number (before ++ (name_line name ∷ after)) empty_doc)
    inserted-Alike before after h =
        rw
          (
            read_lines-append number before after empty_doc,
            read_lines-append number before (name_line name ∷ after) empty_doc,
            read_lines-comments before empty_doc h,
            read_lines-cons (name_line name) after empty_doc,
          )
          (read_lines-Alike number after _ _ (add_entry-new_name_line-Alike empty_doc refl))

    Alike-of_eq :
        {ls ms ls' ms' : List Text}
        → ls ≡ ls'
        → ms ≡ ms'
        → Alike (read_lines number ls' empty_doc) (read_lines number ms' empty_doc)
        → Alike (read_lines number ls empty_doc) (read_lines number ms empty_doc)
    Alike-of_eq p q h = rw (p, q) h

    set_name_line-Alike :
        (ls : List Text)
        → Alike
            (read_lines number ls empty_doc)
            (read_lines number (set_name_line (name_line name) ls) empty_doc)
    set_name_line-Alike ls = elim (set_name_line-cases (name_line name) ls) [
      | inl r ↦
          Alike-of_eq r.lines r.new_lines
            (replaced-Alike r.before r.after r.old empty_doc r.old_name)
      | inr (r, z) ↦ Alike-of_eq r.lines r.new_lines (inserted-Alike r.before r.after r.comments)
    ]

  -- A rename of a pack keeps every other key of its pack.yaml, whatever the file held: with a name that
  -- clean_name accepts and that has no line break but the ones that it refuses, the control plane reads
  -- the same value, or none, for each key but name, before and after rewrite_pack_yaml.
  pub parse-rewritten_other :
      (raw name file k : Text)
      → clean_name raw ≡ clean name
      → IsOneLine name
      → equal name_key k ≡ false
      → lookup k (parse_pack_yaml number (rewritten name file))
        ≡ lookup k (parse_pack_yaml number file)
  parse-rewritten_other raw name file k c o n =
      rw
        (
          parse_pack_yaml-eq number (rewritten name file),
          parse_pack_yaml-eq number file,
          splitlines-rewritten name file o,
        )
        (sym
          ((set_name_line-Alike name (clean_name-IsQuotable raw c) (splitlines file)).results k n))
