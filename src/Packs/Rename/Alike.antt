-- ===== src/Packs/Rename/Alike.antt =====
-- Readings of a pack.yaml that differ at the name at most.
use stoker.Prelude.{
  true, false, ◌≡◌, refl, sym, ◌∙◌, Option, none, some, List, [], ◌∷◌, ◌==◌, Bool-cases, inl, inr,
  ◌⊎◌, subst,
}
use stoker.Packs.Text.{Text, equal, is_empty}
use stoker.Packs.Yaml.{
  Entry, Value, scalar, section, Doc, insert, lookup, read_scalar, top_entry, nested_entry,
  add_entry, read_line, read_lines, put_in,
}
use stoker.Packs.Yaml.Dicts.{lookup-insert, equal→eq}
use stoker.Packs.Rename.ReadsBack.{name_key}

abbrev Dict : Type 0 → Type 0
Dict N = List (Text × Value N)

-- No section is open, or one that is called name.
abbrev pub IsIdle : Option Text → Type 0
IsIdle none = Unit {0}
IsIdle (some s) = equal name_key s ≡ true

module _ {N : Type 0} where
  -- Two results that differ at the name at most.
  abbrev pub AgreeAside : Dict N → Dict N → Type 0
  AgreeAside r s = (k : Text) → equal name_key k ≡ false → lookup k r ≡ lookup k s

  insert-AgreeAside :
      (j : Text) (v : Value N) (r s : Dict N)
      → AgreeAside r s
      → AgreeAside (insert j v r) (insert j v s)
  insert-AgreeAside j v r s h k n = rw (lookup-insert j k v r, lookup-insert j k v s, h k n) refl

  pub insert_name-AgreeAside :
      (v w : Value N) (r s : Dict N)
      → AgreeAside r s
      → AgreeAside (insert name_key v r) (insert name_key w s)
  insert_name-AgreeAside v w r s h k n =
      rw (lookup-insert name_key k v r, lookup-insert name_key k w s, n) (h k n)

  pub record Alike (d c : Doc N) : Type 0 where
    pub results : AgreeAside d.result c.result
    pub sections :
        (d.open_section ≡ c.open_section) ⊎ (IsIdle d.open_section × IsIdle c.open_section)

module _ {N : Type 0} (number : Text → Option N) where
  top_entry-Alike :
      (e : Entry) (d c : Doc N) → Alike d c → Alike (top_entry number e d) (top_entry number e c)
  unfolding top_entry
  top_entry-Alike e d c h = elim (Bool-cases (is_empty e.value)) [
    | inl z ↦ rw z (record {
      results = insert-AgreeAside e.key (section []) d.result c.result h.results;
      sections = inl refl;
    })
    | inr z ↦ rw z (record {
      results =
          insert-AgreeAside e.key (scalar (read_scalar number e.value)) d.result c.result h.results;
      sections = inl refl;
    })
  ]

  idle-put_in :
      (s : Text) (e : Entry) (v : Option (Value N)) (r : Dict N)
      → equal name_key s ≡ true
      → AgreeAside (put_in number s e v r) r
  idle-put_in s e none r h k n = refl
  idle-put_in s e (some (scalar v)) r h k n = refl
  idle-put_in s e (some (section m)) r h k n =
      let q : equal s k ≡ false =
        subst (λ (t : Text). equal t k ≡ false) (equal→eq name_key s h) n in
      rw (lookup-insert s k _ r, q) refl

  idle-nested_entry :
      (e : Entry) (o : Option Text) (d : Doc N)
      → IsIdle o
      → AgreeAside (nested_entry number e o d).result d.result
  unfolding nested_entry
  idle-nested_entry e none d h = λ k n. refl
  idle-nested_entry e (some s) d h = elim (Bool-cases (is_empty e.value)) [
    | inl z ↦ rw z (λ k n. refl)
    | inr z ↦ rw z (idle-put_in s e (lookup s d.result) d.result h)
  ]

  nested_entry-section :
      (e : Entry) (o : Option Text) (d : Doc N)
      → (nested_entry number e o d).open_section ≡ d.open_section
  unfolding nested_entry
  nested_entry-section e none d = refl
  nested_entry-section e (some s) d = elim (Bool-cases (is_empty e.value)) [
    | inl z ↦ rw z refl
    | inr z ↦ rw z refl
  ]

  put_in-AgreeAside :
      (s : Text) (e : Entry) (v : Option (Value N)) (r t : Dict N)
      → AgreeAside r t
      → AgreeAside (put_in number s e v r) (put_in number s e v t)
  put_in-AgreeAside s e none r t h = h
  put_in-AgreeAside s e (some (scalar v)) r t h = h
  put_in-AgreeAside s e (some (section m)) r t h = insert-AgreeAside s _ r t h

  same-nested_entry :
      (e : Entry) (o : Option Text) (d c : Doc N)
      → AgreeAside d.result c.result
      → AgreeAside (nested_entry number e o d).result (nested_entry number e o c).result
  unfolding nested_entry
  same-nested_entry e none d c h = h
  same-nested_entry e (some s) d c h = elim (Bool-cases (is_empty e.value)) [
    | inl z ↦ rw z h
    | inr z ↦ elim (Bool-cases (equal name_key s)) [
      | inl i ↦ rw z (λ k n.
          idle-put_in s e (lookup s d.result) d.result i k n
          ∙ h k n
          ∙ sym (idle-put_in s e (lookup s c.result) c.result i k n))
      | inr i ↦ rw (z, h s i) (put_in-AgreeAside s e (lookup s c.result) d.result c.result h)
    ]
  ]

  nested_entry-Alike :
      (e : Entry) (d c : Doc N)
      → Alike d c
      → Alike (nested_entry number e d.open_section d) (nested_entry number e c.open_section c)
  nested_entry-Alike e d c h = record {
    results = elim h.sections [
      | inl q ↦
          subst
            (λ (o : Option Text).
              AgreeAside (nested_entry number e o d).result
                (nested_entry number e c.open_section c).result)
            (sym q) (same-nested_entry e c.open_section d c h.results)
      | inr i ↦ λ k n.
          idle-nested_entry e d.open_section d i.0 k n
          ∙ h.results k n
          ∙ sym (idle-nested_entry e c.open_section c i.1 k n)
    ];
    sections =
        rw (nested_entry-section e d.open_section d, nested_entry-section e c.open_section c)
          h.sections;
  }

  add_entry-Alike :
      (e : Option Entry) (d c : Doc N)
      → Alike d c
      → Alike (add_entry number e d) (add_entry number e c)
  unfolding add_entry
  add_entry-Alike none d c h = h
  add_entry-Alike (some e) d c h = elim (Bool-cases (e.indent == 0)) [
    | inl z ↦ rw z (top_entry-Alike e d c h)
    | inr z ↦ rw z (nested_entry-Alike e d c h)
  ]

  pub read_lines-Alike :
      (ls : List Text) (d c : Doc N)
      → Alike d c
      → Alike (read_lines number ls d) (read_lines number ls c)
  unfolding read_lines
  read_lines-Alike [] d c h = h
  read_lines-Alike (l ∷ ls) d c h =
      read_lines-Alike ls (add_entry number (read_line l) d) (add_entry number (read_line l) c)
        (add_entry-Alike (read_line l) d c h)
