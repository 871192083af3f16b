-- ===== src/Packs/Yaml/Agreement.antt =====
-- The control plane's reader of pack.yaml and the worker's.
use stoker.Prelude.{◌≡◌, refl, Option, none, some, List, [], ◌∷◌, ◌==◌, Bool-cases, inl, inr}
use stoker.Packs.Text.{Text, is_empty, splitlines}
use stoker.Packs.Yaml.{
  Entry, Scalar, Value, section, Doc, empty_doc, insert, lookup, read_scalar, top_entry,
  nested_entry, add_entry, read_line, read_lines, parse_pack_yaml, worker_nested_entry,
  worker_add_entry, worker_read_lines, worker_parse_pack_yaml,
}
use stoker.Packs.Yaml.Dicts.{equal_refl, lookup-insert}

module _ {N : Type 0} (number : Text → Option N) where
  -- The open section is a dict.
  abbrev OpenIn : Option Text → List (Text × Value N) → Type 0
  OpenIn none r = Unit {0}
  OpenIn (some s) r = (m : List (Text × Scalar N)) × (lookup s r ≡ some (section m))

  abbrev IsOpen : Doc N → Type 0
  IsOpen d = OpenIn d.open_section d.result

  lookup-insert_self :
      (k : Text) (v : Value N) (r : List (Text × Value N)) → lookup k (insert k v r) ≡ some v
  lookup-insert_self k v r = rw (lookup-insert k k v r, equal_refl k)

  top_entry-IsOpen : (e : Entry) (d : Doc N) → IsOpen (top_entry number e d)
  unfolding top_entry
  top_entry-IsOpen e d = elim (Bool-cases (is_empty e.value)) [
    | inl h ↦ rw h ([], lookup-insert_self e.key (section []) d.result)
    | inr h ↦ rw h tt
  ]

  nested_entry-Agrees :
      (e : Entry) (s : Option Text) (d : Doc N)
      → d.open_section ≡ s
      → OpenIn s d.result
      → (worker_nested_entry number e s d ≡ some (nested_entry number e s d))
        × IsOpen (nested_entry number e s d)
  unfolding worker_nested_entry nested_entry
  nested_entry-Agrees e none d q h = (refl, rw q tt)
  nested_entry-Agrees e (some s) d q (m, h) = elim (Bool-cases (is_empty e.value)) [
    | inl o ↦ rw o (refl, rw q (m, h))
    | inr o ↦
        rw (o, h, q)
          (refl, (insert e.key (read_scalar number e.value) m, lookup-insert_self s _ d.result))
  ]

  add_entry-Agrees :
      (e : Option Entry) (d : Doc N)
      → IsOpen d
      → (worker_add_entry number e d ≡ some (add_entry number e d)) × IsOpen (add_entry number e d)
  unfolding worker_add_entry add_entry
  add_entry-Agrees none d h = (refl, h)
  add_entry-Agrees (some e) d h = elim (Bool-cases (e.indent == 0)) [
    | inl z ↦ rw z (refl, top_entry-IsOpen e d)
    | inr z ↦ rw z (nested_entry-Agrees e d.open_section d refl h)
  ]

  read_lines-Agrees :
      (ls : List Text) (d : Doc N)
      → IsOpen d
      → worker_read_lines number ls (some d) ≡ some (read_lines number ls d)
  unfolding worker_read_lines read_lines
  read_lines-Agrees [] d h = refl
  read_lines-Agrees (l ∷ ls) d h =
      let step = add_entry-Agrees (read_line l) d h in
      rw step.0 (read_lines-Agrees ls (add_entry number (read_line l) d) step.1)

  -- The worker reads every pack.yaml as the control plane does: it never raises, and its result is the
  -- control plane's, key by key, whatever the text.
  pub worker_parse-eq-parse :
      (s : Text) → worker_parse_pack_yaml number s ≡ some (parse_pack_yaml number s)
  unfolding worker_parse_pack_yaml parse_pack_yaml
  worker_parse-eq-parse s =
      rw (read_lines-Agrees (splitlines s) empty_doc tt, worker_parse_pack_yaml) refl
