-- ===== src/Packs/Yaml.antt =====
-- server/bundles.py: _parse_pack_yaml, the reader of pack.yaml, and the worker's own copy of it,
-- parse_pack_yaml of worker/stoker_agent/bundle.py, whose lines and scalars are read alike. A text is
-- the list of its code points. What int and float make of a scalar is a parameter: it answers none where
-- both raise ValueError.
pub mod Dicts
pub mod Agreement
use stoker.Prelude.{
  ℕ, zero, suc, Bool, true, false, ◌&&◌, ◌||◌, Option, none, some, List, [], ◌∷◌, map, ltb, ◌==◌,
  if◌then◌else◌, any, ◌≡◌, refl,
}
use stoker.Packs.Text.{
  Text, codes, equal, is_empty, rstrip, strip, leading_spaces, startswith, partition, init_last,
  splitlines, lower,
}

abbrev pub is_quote : ℕ → Bool
is_quote c = c == 39 || c == 34

unfoldable pub uncomment : Option ℕ → Text → Text
uncomment quote [] = []
uncomment (some q) (c ∷ cs) = c ∷ uncomment (if c == q then none else some q) cs
uncomment none (c ∷ cs) =
    let rest = uncomment (if is_quote c then some c else none) cs in
    if is_quote c then c ∷ rest else if c == 35 then [] else c ∷ rest

-- _pack_yaml_strip_comment
unfoldable pub strip_comment : Text → Text
unfolding uncomment rstrip
strip_comment line = rstrip (uncomment none line)

-- What is left of a line that is not skipped.
pub record Entry : Type 0 where
  pub indent : ℕ
  pub key : Text
  pub value : Text

abbrev pub entry_of : ℕ → Option (Text × Text) → Option Entry
entry_of indent none = none
entry_of indent (some (key, value)) =
    some (record { indent = indent; key = strip key; value = strip value })

abbrev pub read_stripped : ℕ → Text → Option Entry
read_stripped indent stripped =
    if is_empty stripped
    then none
    else if startswith (codes "- ") stripped
    then none
    else entry_of indent (partition 58 stripped)

abbrev pub read_uncommented : Text → Option Entry
read_uncommented line = read_stripped (leading_spaces line) (strip line)

-- none where the loop continues with the next line.
unfoldable pub read_line : Text → Option Entry
unfolding strip_comment strip leading_spaces startswith partition
read_line raw = read_uncommented (strip_comment raw)

pub read_line-eq : (raw : Text) → read_line raw ≡ read_uncommented (strip_comment raw)
unfolding read_line
read_line-eq raw = refl

module _ {ℓ} {A : Type ℓ} where
  -- A dict keeps the place of a key that it has.
  unfoldable pub insert : Text → A → List (Text × A) → List (Text × A)
  insert k v [] = (k, v) ∷ []
  insert k v ((j, w) ∷ m) = if equal j k then (j, v) ∷ m else (j, w) ∷ insert k v m

  unfoldable pub lookup : Text → List (Text × A) → Option A
  lookup k [] = none
  lookup k ((j, w) ∷ m) = if equal j k then some w else lookup k m

pub data Scalar (N : Type 0) : Type 0 where
  text : Text → Scalar N
  bool : Bool → Scalar N
  null : Scalar N
  numeral : N → Scalar N

abbrev pub one_of : List Text → Text → Bool
one_of words s = any (equal s) words

-- No character that is not ASCII has a lower case within these words.
abbrev true_words : List Text
true_words = codes "true" ∷ codes "yes" ∷ codes "on" ∷ []

abbrev false_words : List Text
false_words = codes "false" ∷ codes "no" ∷ codes "off" ∷ []

abbrev null_words : List Text
null_words = codes "null" ∷ codes "~" ∷ [] ∷ []

-- The text between two equal quotes, of a text of two characters at least.
unfoldable pub unquote : Text → Option Text
unfolding init_last
unquote [] = none
unquote (c ∷ cs) = elim (init_last cs) [
  | none ↦ none
  | some (body, d) ↦ if c == d && is_quote c then some body else none
]

pub data Value (N : Type 0) : Type 0 where
  scalar : Scalar N → Value N
  section : List (Text × Scalar N) → Value N

-- The loop's two variables.
pub record Doc (N : Type 0) : Type 0 where
  pub result : List (Text × Value N)
  pub open_section : Option Text

abbrev pub empty_doc : {N : Type 0} → Doc N
empty_doc = record { result = []; open_section = none }

module _ {N : Type 0} (number : Text → Option N) where
  unfoldable pub plain_scalar : Text → Scalar N
  unfolding equal lower
  plain_scalar s =
      let low = map lower s in
      if one_of true_words low
      then bool true
      else if one_of false_words low
      then bool false
      else if one_of null_words low
      then null
      else elim (number s) [ some n ↦ numeral n | none ↦ text s ]

  -- _pack_yaml_scalar
  unfoldable pub read_scalar : Text → Scalar N
  unfolding unquote plain_scalar
  read_scalar s = elim (unquote s) [ some body ↦ text body | none ↦ plain_scalar s ]

  -- The branch with indent 0.
  unfoldable pub top_entry : Entry → Doc N → Doc N
  top_entry e d =
      if is_empty e.value
      then record d { open_section = some e.key; result = insert e.key (section []) d.result }
      else record d {
        open_section = none;
        result = insert e.key (scalar (read_scalar e.value)) d.result;
      }

  abbrev pub put_in :
      Text → Entry → Option (Value N) → List (Text × Value N) → List (Text × Value N)
  put_in s e none r = r
  put_in s e (some (scalar v)) r = r
  put_in s e (some (section m)) r = insert s (section (insert e.key (read_scalar e.value) m)) r

  -- The other branch; bundles.py looks whether the section is a dict.
  unfoldable pub nested_entry : Entry → Option Text → Doc N → Doc N
  nested_entry e none d = d
  nested_entry e (some s) d =
      if is_empty e.value then d else record d { result = put_in s e (lookup s d.result) d.result }

  unfoldable pub add_entry : Option Entry → Doc N → Doc N
  unfolding top_entry nested_entry
  add_entry none d = d
  add_entry (some e) d = if e.indent == 0 then top_entry e d else nested_entry e d.open_section d

  unfoldable pub read_lines : List Text → Doc N → Doc N
  unfolding read_line add_entry
  read_lines [] d = d
  read_lines (l ∷ ls) d = read_lines ls (add_entry (read_line l) d)

  -- _parse_pack_yaml
  unfoldable pub parse_pack_yaml : Text → List (Text × Value N)
  unfolding splitlines read_lines
  parse_pack_yaml s = (read_lines (splitlines s) empty_doc).result

  pub parse_pack_yaml-eq :
      (s : Text) → parse_pack_yaml s ≡ (read_lines (splitlines s) empty_doc).result
  unfolding parse_pack_yaml
  parse_pack_yaml-eq s = refl

  -- The worker's copy has no such look: none is a KeyError or a TypeError.
  abbrev pub worker_put_in :
      Text → Entry → Option (Value N) → List (Text × Value N) → Option (List (Text × Value N))
  worker_put_in s e none r = none
  worker_put_in s e (some (scalar v)) r = none
  worker_put_in s e (some (section m)) r =
      some (insert s (section (insert e.key (read_scalar e.value) m)) r)

  abbrev pub with_result : Doc N → Option (List (Text × Value N)) → Option (Doc N)
  with_result d none = none
  with_result d (some r) = some (record d { result = r })

  unfoldable pub worker_nested_entry : Entry → Option Text → Doc N → Option (Doc N)
  worker_nested_entry e none d = some d
  worker_nested_entry e (some s) d =
      if is_empty e.value
      then some d
      else with_result d (worker_put_in s e (lookup s d.result) d.result)

  unfoldable pub worker_add_entry : Option Entry → Doc N → Option (Doc N)
  unfolding top_entry worker_nested_entry
  worker_add_entry none d = some d
  worker_add_entry (some e) d =
      if e.indent == 0 then some (top_entry e d) else worker_nested_entry e d.open_section d

  unfoldable pub worker_read_lines : List Text → Option (Doc N) → Option (Doc N)
  unfolding read_line worker_add_entry
  worker_read_lines [] d = d
  worker_read_lines (l ∷ ls) none = none
  worker_read_lines (l ∷ ls) (some d) = worker_read_lines ls (worker_add_entry (read_line l) d)

  -- parse_pack_yaml of worker/stoker_agent/bundle.py; none where it raises.
  unfoldable pub worker_parse_pack_yaml : Text → Option (List (Text × Value N))
  unfolding splitlines worker_read_lines
  worker_parse_pack_yaml s = elim (worker_read_lines (splitlines s) (some empty_doc)) [
    | none ↦ none
    | some d ↦ some d.result
  ]
