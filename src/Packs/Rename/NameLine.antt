-- ===== src/Packs/Rename/NameLine.antt =====
-- How the line that rewrite_pack_yaml writes is read.
use stoker.Prelude.{
  ℕ, true, false, ◌&&◌, ◌≡◌, refl, Option, none, some, [], ◌∷◌, ◌++◌, arith, Bool-cases, inl, inr,
  ◌⊎◌,
}
use stoker.Packs.Text.{
  Text, codes, is_white, is_empty, lstrip, rstrip, strip, leading_spaces, startswith, partition,
  init_last,
}
use stoker.Packs.Yaml.{
  text, is_quote, uncomment, strip_comment, read_line, read_line-eq, read_stripped, entry_of,
  unquote, read_scalar,
}
use stoker.Packs.Rename.{contains, quote_for, yaml_value, name_line}

-- At most one kind of quote.
abbrev pub IsQuotable : Text → Type 0
IsQuotable name = (contains 34 name && contains 39 name) ≡ false

uncomment_quoted :
    (q : ℕ) (s : Text) → contains q s ≡ false → uncomment (some q) (s ++ (q ∷ [])) ≡ s ++ (q ∷ [])
unfolding uncomment
uncomment_quoted q [] h = ground arith
uncomment_quoted q (c ∷ s) h = ground (arith, uncomment_quoted q s)

snoc-not_empty : (q : ℕ) (s : Text) → is_empty (s ++ (q ∷ [])) ≡ false
snoc-not_empty q [] = refl
snoc-not_empty q (c ∷ s) = refl

rstrip-snoc : (q : ℕ) (s : Text) → is_white q ≡ false → rstrip (s ++ (q ∷ [])) ≡ s ++ (q ∷ [])
unfolding rstrip
rstrip-snoc q [] h = rw h refl
rstrip-snoc q (c ∷ s) h = ground (arith, rstrip-snoc q s, snoc-not_empty q s)

init_last-snoc : (q : ℕ) (s : Text) → init_last (s ++ (q ∷ [])) ≡ some (s, q)
unfolding init_last
init_last-snoc q [] = refl
init_last-snoc q (c ∷ s) = rw (init_last-snoc q s, init_last) refl

pub quote_for-cases : (s : Text) → (quote_for s ≡ 34) ⊎ (quote_for s ≡ 39)
quote_for-cases s = ground arith

quote_for-absent : (s : Text) → IsQuotable s → contains (quote_for s) s ≡ false
quote_for-absent s h = elim (Bool-cases (contains 34 s)) [
  | inl d ↦ let e : quote_for s ≡ 39 = rw d refl in rw e (ground arith)
  | inr d ↦ let e : quote_for s ≡ 34 = rw d refl in rw e d
]

quote_for-is_quote : (s : Text) → is_quote (quote_for s) ≡ true
quote_for-is_quote s = ground arith

quote_for-not_white : (s : Text) → is_white (quote_for s) ≡ false
unfolding is_white
quote_for-not_white s = elim (quote_for-cases s) [ inl e ↦ rw e refl | inr e ↦ rw e refl ]

unquote-quoted : (q : ℕ) (s : Text) → is_quote q ≡ true → unquote (q ∷ (s ++ (q ∷ []))) ≡ some s
unfolding unquote
unquote-quoted q s h = rw (init_last-snoc q s, unquote) (ground arith)

pub read_scalar-yaml_value :
    {N : Type 0} (number : Text → Option N) (name : Text)
    → read_scalar number (yaml_value name) ≡ text name
unfolding read_scalar
read_scalar-yaml_value number name =
    rw (unquote-quoted (quote_for name) name (quote_for-is_quote name), read_scalar) refl

uncomment-quoted :
    (q : ℕ) (s : Text)
    → is_quote q ≡ true
    → contains q s ≡ false
    → uncomment none (q ∷ (s ++ (q ∷ []))) ≡ q ∷ (s ++ (q ∷ []))
unfolding uncomment
uncomment-quoted q s h k = ground (arith, uncomment_quoted q s k)

lstrip-not_white : (c : ℕ) (s : Text) → is_white c ≡ false → lstrip (c ∷ s) ≡ c ∷ s
unfolding lstrip
lstrip-not_white c s h = rw h refl

strip_name : strip (codes "name") ≡ codes "name"
unfolding strip
strip_name = refl

module _ (v : Text) (commentless : uncomment none v ≡ v) (right : rstrip v ≡ v)
    (left : lstrip v ≡ v) (full : is_empty v ≡ false) where
  strip_comment-named : strip_comment (codes "name: " ++ v) ≡ codes "name: " ++ v
  unfolding strip_comment
  strip_comment-named = rw (commentless, right, full) refl

  strip-named : strip (codes "name: " ++ v) ≡ codes "name: " ++ v
  unfolding strip
  strip-named = rw (right, full) refl

  strip-value : strip (32 ∷ v) ≡ v
  unfolding strip
  strip-value = rw (right, full) left

  entry_of-named :
      read_stripped (leading_spaces (codes "name: " ++ v)) (codes "name: " ++ v)
      ≡ entry_of 0 (some (codes "name", 32 ∷ v))
  unfolding startswith leading_spaces partition
  entry_of-named = refl

  read_line-named :
      read_line (codes "name: " ++ v) ≡ some (record { indent = 0; key = codes "name"; value = v })
  read_line-named =
      rw (read_line-eq, strip_comment-named, strip-named)
        (rw (entry_of-named) (rw (strip_name, strip-value) refl))

-- The line is read as a top-level name with the quoted name as its value.
pub read_line-name_line :
    (name : Text)
    → IsQuotable name
    → read_line (name_line name)
      ≡ some (record { indent = 0; key = codes "name"; value = yaml_value name })
read_line-name_line name h =
    let q = quote_for name in
    read_line-named (yaml_value name)
      (uncomment-quoted q name (quote_for-is_quote name) (quote_for-absent name h))
      (rstrip-snoc q (q ∷ name) (quote_for-not_white name))
      (lstrip-not_white q _ (quote_for-not_white name)) refl
