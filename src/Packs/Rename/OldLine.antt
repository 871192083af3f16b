-- ===== src/Packs/Rename/OldLine.antt =====
-- How the lines that rewrite_pack_yaml replaces or passes over are read.
use stoker.Prelude.{
  ℕ, true, false, ◌≡◌, refl, ap, ◌∙◌, none, some, [], ◌∷◌, ◌++◌, ◌==◌, arith, Bool-cases, inl, inr,
  and-true,
}
use mathlib.Core.List.{append-nil}
use stoker.Packs.Text.{
  Text, codes, is_white, is_empty, lstrip, rstrip, strip, leading_spaces, startswith, partition,
}
use stoker.Packs.Yaml.{
  uncomment, strip_comment, read_line, read_line-eq, read_stripped, read_uncommented, entry_of,
}
use stoker.Packs.Rename.{is_name_line, is_comment}

abbrev AllWhite : Text → Type 0
AllWhite [] = Unit {0}
AllWhite (c ∷ s) = (is_white c ≡ true) × AllWhite s

-- A text that starts with the character, behind whitespace.
record StartsWith (c : ℕ) (s : Text) : Type 0 where
  pub space : Text
  pub rest : Text
  pub white : AllWhite space
  pub whole : s ≡ space ++ (c ∷ rest)

startswith-lstrip : (c : ℕ) (s : Text) → startswith (c ∷ []) (lstrip s) ≡ true → StartsWith c s
unfolding startswith lstrip
startswith-lstrip c [] h = cc
startswith-lstrip c (d ∷ s) h = elim (Bool-cases (is_white d)) [
  | inl w ↦
      let r = startswith-lstrip c s (rw w at h) in
      record {
        space = d ∷ r.space;
        rest = r.rest;
        white = (w, r.white);
        whole = ap (λ (t : Text). d ∷ t) r.whole;
      }
  | inr w ↦ record { space = []; rest = s; white = tt; whole = ground arith }
]

uncomment_white :
    (c : ℕ) (s : Text) → is_white c ≡ true → uncomment none (c ∷ s) ≡ c ∷ uncomment none s
unfolding uncomment is_white
uncomment_white c s h = ground arith

uncomment-space : (ws s : Text) → AllWhite ws → uncomment none (ws ++ s) ≡ ws ++ uncomment none s
uncomment-space [] s h = refl
uncomment-space (c ∷ ws) s h =
    uncomment_white c (ws ++ s) h.0 ∙ ap (λ (t : Text). c ∷ t) (uncomment-space ws s h.1)

rstrip-space : (ws : Text) → AllWhite ws → rstrip ws ≡ []
unfolding rstrip
rstrip-space [] h = refl
rstrip-space (c ∷ ws) h = rw (h.0, rstrip-space ws h.1) refl

is_empty-append : (ws : Text) (c : ℕ) (s : Text) → is_empty (ws ++ (c ∷ s)) ≡ false
is_empty-append [] c s = refl
is_empty-append (d ∷ ws) c s = refl

rstrip-colon : (ws s : Text) → rstrip (ws ++ (58 ∷ s)) ≡ ws ++ (58 ∷ rstrip s)
unfolding rstrip
rstrip-colon [] s = refl
rstrip-colon (c ∷ ws) s = rw (rstrip-colon ws s, is_empty-append ws 58 (rstrip s)) (ground arith)

white-not_colon : (c : ℕ) → is_white c ≡ true → (c == 58) ≡ false
unfolding is_white
white-not_colon c h = ground arith

partition-space : (ws s : Text) → AllWhite ws → partition 58 (ws ++ (58 ∷ s)) ≡ some (ws, s)
unfolding partition
partition-space [] s h = refl
partition-space (c ∷ ws) s h = rw (white-not_colon c h.0, partition-space ws s h.1) refl

strip_comment-eq : (l : Text) → strip_comment l ≡ rstrip (uncomment none l)
unfolding strip_comment
strip_comment-eq l = refl

module _ (ws s : Text) (white : AllWhite ws) where
  abbrev named_line : Text → Text
  named_line t = codes "name" ++ (ws ++ (58 ∷ t))

  uncomment-named_line : uncomment none (named_line s) ≡ named_line (uncomment none s)
  unfolding uncomment
  uncomment-named_line = rw (uncomment-space ws (58 ∷ s) white) refl

  rstrip-named_line : (t : Text) → rstrip (named_line t) ≡ named_line (rstrip t)
  unfolding rstrip
  rstrip-named_line t = rw (rstrip-colon ws t) refl

  strip-named_line : (t : Text) → strip (named_line t) ≡ named_line (rstrip t)
  unfolding strip
  strip-named_line t = rw (rstrip-colon ws t) refl

  strip_comment-named_line : strip_comment (named_line s) ≡ named_line (rstrip (uncomment none s))
  strip_comment-named_line = rw (strip_comment-eq, uncomment-named_line, rstrip-named_line) refl

  strip-key : strip (codes "name" ++ ws) ≡ codes "name"
  unfolding strip
  strip-key = rw (rstrip-space ws white) refl

  entry_of-named_line :
      (t u : Text)
      → read_stripped (leading_spaces (named_line t)) (named_line u)
        ≡ entry_of 0 (some (codes "name" ++ ws, u))
  unfolding startswith leading_spaces partition
  entry_of-named_line t u = rw (partition-space ws u white) refl

  read_line-named_line :
      (v : Text) × (read_line (named_line s)
        ≡ some (record { indent = 0; key = codes "name"; value = v }))
  read_line-named_line =
      let t = rstrip (uncomment none s) in
      (
        strip (rstrip t),
        rw (read_line-eq, strip_comment-named_line, strip-named_line t)
            (rw (entry_of-named_line t (rstrip t)) (rw strip-key refl)),
      )

name_letters :
    (a b c d : ℕ)
    → startswith (codes "name") (a ∷ b ∷ c ∷ d ∷ []) ≡ true
    → (a ≡ 110) × (b ≡ 97) × (c ≡ 109) × (d ≡ 101)
unfolding startswith
name_letters a b c d h = ground arith

-- A line that rewrite_pack_yaml takes for the name's is read as one.
pub read_line-is_name_line :
    (l : Text)
    → is_name_line l ≡ true
    → (v : Text) × (read_line l ≡ some (record { indent = 0; key = codes "name"; value = v }))
unfolding is_name_line
read_line-is_name_line [] h = cc
read_line-is_name_line (a ∷ []) h = cc
read_line-is_name_line (a ∷ b ∷ []) h = cc
read_line-is_name_line (a ∷ b ∷ c ∷ []) h = cc
read_line-is_name_line (a ∷ b ∷ c ∷ d ∷ rest) h =
    let both =
      and-true (startswith (codes "name") (a ∷ b ∷ c ∷ d ∷ []))
        (startswith (codes ":") (lstrip rest)) h in
    let e = name_letters a b c d both.0 in
    let colon = startswith-lstrip 58 rest both.1 in
    rw (e.0, e.1, e.2, e.3, colon.whole) (read_line-named_line colon.space colon.rest colon.white)

uncomment-hash : (s : Text) → uncomment none (35 ∷ s) ≡ []
unfolding uncomment
uncomment-hash s = refl

read_uncommented-nil : read_uncommented [] ≡ none
unfolding strip
read_uncommented-nil = refl

strip_comment-hash : (ws s : Text) → AllWhite ws → strip_comment (ws ++ (35 ∷ s)) ≡ []
strip_comment-hash ws s h =
    rw (strip_comment-eq, uncomment-space ws (35 ∷ s) h, uncomment-hash s, append-nil)
      (rstrip-space ws h)

-- A comment is skipped.
pub read_line-is_comment : (l : Text) → is_comment l ≡ true → read_line l ≡ none
read_line-is_comment l h =
    let hash = startswith-lstrip 35 l h in
    rw (hash.whole, read_line-eq, strip_comment-hash hash.space hash.rest hash.white)
      read_uncommented-nil
