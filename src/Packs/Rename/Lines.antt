-- ===== src/Packs/Rename/Lines.antt =====
-- What splitlines makes of the text that rewrite_pack_yaml writes.
use stoker.Prelude.{
  ℕ, Bool, false, ◌&&◌, ◌||◌, ◌≡◌, refl, ap, ◌∙◌, some, List, [], ◌∷◌, ◌++◌, ◌==◌, arith,
  Bool-cases, inl, inr, any, or-false, if_cases, Option-cases,
}
use mathlib.Core.List.{append_assoc}
use stoker.Packs.Text.{Text, is_break, lines_after, splitlines, join_lines, prefix_first}
use stoker.Packs.Rename.NameLine.{quote_for-cases}
use stoker.Packs.Rename.{
  quote_for, name_line, replace_first, insert_after_comments, set_name_line, is_name_line,
  is_comment, rewritten,
}

abbrev pub IsOneLine : Text → Type 0
IsOneLine l = any is_break l ≡ false

abbrev AllOneLine : List Text → Type 0
AllOneLine [] = Unit {0}
AllOneLine (l ∷ ls) = IsOneLine l × AllOneLine ls

not_break-not_feed : (c : ℕ) → is_break c ≡ false → (c == 10) ≡ false
unfolding is_break
not_break-not_feed c h = ground arith

not_break-not_return : (c : ℕ) → is_break c ≡ false → (c == 13) ≡ false
unfolding is_break
not_break-not_return c h = ground arith

lines_after-line :
    (l rest : Text)
    → IsOneLine l
    → lines_after false (l ++ (10 ∷ rest)) ≡ l ∷ lines_after false rest
unfolding lines_after
lines_after-line [] rest h = refl
lines_after-line (c ∷ l) rest h =
    let b = or-false (is_break c) (any is_break l) h in
    rw (b.0, not_break-not_return c b.0, lines_after-line l rest b.1) refl

splitlines-join_lines :
    (l : Text) (ls : List Text)
    → AllOneLine (l ∷ ls)
    → splitlines (join_lines (l ∷ ls) ++ (10 ∷ [])) ≡ l ∷ ls
unfolding splitlines join_lines
splitlines-join_lines l [] h = lines_after-line l [] h.0
splitlines-join_lines l (m ∷ ls) h =
    rw append_assoc
      (lines_after-line l _ h.0 ∙ ap (λ (ms : List Text). l ∷ ms) (splitlines-join_lines m ls h.1))

abbrev IsFull : List Text → Type 0
IsFull [] = ⊥
IsFull (l ∷ ls) = Unit {0}

splitlines-joined :
    (ls : List Text) → IsFull ls → AllOneLine ls → splitlines (join_lines ls ++ (10 ∷ [])) ≡ ls
splitlines-joined [] f a = absurd f
splitlines-joined (l ∷ ls) f a = splitlines-join_lines l ls a

prefix_first-AllOneLine :
    (c : ℕ) (ls : List Text) → is_break c ≡ false → AllOneLine ls → AllOneLine (prefix_first c ls)
prefix_first-AllOneLine c [] h a = (rw h refl, tt)
prefix_first-AllOneLine c (l ∷ ls) h a = (rw h a.0, a.1)

lines_after-AllOneLine : (cr : Bool) (s : Text) → AllOneLine (lines_after cr s)
unfolding lines_after
lines_after-AllOneLine cr [] = tt
lines_after-AllOneLine cr (c ∷ s) =
    let rest = lines_after-AllOneLine (c == 13) s in
    if_cases AllOneLine (cr && c == 10) _ _ (λ _. rest)
      (λ _.
        if_cases AllOneLine (is_break c) _ _ (λ _. (refl, rest))
          (λ h. prefix_first-AllOneLine c _ h rest))

module _ (line : Text) (one : IsOneLine line) where
  replace_first-AllOneLine :
      (ls : List Text) {ms : List Text}
      → AllOneLine ls
      → replace_first line ls ≡ some ms
      → AllOneLine ms
  unfolding replace_first
  replace_first-AllOneLine [] a h = cc
  replace_first-AllOneLine (l ∷ ls) a h = elim (Bool-cases (is_name_line l)) [
    | inl n ↦ ground (arith, one)
    | inr n ↦ elim (Option-cases (replace_first line ls)) [
      | inl e ↦ ground arith
      | inr (ns, e) ↦ let rest = replace_first-AllOneLine ls a.1 e in ground arith
    ]
  ]

  insert_after_comments-AllOneLine :
      (ls : List Text) → AllOneLine ls → AllOneLine (insert_after_comments line ls)
  unfolding insert_after_comments
  insert_after_comments-AllOneLine [] a = (one, tt)
  insert_after_comments-AllOneLine (l ∷ ls) a =
      if_cases AllOneLine (is_comment l) _ _ (λ _. (a.0, insert_after_comments-AllOneLine ls a.1))
        (λ _. (one, a))

  set_name_line-AllOneLine : (ls : List Text) → AllOneLine ls → AllOneLine (set_name_line line ls)
  unfolding set_name_line
  set_name_line-AllOneLine ls a = elim (Option-cases (replace_first line ls)) [
    | inl e ↦ rw e (insert_after_comments-AllOneLine ls a)
    | inr (ms, e) ↦ rw e (replace_first-AllOneLine ls a e)
  ]

  insert_after_comments-IsFull : (ls : List Text) → IsFull (insert_after_comments line ls)
  unfolding insert_after_comments
  insert_after_comments-IsFull [] = tt
  insert_after_comments-IsFull (l ∷ ls) = if_cases IsFull (is_comment l) _ _ (λ _. tt) (λ _. tt)

  replace_first-IsFull :
      (ls : List Text) {ms : List Text} → replace_first line ls ≡ some ms → IsFull ms
  unfolding replace_first
  replace_first-IsFull [] h = cc
  replace_first-IsFull (l ∷ ls) {ms} h = elim (Bool-cases (is_name_line l)) [
    | inl n ↦ ground arith
    | inr n ↦ elim (Option-cases (replace_first line ls)) [
      | inl e ↦ ground arith
      | inr (ns, e) ↦ ground arith
    ]
  ]

  set_name_line-IsFull : (ls : List Text) → IsFull (set_name_line line ls)
  unfolding set_name_line
  set_name_line-IsFull ls = elim (Option-cases (replace_first line ls)) [
    | inl e ↦ rw e (insert_after_comments-IsFull ls)
    | inr (ms, e) ↦ rw e (replace_first-IsFull ls e)
  ]

any-append : (f : ℕ → Bool) (s t : Text) → any f (s ++ t) ≡ (any f s || any f t)
any-append f [] t = refl
any-append f (c ∷ s) t = ground (arith, any-append f s t)

name_line-IsOneLine : (name : Text) → IsOneLine name → IsOneLine (name_line name)
unfolding is_break
name_line-IsOneLine name h =
    rw (any-append is_break name (quote_for name ∷ []), h)
      (elim (quote_for-cases name) [ inl e ↦ rw e refl | inr e ↦ rw e refl ])

-- The lines of the rewritten file.
pub splitlines-rewritten :
    (name file : Text)
    → IsOneLine name
    → splitlines (rewritten name file) ≡ set_name_line (name_line name) (splitlines file)
unfolding rewritten
splitlines-rewritten name file h =
    let one = name_line-IsOneLine name h in
    splitlines-joined (set_name_line (name_line name) (splitlines file))
      (set_name_line-IsFull (name_line name) one (splitlines file))
      (set_name_line-AllOneLine (name_line name) one (splitlines file)
        (lines_after-AllOneLine false file))
