-- ===== src/Packs/Rename/Placing.antt =====
-- Where set_name_line puts the line.
use stoker.Prelude.{
  true, ◌≡◌, refl, ap, Option, none, some, List, [], ◌∷◌, ◌++◌, arith, if◌then◌else◌, ◌∙◌, ◌⊎◌,
  Bool-cases, inl, inr, or_else, Option-cases,
}
use stoker.Packs.Text.{Text}
use stoker.Packs.Rename.{
  replace_first, insert_after_comments, set_name_line, is_name_line, is_comment,
}

-- The lines after the first one that rewrite_pack_yaml takes for the name's.
abbrev pub after_name : List Text → Option (List Text)
after_name [] = none
after_name (l ∷ ls) = let rest = after_name ls in if is_name_line l then some ls else rest

-- All lines, where there is no such line.
abbrev pub later_lines : List Text → List Text
later_lines ls = or_else (after_name ls) ls

abbrev pub AreComments : List Text → Type 0
AreComments [] = Unit {0}
AreComments (l ∷ ls) = (is_comment l ≡ true) × AreComments ls

-- The line stands for the first one that names the pack.
pub record Replaced (line : Text) (ls ms : List Text) : Type 0 where
  pub before : List Text
  pub old : Text
  pub after : List Text
  pub old_name : is_name_line old ≡ true
  pub lines : ls ≡ before ++ (old ∷ after)
  pub new_lines : ms ≡ before ++ (line ∷ after)
  pub later : after_name ls ≡ some after

-- No line names the pack, and the line stands after the comments at the start.
pub record Inserted (line : Text) (ls ms : List Text) : Type 0 where
  pub before : List Text
  pub after : List Text
  pub comments : AreComments before
  pub lines : ls ≡ before ++ after
  pub new_lines : ms ≡ before ++ (line ∷ after)

module _ (line : Text) where
  replace_first-Replaced :
      (ls : List Text) {ms : List Text} → replace_first line ls ≡ some ms → Replaced line ls ms
  unfolding replace_first
  replace_first-Replaced [] h = cc
  replace_first-Replaced (l ∷ ls) {ms} h = elim (Bool-cases (is_name_line l)) [
    | inl n ↦ record {
      before = [];
      old = l;
      after = ls;
      old_name = n;
      lines = refl;
      new_lines = ground arith;
      later = rw n refl;
    }
    | inr n ↦ elim (Option-cases (replace_first line ls)) [
      | inl z ↦ ground arith
      | inr (ns, z) ↦
          let r = replace_first-Replaced ls z in
          let e : ms ≡ l ∷ ns = ground arith in
          record {
            before = l ∷ r.before;
            old = r.old;
            after = r.after;
            old_name = r.old_name;
            lines = ap (λ (ks : List Text). l ∷ ks) r.lines;
            new_lines = e ∙ ap (λ (ks : List Text). l ∷ ks) r.new_lines;
            later = rw n r.later;
          }
    ]
  ]

  replace_first-none : (ls : List Text) → replace_first line ls ≡ none → after_name ls ≡ none
  unfolding replace_first
  replace_first-none [] h = refl
  replace_first-none (l ∷ ls) h = elim (Bool-cases (is_name_line l)) [
    | inl n ↦ ground arith
    | inr n ↦ elim (Option-cases (replace_first line ls)) [
      | inl z ↦ rw n (replace_first-none ls z)
      | inr (ns, z) ↦ ground arith
    ]
  ]

  insert_after_comments-Inserted :
      (ls : List Text) → Inserted line ls (insert_after_comments line ls)
  unfolding insert_after_comments
  insert_after_comments-Inserted [] = record {
    before = [];
    after = [];
    comments = tt;
    lines = refl;
    new_lines = refl;
  }
  insert_after_comments-Inserted (l ∷ ls) = elim (Bool-cases (is_comment l)) [
    | inl c ↦
        let r = insert_after_comments-Inserted ls in
        record {
          before = l ∷ r.before;
          after = r.after;
          comments = (c, r.comments);
          lines = ap (λ (ks : List Text). l ∷ ks) r.lines;
          new_lines = rw c (ap (λ (ks : List Text). l ∷ ks) r.new_lines);
        }
    | inr c ↦ record {
      before = [];
      after = l ∷ ls;
      comments = tt;
      lines = refl;
      new_lines = rw c refl;
    }
  ]

  pub set_name_line-cases :
      (ls : List Text)
      → Replaced line ls (set_name_line line ls)
        ⊎ (Inserted line ls (set_name_line line ls) × (after_name ls ≡ none))
  unfolding set_name_line
  set_name_line-cases ls = elim (Option-cases (replace_first line ls)) [
    | inl z ↦ rw z (inr (insert_after_comments-Inserted ls, replace_first-none ls z))
    | inr (ms, z) ↦ rw z (inl (replace_first-Replaced ls z))
  ]
