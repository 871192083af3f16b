-- ===== src/Worker/Sock/Stream.antt =====
-- How a connection's bytes are cut into chunks and lines.
use stoker.Prelude.{
  if_cases, ℕ, ◌+◌, ◌≤◌, ◌≡◌, refl, sym, ap, ◌∙◌, inl, inr, Bool, true, false, List, [], ◌∷◌, ◌++◌,
  length, ltb, ◌==◌, if◌then◌else◌, arith, Bool-cases, Option,
}
use mathlib.Core.List.{append_assoc, append-nil}
use stoker.Worker.Hec.{Bytes}
use stoker.Worker.Sock.{
  max_buffer, Pieces, push, new_line, split, Progress, Gate, handle_line, handle_lines, keep_rest,
  read_chunks, read_stream,
}

-- More bytes after the remainder of some pieces.
abbrev glue : Pieces → Bytes → Pieces
glue p ys = (p.0 ++ (split (p.1 ++ ys)).0, (split (p.1 ++ ys)).1)

push-glue :
    (c : ℕ) (p : Pieces) (ys : Bytes) → (c == 10) ≡ false → push c (glue p ys) ≡ glue (push c p) ys
unfolding split
push-glue c ([], rest) ys e = rw e refl
push-glue c (l ∷ ls, rest) ys e = refl

split-append : (xs ys : Bytes) → split (xs ++ ys) ≡ glue (split xs) ys
unfolding split
split-append [] ys = refl
split-append (c ∷ xs) ys = elim (Bool-cases (c == 10)) [
  | inl e ↦ rw e (ap new_line (split-append xs ys))
  | inr e ↦ rw e (ap (push c) (split-append xs ys) ∙ push-glue c (split xs) ys e)
]

handle_lines-append :
    {E : Type 0} (decode : Bytes → Option E) (gate : Gate) (ls ms : List Bytes) (p : Progress E)
    → handle_lines decode gate (ls ++ ms) p ≡ (
        if (handle_lines decode gate ls p).0
        then handle_lines decode gate ms (handle_lines decode gate ls p).1
        else (false, (handle_lines decode gate ls p).1))
unfolding handle_lines
handle_lines-append decode gate [] ms p = refl
handle_lines-append decode gate (l ∷ ls) ms p =
    ground (arith, handle_lines-append decode gate ls ms (handle_line decode gate l p).1)

abbrev pub NoNewline : Bytes → Type 0
NoNewline [] = Unit {0}
NoNewline (c ∷ cs) = ((c == 10) ≡ false) × NoNewline cs

push-NoNewline : (c : ℕ) (p : Pieces) → (c == 10) ≡ false → NoNewline p.1 → NoNewline (push c p).1
push-NoNewline c ([], rest) e h = (e, h)
push-NoNewline c (l ∷ ls, rest) e h = h

rest-NoNewline : (xs : Bytes) → NoNewline (split xs).1
unfolding split
rest-NoNewline [] = tt
rest-NoNewline (c ∷ xs) = elim (Bool-cases (c == 10)) [
  | inl e ↦ rw e (rest-NoNewline xs)
  | inr e ↦ rw e (push-NoNewline c (split xs) e (rest-NoNewline xs))
]

abbrev AllShort : ℕ → List Bytes → Type 0
AllShort bound [] = Unit {0}
AllShort bound (l ∷ ls) = (length l ≤ bound) × AllShort bound ls

-- No line of the stream, and no unterminated remainder, is longer than the bound.
abbrev pub Short : ℕ → Pieces → Type 0
Short bound p = AllShort bound p.0 × (length p.1 ≤ bound)

AllShort-rest : (bound : ℕ) (ls ms : List Bytes) → AllShort bound (ls ++ ms) → AllShort bound ms
AllShort-rest bound [] ms h = h
AllShort-rest bound (l ∷ ls) ms h = AllShort-rest bound ls ms h.1

abbrev first_length : Pieces → ℕ
first_length ([], rest) = length rest
first_length (l ∷ ls, rest) = length l

first_length-push : (c : ℕ) (p : Pieces) → first_length (push c p) ≡ first_length p + 1
first_length-push c ([], rest) = omega arith
first_length-push c (l ∷ ls, rest) = omega arith

first_length-le : (r ys : Bytes) → NoNewline r → length r ≤ first_length (split (r ++ ys))
unfolding split
first_length-le [] ys h = omega arith
first_length-le (c ∷ r) ys h =
    rw (h.0) (omega (arith, first_length-push c (split (r ++ ys)), first_length-le r ys h.1))

Short-first : (bound : ℕ) (p : Pieces) → Short bound p → first_length p ≤ bound
Short-first bound ([], rest) h = h.1
Short-first bound (l ∷ ls, rest) h = h.0.0

-- The chunks in one piece.
abbrev pub joined : List Bytes → Bytes
joined [] = []
joined (c ∷ cs) = c ++ joined cs

pub split-NoNewline : (xs : Bytes) → NoNewline xs → split xs ≡ ([], xs)
unfolding split
split-NoNewline [] h = refl
split-NoNewline (c ∷ xs) h = rw h.0 (ap (push c) (split-NoNewline xs h.1))

-- The remainder of the first bytes is short where those of the whole are.
length-rest_le :
    (bound : ℕ) (xs ys : Bytes) → Short bound (split (xs ++ ys)) → length (split xs).1 ≤ bound
length-rest_le bound xs ys h =
    let after = short_after bound xs ys h in
    omega (
      arith,
      first_length-le (split xs).1 ys (rest-NoNewline xs),
      Short-first bound (split ((split xs).1 ++ ys)) after,
    )
  where
    short_after :
        (bound : ℕ) (xs ys : Bytes)
        → Short bound (split (xs ++ ys))
        → Short bound (split ((split xs).1 ++ ys))
    short_after bound xs ys h =
        let g = rw (split-append xs ys) at h in (AllShort-rest bound (split xs).0 _ g.0, g.1)

module _ {E : Type 0} (decode : Bytes → Option E) (gate : Gate) where
  -- What reading amounts to, once the pieces of all bytes are known.
  abbrev ReadAs : Pieces → Progress E → Bool × Progress E × Bytes → Type 0
  ReadAs pieces p r =
      (r.0 ≡ (handle_lines decode gate pieces.0 p).0)
      × (r.1 ≡ (handle_lines decode gate pieces.0 p).1)
      × (r.0 ≡ true → r.2 ≡ pieces.1)

  read_more :
      (c : Bytes) (cs : List Bytes) (buf : Bytes) (p : Progress E)
      → length (split (buf ++ c)).1 ≤ max_buffer
      → read_chunks decode gate (c ∷ cs) buf p ≡ (
          if (handle_lines decode gate (split (buf ++ c)).0 p).0
          then read_chunks decode gate cs
              (split (buf ++ c)).1
              (handle_lines decode gate (split (buf ++ c)).0 p).1
          else (false, (handle_lines decode gate (split (buf ++ c)).0 p).1, (split (buf ++ c)).1))
  unfolding read_chunks keep_rest
  read_more c cs buf p h = elim (Bool-cases (ltb max_buffer (length (split (buf ++ c)).1))) [
    | inl e ↦ absurd (ground arith)
    | inr e ↦ rw e refl
  ]

  refused-ReadAs :
      (first : Pieces) (more kept : Bytes) (p : Progress E)
      → (handle_lines decode gate first.0 p).0 ≡ false
      → ReadAs (glue first more) p (false, (handle_lines decode gate first.0 p).1, kept)
  refused-ReadAs first more kept p h =
      rw (handle_lines-append decode gate first.0 (split (first.1 ++ more)).0 p)
        (rw h (refl, refl, λ e. cc e))

  going-ReadAs :
      (first : Pieces) (more : Bytes) (p : Progress E) (r : Bool × Progress E × Bytes)
      → (handle_lines decode gate first.0 p).0 ≡ true
      → ReadAs (split (first.1 ++ more)) (handle_lines decode gate first.0 p).1 r
      → ReadAs (glue first more) p r
  going-ReadAs first more p r h q =
      rw (handle_lines-append decode gate first.0 (split (first.1 ++ more)).0 p) (rw h q)

  read_chunks-ReadAs :
      (chunks : List Bytes) (buf : Bytes) (p : Progress E)
      → NoNewline buf
      → Short max_buffer (split (buf ++ joined chunks))
      → ReadAs (split (buf ++ joined chunks)) p (read_chunks decode gate chunks buf p)
  read_chunks-ReadAs [] buf p n h =
      rw (append-nil buf)
        (rw (split-NoNewline buf n) (unfold read_chunks handle_lines in (refl, refl, λ e. refl)))
  read_chunks-ReadAs (c ∷ cs) buf p n h =
      let first : Pieces = split (buf ++ c) in
      let shorter = rw (sym (append_assoc buf c (joined cs))) at h in
      let glued = rw (split-append (buf ++ c) (joined cs)) at shorter in
      rw (sym (append_assoc buf c (joined cs))) (
        rw (split-append (buf ++ c) (joined cs)) (
          rw (read_more c cs buf p (length-rest_le max_buffer (buf ++ c) (joined cs) shorter)) (
            if_cases (λ (r : Bool × Progress E × Bytes). ReadAs (glue first (joined cs)) p r)
              (handle_lines decode gate first.0 p).0 _ _
              (λ going. going-ReadAs first (joined cs) p _ going (
                read_chunks-ReadAs cs first.1 (handle_lines decode gate first.0 p).1
                  (rest-NoNewline (buf ++ c))
                  (AllShort-rest max_buffer first.0 _ glued.0, glued.1)))
              (λ refused. refused-ReadAs first (joined cs) first.1 p refused))))

  -- The lines of a stream, then its remainder, as one more line.
  abbrev pub handle_pieces : Pieces → Progress E → Progress E
  handle_pieces pieces p =
      let (going, q) = handle_lines decode gate pieces.0 p in
      if going then (handle_line decode gate pieces.1 q).1 else q

  -- A connection with the stoker envelope, where no line is longer than the buffer may be, is read as its
  -- bytes are in one piece, however recv cuts them into chunks: each line is handled once and in order
  -- until the first that is refused, and the unterminated remainder at the end of the stream as one more
  -- line. Nothing is said of the hec envelope, whose lines are handled chunk by chunk.
  pub read_stream-eq-pieces :
      (chunks : List Bytes) (p : Progress E)
      → Short max_buffer (split (joined chunks))
      → read_stream decode gate chunks p ≡ handle_pieces (split (joined chunks)) p
  unfolding read_stream
  read_stream-eq-pieces chunks p h =
      let reads = read_chunks-ReadAs chunks [] p tt h in
      elim (Bool-cases (read_chunks decode gate chunks [] p).0) [
        | inl e ↦ rw (e, sym (reads.0) ∙ e, reads.1, reads.2 e) refl
        | inr e ↦ rw (e, sym (reads.0) ∙ e, reads.1) refl
      ]
