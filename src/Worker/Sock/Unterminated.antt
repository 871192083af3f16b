-- ===== src/Worker/Sock/Unterminated.antt =====
-- Bytes with no end of line, with either envelope.
use stoker.Prelude.{
  inl, inr, Bool-cases, ◌≤◌, ◌≡◌, refl, sym, true, Option, some, List, [], ◌∷◌, ◌++◌, length, ltb,
  arith,
}
use mathlib.Core.List.{append_assoc, append-nil}
use stoker.Worker.Hec.{Bytes}
use stoker.Worker.Sock.{
  max_buffer, Progress, Gate, reject, Grants, grant_loop, good_lines, bad_lines, handle_hec_lines,
  handle_lines, keep_rest, read_chunks, read_hec_chunks,
}
use stoker.Worker.Sock.Stream.{NoNewline, split-NoNewline, joined}

NoNewline-left : (xs ys : Bytes) → NoNewline (xs ++ ys) → NoNewline xs
NoNewline-left [] ys h = tt
NoNewline-left (x ∷ xs) ys h = (h.0, NoNewline-left xs ys h.1)

no_lines : (grants : Grants) (p : Progress Bytes) → handle_hec_lines grants [] p ≡ some (true, p)
unfolding handle_hec_lines grant_loop good_lines bad_lines
no_lines grants p = ground arith

read_hec_chunks-from :
    (grants : Grants) (chunks : List Bytes) (buf : Bytes) (p : Progress Bytes)
    → NoNewline (buf ++ joined chunks)
    → read_hec_chunks grants chunks buf p ≡ some (true, p, buf ++ joined chunks)
unfolding read_hec_chunks
read_hec_chunks-from grants [] buf p h = rw (append-nil buf) refl
read_hec_chunks-from grants (c ∷ cs) buf p h =
    let whole = rw (sym (append_assoc buf c (joined cs))) at h in
    let kept = split-NoNewline (buf ++ c) (NoNewline-left (buf ++ c) (joined cs) whole) in
    rw (sym (append_assoc buf c (joined cs))) (
      rw (kept, no_lines grants p, read_hec_chunks)
        (rw kept (read_hec_chunks-from grants cs (buf ++ c) p whole)))

NoNewline-append : (xs ys : Bytes) → NoNewline xs → NoNewline ys → NoNewline (xs ++ ys)
NoNewline-append [] ys h k = k
NoNewline-append (x ∷ xs) ys h k = (h.0, NoNewline-append xs ys h.1 k)

NoNewline-right : (xs ys : Bytes) → NoNewline (xs ++ ys) → NoNewline ys
NoNewline-right [] ys h = h
NoNewline-right (x ∷ xs) ys h = NoNewline-right xs ys h.1

module _ {E : Type 0} (decode : Bytes → Option E) (gate : Gate) where
  read_chunks-bounded :
      (chunks : List Bytes) (buf : Bytes) (p : Progress E)
      → NoNewline buf
      → NoNewline (joined chunks)
      → length buf ≤ max_buffer
      → length (read_chunks decode gate chunks buf p).2 ≤ max_buffer
  unfolding read_chunks handle_lines keep_rest
  read_chunks-bounded [] buf p n m b = b
  read_chunks-bounded (c ∷ cs) buf p n m b =
      let rest = NoNewline-append buf c n (NoNewline-left c (joined cs) m) in
      let after = NoNewline-right c (joined cs) m in
      rw (split-NoNewline (buf ++ c) rest) (elim (Bool-cases (ltb max_buffer (length (buf ++ c)))) [
        | inl e ↦ rw e (read_chunks-bounded cs [] (reject 1 p) tt after (omega arith))
        | inr e ↦ rw e (read_chunks-bounded cs (buf ++ c) p rest after (ground arith))
      ])

-- Of a stream with no end of line, the "stoker" envelope never buffers more than the bound, however it
-- is cut into chunks; the "hec" envelope keeps all of it in its buffer, of whatever length, and counts
-- nothing as malformed.
pub unterminated-kept :
    {E : Type 0} (decode : Bytes → Option E) (gate : Gate) (grants : Grants) (chunks : List Bytes)
    (p : Progress E) (q : Progress Bytes)
    → NoNewline (joined chunks)
    → (length (read_chunks decode gate chunks [] p).2 ≤ max_buffer)
      × (read_hec_chunks grants chunks [] q ≡ some (true, q, joined chunks))
unterminated-kept decode gate grants chunks p q n = (
  read_chunks-bounded decode gate chunks [] p tt n (omega arith),
  read_hec_chunks-from grants chunks [] q n,
)
