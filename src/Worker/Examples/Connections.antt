-- ===== src/Worker/Examples/Connections.antt =====
-- Two connections of small texts, and one with no end of line.
use stoker.Prelude.{
  ℕ, zero, suc, ◌+◌, ◌≤◌, ◌≡◌, refl, true, false, Option, some, List, [], ◌∷◌, ◌++◌, length,
  replicate, arith,
}
use stoker.Worker.Hec.{Bytes}
use stoker.Worker.Sock.{
  max_buffer, split, Progress, Gate, reject, Grants, good_lines, bad_lines, handle_hec_lines,
  read_stream, read_chunks, read_hec_chunks,
}
use stoker.Worker.Sock.Stream.{NoNewline, joined, handle_pieces, read_stream-eq-pieces}
use stoker.Worker.Sock.Granting.{Outcome, handle_hec_lines-Outcome}
use stoker.Worker.Sock.Unterminated.{unterminated-kept}

abbrev nothing : {E : Type 0} → Progress E
nothing = record { forwarded = []; received = 0; malformed = 0 }

abbrev whole_line : Bytes → Option Bytes
whole_line line = some line

-- A gate that closes after two events.
abbrev two_pass : Gate
two_pass = record {
  admits = λ k. elim k [ zero ↦ true | suc m ↦ elim m [ zero ↦ true | suc n ↦ false ] ];
  accepts = λ k. true;
}

-- "ab\nc" and "d\nef"
abbrev two_chunks : List Bytes
two_chunks = (97 ∷ 98 ∷ 10 ∷ 99 ∷ []) ∷ (100 ∷ 10 ∷ 101 ∷ 102 ∷ []) ∷ []

read_stream-eq-pieces_example :
    read_stream whole_line two_pass two_chunks nothing
    ≡ handle_pieces whole_line two_pass (split (joined two_chunks)) nothing
unfolding split
read_stream-eq-pieces_example =
    read_stream-eq-pieces whole_line two_pass two_chunks nothing (omega arith)

-- One line at each grant.
abbrev one_each : Grants
one_each = record { grant = λ k n. 1; takes = λ k. true }

-- "{}", " ", "x", "{1}"
abbrev four_lines : List Bytes
four_lines = (123 ∷ 125 ∷ []) ∷ (32 ∷ []) ∷ (120 ∷ []) ∷ (123 ∷ 49 ∷ 125 ∷ []) ∷ []

handle_hec_lines-Outcome_example :
    Outcome
      (good_lines four_lines)
      (reject (bad_lines four_lines) nothing)
      (handle_hec_lines one_each four_lines nothing)
handle_hec_lines-Outcome_example = handle_hec_lines-Outcome one_each four_lines nothing

-- n letters "a"
letters : ℕ → Bytes
letters n = replicate n 97

joined_letters-NoNewline : (n : ℕ) → NoNewline (letters n ++ [])
unfolding letters
joined_letters-NoNewline zero = tt
joined_letters-NoNewline (suc n) = (refl, joined_letters-NoNewline n)

abbrev a_long_chunk : Bytes
a_long_chunk = letters (max_buffer + 1)

unterminated-kept_example :
    (length (read_chunks whole_line two_pass (a_long_chunk ∷ []) [] nothing).2 ≤ max_buffer)
    × (read_hec_chunks one_each (a_long_chunk ∷ []) [] nothing
        ≡ some (true, nothing, joined (a_long_chunk ∷ [])))
unterminated-kept_example =
    unterminated-kept whole_line two_pass one_each (a_long_chunk ∷ []) nothing nothing
      (joined_letters-NoNewline (max_buffer + 1))
