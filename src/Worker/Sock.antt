-- ===== src/Worker/Sock.antt =====
-- worker/stoker_agent/sockserver.py: how SocketServer reads one connection.
-- The decoding of a line with the metadata filler (json.loads, make_filler) is a parameter, and so are
-- the answers of the token bucket and of the HEC client. Receive timeouts read nothing and are left out.
-- A connection is read to its end: the ending by stop() or by a socket error, which drops an
-- unterminated rest, is not modelled.
pub mod Stream
pub mod Granting
pub mod Unterminated
use stoker.Prelude.{
  ℕ, zero, suc, ◌+◌, ◌-◌, Bool, true, false, not, ◌&&◌, ◌||◌, Option, none, some, List, [], ◌∷◌,
  ◌++◌, length, take, drop, ltb, ◌==◌, if◌then◌else◌,
}
use mathlib.Core.List.{reverse}
use stoker.Worker.Hec.{Bytes}

-- _MAX_BUFFER
abbrev pub max_buffer : ℕ
max_buffer = 4194304

-- The whitespace that bytes.strip removes.
abbrev pub is_space : ℕ → Bool
is_space c = c == 32 || (ltb 8 c && ltb c 14)

unfoldable pub lstrip : Bytes → Bytes
lstrip [] = []
lstrip (c ∷ cs) = let rest = lstrip cs in if is_space c then rest else c ∷ cs

unfoldable pub strip : Bytes → Bytes
unfolding lstrip
strip line = reverse (lstrip (reverse (lstrip line)))

-- The lines of a text, and its unterminated remainder.
abbrev pub Pieces : Type 0
Pieces = List Bytes × Bytes

abbrev pub push : ℕ → Pieces → Pieces
push c ([], rest) = ([], c ∷ rest)
push c (l ∷ ls, rest) = ((c ∷ l) ∷ ls, rest)

abbrev pub new_line : Pieces → Pieces
new_line (ls, rest) = ([] ∷ ls, rest)

-- chunk.split(b"\n"), with the last piece popped.
unfoldable pub split : Bytes → Pieces
split [] = ([], [])
split (c ∷ cs) = if c == 10 then new_line (split cs) else push c (split cs)

-- What a connection has done: what it handed to the HEC client, in order, and its two counters.
pub record Progress (E : Type 0) : Type 0 where
  pub forwarded : List E
  pub received : ℕ
  pub malformed : ℕ

-- What the event after k forwarded ones meets: whether the bucket lets it pass (acquire, or not closed
-- where the run is not gated), and whether hec.put accepts it.
pub record Gate : Type 0 where
  pub admits : ℕ → Bool
  pub accepts : ℕ → Bool

module _ {E : Type 0} where
  abbrev pub reject : ℕ → Progress E → Progress E
  reject n p = record p { malformed = p.malformed + n }

  abbrev pub accept : List E → Progress E → Progress E
  accept es p = record p { forwarded = p.forwarded ++ es; received = p.received + length es }

  -- The end of _handle_line: pace, and hand over.
  unfoldable pub forward : Gate → E → Progress E → Bool × Progress E
  forward gate e p =
      if gate.admits p.received && gate.accepts p.received
      then (true, accept (e ∷ []) p)
      else (false, p)

  -- A line that is decoded, or is malformed.
  unfoldable pub handle_decoded : Gate → Option E → Progress E → Bool × Progress E
  handle_decoded gate none p = (true, reject 1 p)
  handle_decoded gate (some e) p = forward gate e p

  -- _handle_line; a line of whitespace is skipped.
  unfoldable pub handle_line : (Bytes → Option E) → Gate → Bytes → Progress E → Bool × Progress E
  handle_line decode gate line p =
      if length (strip line) == 0 then (true, p) else handle_decoded gate (decode (strip line)) p

  -- The lines of one chunk, until the first that is refused.
  unfoldable pub handle_lines :
      (Bytes → Option E) → Gate → List Bytes → Progress E → Bool × Progress E
  handle_lines decode gate [] p = (true, p)
  handle_lines decode gate (l ∷ ls) p =
      let (going, q) = handle_line decode gate l p in
      let rest = handle_lines decode gate ls q in if going then rest else (false, q)

  -- An unterminated remainder that is too long is discarded.
  unfoldable pub keep_rest : Bytes → Progress E → Bytes × Progress E
  keep_rest rest p = if ltb max_buffer (length rest) then ([], reject 1 p) else (rest, p)

  -- _read_stream with the "stoker" envelope, over the chunks that recv returns: whether it goes on, its
  -- progress, and its buffer.
  unfoldable pub read_chunks :
      (Bytes → Option E) → Gate → List Bytes → Bytes → Progress E → Bool × Progress E × Bytes
  read_chunks decode gate [] buf p = (true, p, buf)
  read_chunks decode gate (c ∷ cs) buf p =
      let (lines, rest) = split (buf ++ c) in
      let (going, q) = handle_lines decode gate lines p in
      let (kept, r) = keep_rest rest q in
      let next = read_chunks decode gate cs kept r in if going then next else (false, q, rest)

  -- The end of the stream: a remainder that is not blank is one more line.
  unfoldable pub read_stream : (Bytes → Option E) → Gate → List Bytes → Progress E → Progress E
  read_stream decode gate chunks p =
      let (going, q, buf) = read_chunks decode gate chunks [] p in
      if going then (handle_line decode gate buf q).1 else q

-- The shape check of the "hec" envelope, and the line that passes it.
unfoldable pub ends_with : ℕ → Bytes → Bool
ends_with c [] = false
ends_with c (d ∷ []) = d == c
ends_with c (d ∷ e ∷ es) = ends_with c (e ∷ es)

unfoldable pub starts_with : ℕ → Bytes → Bool
starts_with c [] = false
starts_with c (d ∷ ds) = d == c

unfoldable pub object_of : Bytes → Option Bytes
unfolding ends_with starts_with
object_of line = if starts_with 123 line && ends_with 125 line then some line else none

-- The good lines of a chunk and the number of bad ones; blank lines are neither.
unfoldable pub good_lines : List Bytes → List Bytes
good_lines [] = []
good_lines (raw ∷ raws) =
    let rest = good_lines raws in
    if length (strip raw) == 0
    then rest
    else elim (object_of (strip raw)) [ none ↦ rest | some line ↦ line ∷ rest ]

unfoldable pub bad_lines : List Bytes → ℕ
bad_lines [] = 0
bad_lines (raw ∷ raws) =
    let rest = bad_lines raws in
    if length (strip raw) == 0
    then rest
    else elim (object_of (strip raw)) [ none ↦ suc rest | some line ↦ rest ]

-- How many of the n events on offer the bucket grants after k forwarded ones (n where the run is not
-- gated and the bucket open, 0 where it is closed), and whether put_lines accepts them.
pub record Grants : Type 0 where
  pub grant : ℕ → ℕ → ℕ
  pub takes : ℕ → Bool

-- The loop of _handle_hec_lines, on fuel; none where the fuel runs out.
unfoldable pub grant_loop :
    ℕ → Grants → List Bytes → Progress Bytes → Option (Bool × Progress Bytes)
grant_loop zero grants good p = if length good == 0 then some (true, p) else none
grant_loop (suc fuel) grants good p =
    let n = grants.grant p.received (length good) in
    let rest = grant_loop fuel grants (drop n good) (accept (take n good) p) in
    if length good == 0
    then some (true, p)
    else if n == 0 || not (grants.takes p.received)
    then some (false, p)
    else rest

-- _handle_hec_lines
unfoldable pub handle_hec_lines :
    Grants → List Bytes → Progress Bytes → Option (Bool × Progress Bytes)
handle_hec_lines grants raws p =
    grant_loop (length (good_lines raws)) grants (good_lines raws) (reject (bad_lines raws) p)

-- _read_stream with the "hec" envelope; it keeps any remainder.
unfoldable pub read_hec_chunks :
    Grants → List Bytes → Bytes → Progress Bytes → Option (Bool × Progress Bytes × Bytes)
read_hec_chunks grants [] buf p = some (true, p, buf)
read_hec_chunks grants (c ∷ cs) buf p = elim (handle_hec_lines grants (split (buf ++ c)).0 p) [
  | none ↦ none
  | some answer ↦
      let next = read_hec_chunks grants cs (split (buf ++ c)).1 answer.1 in
      if answer.0 then next else some (false, answer.1, (split (buf ++ c)).1)
]
