-- ===== src/Worker/Hec/Space.antt =====
-- The space that line batches take in the queue.
use mathlib.Core.Option.{some-injective}
use stoker.Prelude.{
  if_cases, ℕ, zero, suc, ◌+◌, ◌≤◌, ◌≡◌, refl, ap, ◌⊎◌, Bool, false, not, ◌&&◌, ◌||◌, Option, none,
  some, List, [], ◌∷◌, length, length-append, sum_by, sum_by-append, ltb, arith,
}
use stoker.Worker.Hec.{Attempt, Bytes, Json, serialise_envelope}
use stoker.Worker.Hec.Queue.{
  Single, final_object, dict, Item, single, line_batch, Sender, gathering, sending, Limits, Client,
  ClientOp, is_empty, at, remove, put_item, reserve_lines, release_lines, enqueue_lines,
  absorb_line, absorb, take_item, close_batch, send_lines, leave_loop, advance, run_ops,
}

abbrev pub line_count : {V : Type 0} → Item V → ℕ
line_count (single s) = 0
line_count (line_batch lines) = length lines

abbrev pub line_slot : {V : Type 0} → Item V → ℕ
line_slot (single s) = 0
line_slot (line_batch lines) = 1

abbrev empty_chunk : List Bytes → ℕ
empty_chunk [] = 1
empty_chunk (l ∷ ls) = 0

abbrev empty_item : {V : Type 0} → Item V → ℕ
empty_item (single s) = 0
empty_item (line_batch lines) = empty_chunk lines

-- The counts are those of the batches that are queued or wait for a slot, none of them empty. The
-- lines are no more than the bound, or those of a single batch; the slots are no more than the bound.
pub record HasSpace {V : Type 0} (queue_max : ℕ) (c : Client V) : Type 0 where
  pub events_counted : c.line_events ≡ sum_by line_count c.queue + sum_by length c.waiting
  pub items_counted : c.line_items ≡ sum_by line_slot c.queue + length c.waiting
  pub none_empty : sum_by empty_item c.queue + sum_by empty_chunk c.waiting ≡ 0
  pub bounded : (c.line_events ≤ queue_max) ⊎ (c.line_items ≤ 1)
  pub slots : (queue_max ≡ 0) ⊎ (length c.queue ≤ queue_max)

sum_by-remove :
    {A : Type 0} (f : A → ℕ) (i : ℕ) (x : A) (xs : List A)
    → at i xs ≡ some x
    → sum_by f (remove i xs) + f x ≡ sum_by f xs
unfolding at remove
sum_by-remove f i x [] h = cc
sum_by-remove f zero x (z ∷ xs) h = omega (arith, ap f (some-injective z x h))
sum_by-remove f (suc i) x (z ∷ xs) h = omega (arith, sum_by-remove f i x xs h)

length-remove :
    {A : Type 0} (i : ℕ) (x : A) (xs : List A)
    → at i xs ≡ some x
    → length (remove i xs) + 1 ≡ length xs
unfolding at remove
length-remove i x [] h = cc
length-remove zero x (z ∷ xs) h = omega arith
length-remove (suc i) x (z ∷ xs) h = omega (arith, length-remove i x xs h)

slots-le-lines :
    {V : Type 0} (q : List (Item V))
    → sum_by line_slot q ≤ sum_by line_count q + sum_by empty_item q
slots-le-lines [] = omega arith
slots-le-lines (single s ∷ q) = omega (arith, slots-le-lines q)
slots-le-lines (line_batch [] ∷ q) = omega (arith, slots-le-lines q)
slots-le-lines (line_batch (l ∷ ls) ∷ q) = omega (arith, slots-le-lines q)

chunks-le-lines : (w : List (List Bytes)) → length w ≤ sum_by length w + sum_by empty_chunk w
chunks-le-lines [] = omega arith
chunks-le-lines ([] ∷ w) = omega (arith, chunks-le-lines w)
chunks-le-lines ((l ∷ ls) ∷ w) = omega (arith, chunks-le-lines w)

empty_chunk_zero : (lines : List Bytes) → is_empty lines ≡ false → empty_chunk lines ≡ 0
empty_chunk_zero [] h = cc
empty_chunk_zero (l ∷ ls) h = refl

module _ {V : Type 0} (limits : Limits) (json : Json V) where
  put-HasSpace :
      (checked : Bool) (item : Single V) (c : Client V)
      → HasSpace limits.queue_max c
      → HasSpace limits.queue_max (put_item limits json checked item c)
  unfolding put_item
  put-HasSpace checked item c h = ground (
    arith,
    sum_by-append line_count c.queue (single item ∷ []),
    sum_by-append line_slot c.queue (single item ∷ []),
    sum_by-append empty_item c.queue (single item ∷ []),
    length-append c.queue (single item ∷ []),
  )

  reserve-HasSpace :
      (lines : List Bytes) (c : Client V)
      → HasSpace limits.queue_max c
      → HasSpace limits.queue_max (reserve_lines limits json lines c)
  unfolding reserve_lines
  reserve-HasSpace lines c h =
      ground (arith, slots-le-lines c.queue, chunks-le-lines c.waiting, empty_chunk_zero lines)

  enqueue-HasSpace :
      (checked : Bool) (i : ℕ) (found : Option (List Bytes)) (c : Client V)
      → at i c.waiting ≡ found
      → HasSpace limits.queue_max c
      → HasSpace limits.queue_max (enqueue_lines limits json checked i found c)
  unfolding enqueue_lines release_lines
  enqueue-HasSpace checked i none c e h = h
  enqueue-HasSpace checked i (some lines) c e h = ground (
    arith,
    sum_by-append line_count c.queue (line_batch lines ∷ []),
    sum_by-append line_slot c.queue (line_batch lines ∷ []),
    sum_by-append empty_item c.queue (line_batch lines ∷ []),
    length-append c.queue (line_batch lines ∷ []),
    sum_by-remove length i lines c.waiting e,
    sum_by-remove empty_chunk i lines c.waiting e,
    length-remove i lines c.waiting e,
  )

  single-HasSpace :
      (s : Single V) (rest : List (Item V)) (c : Client V)
      → c.queue ≡ single s ∷ rest
      → HasSpace limits.queue_max c
      → HasSpace limits.queue_max (record c { queue = rest })
  single-HasSpace s rest c q h = ground (
    arith,
    ap (sum_by line_count) q,
    ap (sum_by line_slot) q,
    ap (sum_by empty_item) q,
    ap length q,
  )

  line-HasSpace :
      (i : ℕ) (lines : List Bytes) (size : ℕ) (line : Option Bytes) (c : Client V)
      → HasSpace limits.queue_max c
      → HasSpace limits.queue_max (absorb_line limits json i lines size line c)
  unfolding absorb_line
  line-HasSpace i lines size none c h = ground arith
  line-HasSpace i lines size (some line) c h = ground arith

  -- An item leaves the queue.
  absorb-HasSpace :
      (i : ℕ) (lines : List Bytes) (size : ℕ) (item : Item V) (rest : List (Item V)) (c : Client V)
      → c.queue ≡ item ∷ rest
      → HasSpace limits.queue_max c
      → HasSpace limits.queue_max (absorb limits json i lines size item (record c { queue = rest }))
  unfolding absorb release_lines
  absorb-HasSpace i lines size (single (final_object bytes)) rest c q h =
      line-HasSpace i lines size (some bytes) (record c { queue = rest })
        (single-HasSpace _ rest c q h)
  absorb-HasSpace i lines size (single (dict envelope)) rest c q h =
      line-HasSpace i lines size (serialise_envelope json envelope) (record c { queue = rest })
        (single-HasSpace _ rest c q h)
  absorb-HasSpace i lines size (line_batch more) rest c q h = ground (
    arith,
    ap (sum_by line_count) q,
    ap (sum_by line_slot) q,
    ap (sum_by empty_item) q,
    ap length q,
  )

  take-HasSpace :
      (i : ℕ) (s : Option Sender) (queue : List (Item V)) (c : Client V)
      → c.queue ≡ queue
      → HasSpace limits.queue_max c
      → HasSpace limits.queue_max (take_item limits json i s queue c)
  unfolding take_item
  take-HasSpace i (some (gathering lines size)) (item ∷ rest) c q h =
      if_cases (λ (x : Client V). HasSpace limits.queue_max x)
        (is_empty lines || ltb size limits.batch_bytes && not c.abort)
        (absorb limits json i lines size item (record c { queue = rest })) c
        (λ _. absorb-HasSpace i lines size item rest c q h) (λ _. h)
  take-HasSpace i _ _ c q h = h

  close-HasSpace :
      (i : ℕ) (timed_out : Bool) (s : Option Sender) (c : Client V)
      → HasSpace limits.queue_max c
      → HasSpace limits.queue_max (close_batch limits json i timed_out s c)
  unfolding close_batch
  close-HasSpace i timed_out (some (gathering lines size)) c h = ground arith
  close-HasSpace i timed_out _ c h = h

  send-HasSpace :
      (i : ℕ) (attempts : ℕ → Attempt) (s : Option Sender) (c : Client V)
      → HasSpace limits.queue_max c
      → HasSpace limits.queue_max (send_lines limits json i attempts s c)
  unfolding send_lines
  send-HasSpace i attempts (some (sending lines)) c h = ground arith
  send-HasSpace i attempts _ c h = h

  leave-HasSpace :
      (i : ℕ) (s : Option Sender) (c : Client V)
      → HasSpace limits.queue_max c
      → HasSpace limits.queue_max (leave_loop limits json i s c)
  unfolding leave_loop
  leave-HasSpace i (some (gathering [] size)) c h = ground arith
  leave-HasSpace i _ c h = h

  advance-HasSpace :
      (op : ClientOp V) (c : Client V)
      → HasSpace limits.queue_max c
      → HasSpace limits.queue_max (advance limits json op c)
  unfolding advance
  advance-HasSpace (ClientOp.put checked item) c h = put-HasSpace checked item c h
  advance-HasSpace (ClientOp.reserve lines) c h = reserve-HasSpace lines c h
  advance-HasSpace (ClientOp.enqueue checked i) c h =
      enqueue-HasSpace checked i (at i c.waiting) c refl h
  advance-HasSpace (ClientOp.take i) c h = take-HasSpace i (at i c.senders) c.queue c refl h
  advance-HasSpace (ClientOp.close i timed_out) c h =
      close-HasSpace i timed_out (at i c.senders) c h
  advance-HasSpace (ClientOp.send i attempts) c h = send-HasSpace i attempts (at i c.senders) c h
  advance-HasSpace (ClientOp.leave i) c h = leave-HasSpace i (at i c.senders) c h
  advance-HasSpace ClientOp.begin_stop c h = ground arith
  advance-HasSpace ClientOp.set_abort c h = ground arith

  -- Across any steps of any producers and senders, the line counts of the client are those of the
  -- batches that are queued or whose producers wait for a slot, and no such batch is empty; the lines
  -- are at most queue_max in number, or stand in a single batch; and the slots are at most queue_max,
  -- where that is not 0.
  pub run_ops-HasSpace :
      (ops : List (ClientOp V)) (c : Client V)
      → HasSpace limits.queue_max c
      → HasSpace limits.queue_max (run_ops limits json ops c)
  unfolding run_ops
  run_ops-HasSpace [] c h = h
  run_ops-HasSpace (op ∷ ops) c h =
      run_ops-HasSpace ops (advance limits json op c) (advance-HasSpace op c h)
