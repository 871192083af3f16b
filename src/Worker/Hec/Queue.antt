-- ===== src/Worker/Hec/Queue.antt =====
-- HecClient: its bounded queue, the producers and the sender threads, as steps of one shared state.
-- A sender's _send_batch is one step: between its posts it only adds to counters, which commute with
-- what the other threads do, and what it sees of _abort is given with the attempts.
use stoker.Prelude.{
  all, ℕ, zero, suc, ◌+◌, ◌-◌, Bool, true, false, not, ◌&&◌, ◌||◌, Option, none, some, List, [],
  ◌∷◌, ◌++◌, sum, map, length, ltb, leb, ◌==◌, if◌then◌else◌,
}
use stoker.Worker.Hec.{
  Tally, Attempt, Bytes, join_lines, Envelope, Json, serialise_envelope, send_batch,
}

-- What put takes: the bytes of a final object, or an envelope.
pub data Single (V : Type 0) : Type 0 where
  final_object : Bytes → Single V
  dict : Envelope V → Single V

-- What stands in one queue slot: that, or a batch of lines.
pub data Item (V : Type 0) : Type 0 where
  single : Single V → Item V
  line_batch : List Bytes → Item V

-- A sender thread: gathering a batch of a size so far, sending one, or returned.
pub data Sender : Type 0 where
  gathering : List Bytes → ℕ → Sender
  sending : List Bytes → Sender
  returned : Sender

pub record Limits : Type 0 where
  pub batch_bytes : ℕ
  pub queue_max : ℕ
  pub max_attempts : ℕ

-- waiting holds the line batches whose producers have taken space and not yet a slot.
pub record Client (V : Type 0) : Type 0 where
  pub queue : List (Item V)
  pub waiting : List (List Bytes)
  pub line_events : ℕ
  pub line_items : ℕ
  pub tally : Tally
  pub stopping : Bool
  pub abort : Bool
  pub senders : List Sender

-- What one thread does next. A producer waits in put_lines first for space, then for a slot, and may
-- find the client stopped. It looks at _stopping before it puts: put and enqueue say whether it did so
-- before the client was stopped. `close` says whether batch_ms has passed.
pub data ClientOp (V : Type 0) : Type 0 where
  put : Bool → Single V → ClientOp V
  reserve : List Bytes → ClientOp V
  enqueue : Bool → ℕ → ClientOp V
  take : ℕ → ClientOp V
  close : ℕ → Bool → ClientOp V
  send : ℕ → (ℕ → Attempt) → ClientOp V
  leave : ℕ → ClientOp V
  begin_stop set_abort : ClientOp V

-- queue.Queue(maxsize): a bound of 0 is no bound.
abbrev pub is_full : {A : Type 0} → ℕ → List A → Bool
is_full bound queue = ltb 0 bound && leb bound (length queue)

abbrev pub is_empty : {A : Type 0} → List A → Bool
is_empty xs = length xs == 0

-- The element at an index, and the list without it or with another in its place.
module _ {A : Type 0} where
  unfoldable pub at : ℕ → List A → Option A
  at i [] = none
  at zero (x ∷ xs) = some x
  at (suc i) (x ∷ xs) = at i xs

  unfoldable pub remove : ℕ → List A → List A
  remove i [] = []
  remove zero (x ∷ xs) = xs
  remove (suc i) (x ∷ xs) = x ∷ remove i xs

  unfoldable pub replace : ℕ → A → List A → List A
  replace i y [] = []
  replace zero y (x ∷ xs) = y ∷ xs
  replace (suc i) y (x ∷ xs) = x ∷ replace i y xs

module _ {V : Type 0} (limits : Limits) (json : Json V) where
  -- put, and what it raises or waits for.
  unfoldable pub put_item : Bool → Single V → Client V → Client V
  put_item checked item c =
      if c.stopping && not checked || is_full limits.queue_max c.queue
      then c
      else record c { queue = c.queue ++ (single item ∷ []) }

  -- put_lines takes space: in an empty queue, or where the chunk fits.
  unfoldable pub reserve_lines : List Bytes → Client V → Client V
  reserve_lines lines c =
      if is_empty lines
        || c.stopping
        || not (c.line_events == 0 || leb (c.line_events + length lines) limits.queue_max)
      then c
      else record c {
        waiting = lines ∷ c.waiting;
        line_events = c.line_events + length lines;
        line_items = c.line_items + 1;
      }

  -- _release_lines
  unfoldable pub release_lines : ℕ → Client V → Client V
  release_lines n c = record c { line_events = c.line_events - n; line_items = c.line_items - 1 }

  -- put_lines puts the chunk in a slot, or gives its space back when the client is stopped.
  unfoldable pub enqueue_lines : Bool → ℕ → Option (List Bytes) → Client V → Client V
  enqueue_lines checked i none c = c
  enqueue_lines checked i (some lines) c =
      if c.stopping && not checked
      then release_lines (length lines) (record c { waiting = remove i c.waiting })
      else if is_full limits.queue_max c.queue
      then c
      else record c { queue = c.queue ++ (line_batch lines ∷ []); waiting = remove i c.waiting }

  abbrev pub with_sender : ℕ → Sender → Client V → Client V
  with_sender i s c = record c { senders = replace i s c.senders }

  abbrev pub count_invalid : Client V → Client V
  count_invalid c = record c {
    tally = record c.tally {
      totals = record c.tally.totals { dropped_invalid = c.tally.totals.dropped_invalid + 1 };
    };
  }

  -- _serialise_or_count and the end of _absorb
  unfoldable pub absorb_line : ℕ → List Bytes → ℕ → Option Bytes → Client V → Client V
  absorb_line i lines size none c = count_invalid (with_sender i (gathering lines size) c)
  absorb_line i lines size (some line) c =
      with_sender i (gathering (lines ++ (line ∷ [])) (size + (length line + 1))) c

  -- _absorb
  unfoldable pub absorb : ℕ → List Bytes → ℕ → Item V → Client V → Client V
  absorb i lines size (single (final_object bytes)) c = absorb_line i lines size (some bytes) c
  absorb i lines size (single (dict envelope)) c =
      absorb_line i lines size (serialise_envelope json envelope) c
  absorb i lines size (line_batch more) c = release_lines (length more) (
      with_sender i
        (gathering (lines ++ more)
          (size + (sum (map (λ (l : Bytes). length l) more) + length more)))
        c)

  -- A get of _collect_batch that finds an item.
  unfoldable pub take_item : ℕ → Option Sender → List (Item V) → Client V → Client V
  take_item i (some (gathering lines size)) (item ∷ rest) c =
      if is_empty lines || ltb size limits.batch_bytes && not c.abort
      then absorb i lines size item (record c { queue = rest })
      else c
  take_item i _ _ c = c

  -- _collect_batch returns a batch: it is large enough, the time is over, the client is aborted, or it
  -- is stopped and the queue is empty.
  unfoldable pub close_batch : ℕ → Bool → Option Sender → Client V → Client V
  close_batch i timed_out (some (gathering lines size)) c =
      if not (is_empty lines)
        && (leb limits.batch_bytes size || c.abort || timed_out || (c.stopping && is_empty c.queue))
      then with_sender i (sending lines) c
      else c
  close_batch i timed_out _ c = c

  unfoldable pub send_lines : ℕ → (ℕ → Attempt) → Option Sender → Client V → Client V
  send_lines i attempts (some (sending lines)) c = with_sender i (gathering [] 0) (record c {
    tally =
        send_batch limits.max_attempts attempts (length lines) (length (join_lines lines)) c.tally;
  })
  send_lines i attempts _ c = c

  -- _collect_batch returns None, and the thread ends. The get that finds the queue empty and the look at
  -- _stopping after it are one step, between which nothing is put.
  unfoldable pub leave_loop : ℕ → Option Sender → Client V → Client V
  leave_loop i (some (gathering [] size)) c =
      if c.stopping && is_empty c.queue then with_sender i returned c else c
  leave_loop i _ c = c

  unfoldable pub advance : ClientOp V → Client V → Client V
  advance (put checked item) c = put_item checked item c
  advance (reserve lines) c = reserve_lines lines c
  advance (enqueue checked i) c = enqueue_lines checked i (at i c.waiting) c
  advance (take i) c = take_item i (at i c.senders) c.queue c
  advance (close i timed_out) c = close_batch i timed_out (at i c.senders) c
  advance (send i attempts) c = send_lines i attempts (at i c.senders) c
  advance (leave i) c = leave_loop i (at i c.senders) c
  advance begin_stop c = record c { stopping = true }
  advance set_abort c = record c { abort = true }

  unfoldable pub run_ops : List (ClientOp V) → Client V → Client V
  run_ops [] c = c
  run_ops (op ∷ ops) c = run_ops ops (advance op c)

-- _depth
unfoldable pub queue_depth : {V : Type 0} → Client V → ℕ
queue_depth c = (length c.queue - c.line_items) + c.line_events

unfoldable pub has_returned : Sender → Bool
has_returned returned = true
has_returned _ = false

-- What flush_and_stop answers after its joins; if it answers no, it sets _abort.
unfoldable pub is_flushed : {V : Type 0} → Client V → Bool
unfolding has_returned
is_flushed c = is_empty c.queue && all has_returned c.senders
