-- ===== src/Worker/Hec/Accounts.antt =====
-- The counts of the events that the client accepts.
use mathlib.Core.Option.{some-injective}
use stoker.Prelude.{
  and-true, all, sum, map, ℕ, zero, suc, ◌+◌, ◌≡◌, refl, ap, Bool, true, not, ◌&&◌, ◌||◌, Option,
  none, some, List, [], ◌∷◌, ◌++◌, length, length-append, sum_by, sum_by-append, if◌then◌else◌,
  arith,
}
use stoker.Worker.Hec.{Attempt, send_batch, Bytes, Json, serialise_envelope, join_lines}
use stoker.Worker.Hec.Settled.{settled, settled-send_from}
use stoker.Worker.Hec.Queue.{
  Single, final_object, dict, Item, single, line_batch, Sender, gathering, sending, returned,
  Limits, Client, ClientOp, is_full, is_empty, at, replace, has_returned, is_flushed, with_sender,
  put_item, reserve_lines, release_lines, enqueue_lines, absorb_line, absorb, take_item,
  close_batch, send_lines, leave_loop, advance, run_ops,
}

abbrev pub events_of : {V : Type 0} → Item V → ℕ
events_of (single s) = 1
events_of (line_batch lines) = length lines

abbrev pub held : Sender → ℕ
held (gathering lines size) = length lines
held (sending lines) = length lines
held returned = 0

sum_by-replace :
    {A : Type 0} (f : A → ℕ) (i : ℕ) (x y : A) (xs : List A)
    → at i xs ≡ some x
    → sum_by f (replace i y xs) + f x ≡ sum_by f xs + f y
unfolding at replace
sum_by-replace f i x y [] h = cc
sum_by-replace f zero x y (z ∷ xs) h = omega (arith, ap f (some-injective z x h))
sum_by-replace f (suc i) x y (z ∷ xs) h = omega (arith, sum_by-replace f i x y xs h)

-- Waiting in the queue, in a sender's hands, or settled.
abbrev pub accounted : {V : Type 0} → Client V → ℕ
accounted c = sum_by events_of c.queue + sum_by held c.senders + settled c.tally

abbrev enqueued : ℕ → Bool → {V : Type 0} → Option (List Bytes) → Client V → ℕ
enqueued queue_max checked none c = 0
enqueued queue_max checked (some lines) c =
    if c.stopping && not checked || is_full queue_max c.queue then 0 else length lines

-- The events that an operation makes the client accept.
abbrev pub accepted : {V : Type 0} → Limits → ClientOp V → Client V → ℕ
accepted limits (ClientOp.put checked item) c =
    if c.stopping && not checked || is_full limits.queue_max c.queue then 0 else 1
accepted limits (ClientOp.enqueue checked i) c =
    enqueued limits.queue_max checked (at i c.waiting) c
accepted limits _ c = 0

module _ {V : Type 0} (limits : Limits) (json : Json V) where
  put-accounted :
      (checked : Bool) (item : Single V) (c : Client V)
      → accounted (put_item limits json checked item c)
        ≡ accounted c + accepted limits (ClientOp.put checked item) c
  unfolding put_item
  put-accounted checked item c = ground (arith, sum_by-append events_of c.queue (single item ∷ []))

  reserve-accounted :
      (lines : List Bytes) (c : Client V)
      → accounted (reserve_lines limits json lines c) ≡ accounted c
  unfolding reserve_lines
  reserve-accounted lines c = ground arith

  enqueue-accounted :
      (checked : Bool) (i : ℕ) (found : Option (List Bytes)) (c : Client V)
      → accounted (enqueue_lines limits json checked i found c)
        ≡ accounted c + enqueued limits.queue_max checked found c
  unfolding enqueue_lines release_lines
  enqueue-accounted checked i none c = omega arith
  enqueue-accounted checked i (some lines) c =
      ground (arith, sum_by-append events_of c.queue (line_batch lines ∷ []))

  with_sender-accounted :
      (i : ℕ) (s t : Sender) (c : Client V)
      → at i c.senders ≡ some s
      → accounted (with_sender limits json i t c) + held s ≡ accounted c + held t
  with_sender-accounted i s t c h = omega (arith, sum_by-replace held i s t c.senders h)

  line-accounted :
      (i : ℕ) (lines : List Bytes) (size : ℕ) (line : Option Bytes) (c : Client V)
      → at i c.senders ≡ some (gathering lines size)
      → accounted (absorb_line limits json i lines size line c) ≡ accounted c + 1
  unfolding absorb_line
  line-accounted i lines size none c h =
      omega (arith, with_sender-accounted i (gathering lines size) (gathering lines size) c h)
  line-accounted i lines size (some line) c h = omega (
    arith,
    with_sender-accounted i (gathering lines size)
        (gathering (lines ++ (line ∷ [])) (size + (length line + 1))) c h,
    length-append lines (line ∷ []),
  )

  absorb-accounted :
      (i : ℕ) (lines : List Bytes) (size : ℕ) (item : Item V) (c : Client V)
      → at i c.senders ≡ some (gathering lines size)
      → accounted (absorb limits json i lines size item c) ≡ accounted c + events_of item
  unfolding absorb release_lines
  absorb-accounted i lines size (single (final_object bytes)) c h =
      line-accounted i lines size (some bytes) c h
  absorb-accounted i lines size (single (dict envelope)) c h =
      line-accounted i lines size (serialise_envelope json envelope) c h
  absorb-accounted i lines size (line_batch more) c h = omega (
    arith,
    with_sender-accounted i (gathering lines size)
        (gathering (lines ++ more)
          (size + (sum (map (λ (l : Bytes). length l) more) + length more)))
        c h,
    length-append lines more,
  )

  take-accounted :
      (i : ℕ) (s : Option Sender) (queue : List (Item V)) (c : Client V)
      → at i c.senders ≡ s
      → c.queue ≡ queue
      → accounted (take_item limits json i s queue c) ≡ accounted c
  unfolding take_item
  take-accounted i (some (gathering lines size)) (item ∷ rest) c h q = ground (
    arith,
    absorb-accounted i lines size item (record c { queue = rest }) h,
    ap (sum_by events_of) q,
  )
  take-accounted i _ _ c h q = refl

  close-accounted :
      (i : ℕ) (timed_out : Bool) (s : Option Sender) (c : Client V)
      → at i c.senders ≡ s
      → accounted (close_batch limits json i timed_out s c) ≡ accounted c
  unfolding close_batch
  close-accounted i timed_out (some (gathering lines size)) c h =
      ground (arith, with_sender-accounted i (gathering lines size) (sending lines) c h)
  close-accounted i timed_out _ c h = refl

  send-accounted :
      (i : ℕ) (attempts : ℕ → Attempt) (s : Option Sender) (c : Client V)
      → at i c.senders ≡ s
      → accounted (send_lines limits json i attempts s c) ≡ accounted c
  unfolding send_lines send_batch
  send-accounted i attempts (some (sending lines)) c h = omega (
    arith,
    with_sender-accounted i (sending lines) (gathering [] 0) c h,
    settled-send_from attempts limits.max_attempts 0 (length lines) (length (join_lines lines))
        c.tally,
  )
  send-accounted i attempts _ c h = refl

  leave-accounted :
      (i : ℕ) (s : Option Sender) (c : Client V)
      → at i c.senders ≡ s
      → accounted (leave_loop limits json i s c) ≡ accounted c
  unfolding leave_loop
  leave-accounted i (some (gathering [] size)) c h =
      ground (arith, with_sender-accounted i (gathering [] size) returned c h)
  leave-accounted i _ c h = refl

  advance-accounted :
      (op : ClientOp V) (c : Client V)
      → accounted (advance limits json op c) ≡ accounted c + accepted limits op c
  unfolding advance
  advance-accounted (ClientOp.put checked item) c = put-accounted checked item c
  advance-accounted (ClientOp.reserve lines) c = omega (arith, reserve-accounted lines c)
  advance-accounted (ClientOp.enqueue checked i) c = enqueue-accounted checked i (at i c.waiting) c
  advance-accounted (ClientOp.take i) c =
      omega (arith, take-accounted i (at i c.senders) c.queue c refl refl)
  advance-accounted (ClientOp.close i timed_out) c =
      omega (arith, close-accounted i timed_out (at i c.senders) c refl)
  advance-accounted (ClientOp.send i attempts) c =
      omega (arith, send-accounted i attempts (at i c.senders) c refl)
  advance-accounted (ClientOp.leave i) c = omega (arith, leave-accounted i (at i c.senders) c refl)
  advance-accounted ClientOp.begin_stop c = omega arith
  advance-accounted ClientOp.set_abort c = omega arith

  -- The events accepted along a run.
  abbrev pub all_accepted : List (ClientOp V) → Client V → ℕ
  all_accepted [] c = 0
  all_accepted (op ∷ ops) c = accepted limits op c + all_accepted ops (advance limits json op c)

  held_none : (senders : List Sender) → all has_returned senders ≡ true → sum_by held senders ≡ 0
  unfolding has_returned
  held_none [] h = refl
  held_none (gathering lines size ∷ ss) h = cc
  held_none (sending lines ∷ ss) h = cc
  held_none (returned ∷ ss) h = omega (arith, held_none ss h)

  no_events : (queue : List (Item V)) → is_empty queue ≡ true → sum_by events_of queue ≡ 0
  no_events [] h = refl
  no_events (item ∷ rest) h = ground arith

  -- Across any steps of any producers and senders, whatever the collector answers and whenever the
  -- client is stopped or aborted, the events that wait in the queue, are in a sender's hands, were
  -- delivered or were counted as dropped or invalid grow by exactly those that the client accepted.
  pub run_ops-accounted :
      (ops : List (ClientOp V)) (c : Client V)
      → sum_by events_of (run_ops limits json ops c).queue
          + sum_by held (run_ops limits json ops c).senders
          + settled (run_ops limits json ops c).tally
        ≡ sum_by events_of c.queue + sum_by held c.senders + settled c.tally + all_accepted ops c
  unfolding run_ops
  run_ops-accounted [] c = omega arith
  run_ops-accounted (op ∷ ops) c =
      omega (arith, advance-accounted op c, run_ops-accounted ops (advance limits json op c))

  -- When flush_and_stop of a new client finds the queue empty and every sender thread ended, every
  -- event that the client accepted was delivered, or counted as dropped or as invalid.
  pub drained-settled :
      (ops : List (ClientOp V)) (c : Client V)
      → c.queue ≡ []
      → sum_by held c.senders ≡ 0
      → settled c.tally ≡ 0
      → is_flushed (run_ops limits json ops c) ≡ true
      → settled (run_ops limits json ops c).tally ≡ all_accepted ops c
  unfolding is_flushed
  drained-settled ops c q s t h =
      let end : Client V = run_ops limits json ops c in
      let parts = and-true (is_empty end.queue) (all has_returned end.senders) h in
      omega (
        arith,
        run_ops-accounted ops c,
        ap (sum_by events_of) q,
        no_events end.queue parts.0,
        held_none end.senders parts.1,
      )
