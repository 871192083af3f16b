-- ===== src/Worker/Examples/Sending.antt =====
-- A client with one sender, a producer of single events and one of line batches.
use stoker.Prelude.{
  ℕ, zero, suc, ◌+◌, ◌≡◌, refl, inl, inr, true, false, none, some, List, [], ◌∷◌, sum_by, arith,
}
use stoker.Worker.Hec.{
  Totals, Tally, Attempt, Answer, judge, send_batch, Envelope, Json, Totals, serialise_envelope,
  get,
}
use stoker.Worker.Hec.Queue.{
  final_object, dict, Limits, Client, ClientOp, gathering, advance, run_ops, is_flushed, at,
  replace, put_item, reserve_lines, release_lines, enqueue_lines, absorb_line, absorb, take_item,
  close_batch, send_lines, leave_loop,
}
use stoker.Worker.Hec.Accounts.{events_of, held, all_accepted, run_ops-accounted, drained-settled}
use stoker.Worker.Hec.Settled.{settled}
use stoker.Worker.Hec.Space.{HasSpace, run_ops-HasSpace}
use stoker.Worker.Hec.Retries.{Delivered, send_batch-Delivered, GivenUp, send_batch-GivenUp}

abbrev no_totals : Totals
no_totals = record {
  events_total = 0;
  bytes_total = 0;
  hec_2xx = 0;
  hec_4xx = 0;
  hec_5xx = 0;
  hec_timeouts = 0;
  retries = 0;
  dropped = 0;
  dropped_invalid = 0;
}

abbrev new_tally : Tally
new_tally = record { totals = no_totals; auth_failed = false }

abbrev posted : Answer → Attempt
posted a = record { aborted_before = false; answer = a; aborted_waiting = false }

-- A 503, a timeout, and from then on success.
recovering : ℕ → Attempt
recovering zero = posted (Answer.status 503)
recovering (suc zero) = posted Answer.unreachable
recovering (suc (suc k)) = posted (Answer.status 200)

send_batch-Delivered_example : Delivered 2 7 300 new_tally (send_batch 5 recovering 7 300 new_tally)
unfolding recovering judge
send_batch-Delivered_example =
    send_batch-Delivered 5 2 7 300 recovering new_tally (omega arith)
      ((refl, refl, refl), ((refl, refl, refl), tt)) refl refl

failing : ℕ → Attempt
failing k = posted (Answer.status 500)

send_batch-GivenUp_example : GivenUp 3 7 new_tally (send_batch 3 failing 7 300 new_tally)
unfolding failing judge
send_batch-GivenUp_example =
    send_batch-GivenUp 2 7 300 failing new_tally
      ((refl, refl, refl), ((refl, refl, refl), ((refl, refl, refl), tt)))

-- Envelopes of numbers; one with no key is refused.
abbrev json : Json ℕ
json = record {
  dumps = λ (e : Envelope ℕ). elim e [ [] ↦ none | _ ∷ _ ↦ some (1 ∷ 2 ∷ 3 ∷ []) ];
  is_true = λ n. true;
}

abbrev limits : Limits
limits = record { batch_bytes = 100; queue_max = 4; max_attempts = 5 }

abbrev new_client : Client ℕ
new_client = record {
  queue = [];
  waiting = [];
  line_events = 0;
  line_items = 0;
  tally = new_tally;
  stopping = false;
  abort = false;
  senders = gathering [] 0 ∷ [];
}

-- An event, an envelope without an event and a batch of two lines, sent as one batch and drained.
abbrev a_drain : List (ClientOp ℕ)
a_drain =
    ClientOp.put false (final_object (9 ∷ []))
    ∷ ClientOp.put false (dict (("host", some 1) ∷ []))
    ∷ ClientOp.reserve ((7 ∷ []) ∷ (8 ∷ []) ∷ [])
    ∷ ClientOp.enqueue false 0
    ∷ ClientOp.take 0
    ∷ ClientOp.take 0
    ∷ ClientOp.take 0
    ∷ ClientOp.close 0 true
    ∷ ClientOp.begin_stop
    ∷ ClientOp.send 0 recovering
    ∷ ClientOp.leave 0
    ∷ []

run_ops-accounted_example :
    sum_by events_of (run_ops limits json a_drain new_client).queue
      + sum_by held (run_ops limits json a_drain new_client).senders
      + settled (run_ops limits json a_drain new_client).tally
    ≡ 0 + 0 + 0 + all_accepted limits json a_drain new_client
run_ops-accounted_example = run_ops-accounted limits json a_drain new_client

drained-settled_example :
    settled (run_ops limits json a_drain new_client).tally
    ≡ all_accepted limits json a_drain new_client
unfolding run_ops is_flushed advance leave_loop at send_lines close_batch take_item enqueue_lines
    reserve_lines put_item absorb absorb_line replace serialise_envelope get release_lines
drained-settled_example = drained-settled limits json a_drain new_client refl refl refl refl

run_ops-HasSpace_example : HasSpace 4 (run_ops limits json a_drain new_client)
run_ops-HasSpace_example = run_ops-HasSpace limits json a_drain new_client (record {
  events_counted = refl;
  items_counted = refl;
  none_empty = refl;
  bounded = inl (omega arith);
  slots = inr (omega arith);
})
