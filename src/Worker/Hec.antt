-- ===== src/Worker/Hec.antt =====
-- worker/stoker_agent/hec_client.py: the counters of HecClient, serialise_envelope and _send_batch.
-- Bytes are lists of numbers. json.dumps and the truth of a value are parameters; a dumps that raises
-- TypeError or ValueError answers none. Compression, TLS, headers and logging are left out.

pub mod Queue
pub mod Settled
pub mod Accounts
pub mod Space
pub mod Retries
use stoker.Prelude.{
  ℕ, zero, suc, ◌+◌, ◌*◌, ◌/◌, min, Bool, true, false, ◌&&◌, ◌||◌, Option, none, some, List, [],
  ◌∷◌, ◌++◌, String, length, ltb, leb, ◌==◌, if◌then◌else◌,
}
use text.Mathlib.Text.{◌==◌ as str_eq}

pub record Totals : Type 0 where
  pub events_total : ℕ
  pub bytes_total : ℕ
  pub hec_2xx : ℕ
  pub hec_4xx : ℕ
  pub hec_5xx : ℕ
  pub hec_timeouts : ℕ
  pub retries : ℕ
  pub dropped : ℕ
  pub dropped_invalid : ℕ

-- What session.post does: it raises a RequestException, or returns a status.
pub data Answer : Type 0 where
  unreachable : Answer
  status : ℕ → Answer

-- One attempt: whether _abort is set before it, what the post does, and whether _abort is set during
-- the wait after it.
pub record Attempt : Type 0 where
  pub aborted_before : Bool
  pub answer : Answer
  pub aborted_waiting : Bool

pub data Verdict : Type 0 where
  delivered rejected unauthorised refused : Verdict
  transient_error transient_timeout : Verdict

unfoldable pub judge : Answer → Verdict
judge unreachable = transient_timeout
judge (status s) =
    if leb 200 s && ltb s 300
    then delivered
    else if s == 400
    then rejected
    else if s == 401 || s == 403
    then unauthorised
    else if leb 500 s
    then transient_error
    else refused

-- The counters and auth_failed_event.
pub record Tally : Type 0 where
  pub totals : Totals
  pub auth_failed : Bool

abbrev pub give_up : ℕ → Tally → Tally
give_up count t = record t { totals = record t.totals { dropped = t.totals.dropped + count } }

abbrev pub count_retry : Tally → Tally
count_retry t = record t { totals = record t.totals { retries = t.totals.retries + 1 } }

abbrev pub count_error : Tally → Tally
count_error t = record t { totals = record t.totals { hec_5xx = t.totals.hec_5xx + 1 } }

abbrev pub count_timeout : Tally → Tally
count_timeout t = record t { totals = record t.totals { hec_timeouts = t.totals.hec_timeouts + 1 } }

-- The outcomes that end the loop.
unfoldable pub settle : Verdict → ℕ → ℕ → Tally → Tally
settle delivered count bytes t = record t {
  totals = record t.totals {
    hec_2xx = t.totals.hec_2xx + 1;
    events_total = t.totals.events_total + count;
    bytes_total = t.totals.bytes_total + bytes;
  };
}
settle rejected count bytes t = record t {
  totals = record t.totals {
    hec_4xx = t.totals.hec_4xx + 1;
    dropped_invalid = t.totals.dropped_invalid + count;
  };
}
settle unauthorised count bytes t = record {
  totals = record t.totals { hec_4xx = t.totals.hec_4xx + 1; dropped = t.totals.dropped + count };
  auth_failed = true;
}
settle refused count bytes t = record t {
  totals = record t.totals { hec_4xx = t.totals.hec_4xx + 1; dropped = t.totals.dropped + count };
}
settle transient_error count bytes t = count_error t
settle transient_timeout count bytes t = count_timeout t

abbrev pub is_transient : Verdict → Bool
is_transient transient_error = true
is_transient transient_timeout = true
is_transient _ = false

-- The attempts left, from attempt k on; attempts says what happens at each.
unfoldable pub send_from : (ℕ → Attempt) → ℕ → ℕ → ℕ → ℕ → Tally → Tally
send_from attempts zero k count bytes t = give_up count t
send_from attempts (suc left) k count bytes t =
    let posted = settle (judge (attempts k).answer) count bytes t in
    let again = send_from attempts left (suc k) count bytes (count_retry posted) in
    if (attempts k).aborted_before
    then give_up count t
    else if is_transient (judge (attempts k).answer)
    then (if left == 0
        then give_up count posted
        else if (attempts k).aborted_waiting
        then give_up count (count_retry posted)
        else again)
    else posted

-- _send_batch
unfoldable pub send_batch : ℕ → (ℕ → Attempt) → ℕ → ℕ → Tally → Tally
send_batch max_attempts attempts count bytes t = send_from attempts max_attempts 0 count bytes t

-- The wait after attempt k: retry_base_s * 2 ** k, times a random factor num / den, at most
-- retry_cap_s.
unfoldable pub doubled : ℕ → ℕ → ℕ
doubled zero base = base
doubled (suc k) base = 2 * doubled k base

unfoldable pub retry_delay : ℕ → ℕ → ℕ → ℕ → ℕ → ℕ
retry_delay base cap k num den = min cap (doubled k base * num / den)

abbrev pub Bytes : Type 0
Bytes = List ℕ

-- b"\n".join(lines)
unfoldable pub join_lines : List Bytes → Bytes
join_lines [] = []
join_lines (l ∷ []) = l
join_lines (l ∷ m ∷ ms) = l ++ (10 ∷ join_lines (m ∷ ms))

-- A dictionary; the value none is None.
abbrev pub Envelope : Type 0 → Type 0
Envelope V = List (String × Option V)

abbrev pub meta_keys : List String
meta_keys = "time" ∷ "host" ∷ "source" ∷ "sourcetype" ∷ "index" ∷ []

module _ {V : Type 0} where
  unfoldable pub get : String → Envelope V → Option (Option V)
  get key [] = none
  get key ((k, v) ∷ rest) = if str_eq k key then some v else get key rest

  -- The meta keys that are present and not None.
  unfoldable pub meta : List String → Envelope V → Envelope V
  meta [] envelope = []
  meta (key ∷ keys) envelope = elim (get key envelope) [
    | some v ↦ elim v [ some w ↦ (key, some w) ∷ meta keys envelope | none ↦ meta keys envelope ]
    | none ↦ meta keys envelope
  ]

  -- fields, where it is present and true.
  unfoldable pub fields_of : (V → Bool) → Option (Option V) → Envelope V
  fields_of is_true none = []
  fields_of is_true (some none) = []
  fields_of is_true (some (some v)) = if is_true v then ("fields", some v) ∷ [] else []

-- json.dumps and the truth of a value.
pub record Json (V : Type 0) : Type 0 where
  pub dumps : Envelope V → Option Bytes
  pub is_true : V → Bool

-- serialise_envelope; none where it raises, which a missing event makes it do.
unfoldable pub serialise_envelope : {V : Type 0} → Json V → Envelope V → Option Bytes
serialise_envelope json envelope = elim (get "event" envelope) [
  | none ↦ none
  | some event ↦ json.dumps (
      meta meta_keys envelope
      ++ (("event", event) ∷ fields_of json.is_true (get "fields" envelope)))
]
