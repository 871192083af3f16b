-- ===== src/Worker/Pacing.antt =====
-- worker/stoker_agent/pacing.py: TokenBucket, the wall-clock token bucket that paces a worker.
-- Instants and durations are whole microseconds, a rate counts millionths of an event per second;
-- so a quota, rate * time, is a whole number of 10^-12 events, and `event` of them are one event. The
-- anchor is kept as rate * _anchor, which is a whole number after every retarget and every slide. A
-- method gets the clock's reading as an argument; the lock makes each method one step. A wait on the
-- condition ends with a wake-up that says what the clocks read and what other threads called before.
pub mod Pace
pub mod Budget
pub mod Catchup
pub mod Waiting
use stoker.Prelude.{
  ℕ, ◌+◌, ◌-◌, ◌*◌, ◌/◌, min, Bool, true, false, ◌||◌, Option, none, some, List, [], ◌∷◌, leb, ◌==◌,
  if◌then◌else◌,
}
use stoker.Prelude.Int.{ℤ, pos, pos_part, ◌-ℤ◌, ltb_ℤ}

abbrev pub event : ℕ
event = 1000000000000

-- _WAIT_SLICE_S
abbrev pub wait_slice : ℕ
wait_slice = 200000

-- num / den
pub record Fraction : Type 0 where
  pub num : ℕ
  pub den : ℕ

-- start is rate * _anchor. discarded lists the summands of _discarded_s, in microseconds.
pub record Bucket : Type 0 where
  pub rate : ℕ
  pub catchup : ℕ
  pub start : ℤ
  pub released : ℕ
  pub paused : Bool
  pub closed : Bool
  pub discarded : List Fraction

-- __init__; a rate of 0 raises.
unfoldable pub new_bucket : ℕ → ℕ → ℕ → Option Bucket
new_bucket rate catchup now =
    if rate == 0
    then none
    else some (record {
      rate = rate;
      catchup = catchup;
      start = pos (rate * now);
      released = 0;
      paused = false;
      closed = false;
      discarded = [];
    })

unfoldable pub anchor_at : ℕ → Bucket → Bucket
anchor_at t0 b = record b { start = pos (b.rate * t0); released = 0 }

unfoldable pub pause : Bucket → Bucket
pause b = record b { paused = true }

unfoldable pub resume : Bucket → Bucket
resume b = record b { paused = false }

unfoldable pub close : Bucket → Bucket
close b = record b { closed = true }

-- _owed
unfoldable pub owed : ℕ → Bucket → ℤ
owed now b = pos (b.rate * now) -ℤ b.start

-- A rate of 0 raises.
unfoldable pub retarget : ℕ → ℕ → Bucket → Option Bucket
retarget now new_rate b =
    if new_rate == 0
    then none
    else some (record b { start = pos (new_rate * now) -ℤ owed now b; rate = new_rate })

abbrev pub released_quota : Bucket → ℕ
released_quota b = b.released * event

abbrev pub max_backlog : Bucket → ℕ
max_backlog b = b.rate * b.catchup

abbrev pub backlog : ℕ → Bucket → ℤ
backlog now b = owed now b -ℤ pos (released_quota b)

-- _cap_backlog
unfoldable pub cap_backlog : ℕ → Bucket → Bucket
cap_backlog now b =
    if ltb_ℤ (pos (max_backlog b)) (backlog now b)
    then record b {
      discarded =
          record { num = pos_part (backlog now b) - max_backlog b; den = b.rate } ∷ b.discarded;
      start = pos (b.rate * now) -ℤ pos (released_quota b + max_backlog b);
    }
    else b

-- _released < _owed(now)
abbrev pub is_owed : ℕ → Bucket → Bool
is_owed now b = ltb_ℤ (pos (released_quota b)) (owed now b)

unfoldable pub take_owed : ℕ → Bucket → Bool × Bucket
take_owed now b =
    if is_owed now b then (true, record b { released = b.released + 1 }) else (false, b)

unfoldable pub try_take : ℕ → Bucket → Bool × Bucket
try_take now b = if b.closed || b.paused then (false, b) else take_owed now (cap_backlog now b)

-- int(self._owed(now) - self._released), where it is at least 1
abbrev pub available : ℕ → Bucket → ℕ
available now b = pos_part (backlog now b) / event

unfoldable pub take_many : ℕ → ℕ → Bucket → ℕ × Bucket
take_many n now b =
    let granted = min n (available now b) in
    if leb 1 (available now b)
    then (granted, record b { released = b.released + granted })
    else (0, b)

-- How long a thread waits that was refused: until the next event is owed, a slice at most, and no
-- longer than its deadline leaves.
abbrev pub next_in : ℕ → Bucket → Fraction
next_in now b =
    if b.paused
    then record { num = wait_slice; den = 1 }
    else record { num = pos_part (pos ((b.released + 1) * event) -ℤ owed now b); den = b.rate }

abbrev pub at_most : ℕ → Fraction → Fraction
at_most bound f = if leb f.num (bound * f.den) then f else record { num = bound; den = 1 }

unfoldable pub wait_time : ℕ → Option ℕ → Bucket → Fraction
wait_time now remaining b = elim remaining [
  | none ↦ at_most wait_slice (next_in now b)
  | some left ↦ at_most left (at_most wait_slice (next_in now b))
]

-- What a thread calls on the bucket that another one waits on.
pub data Call : Type 0 where
  anchor_call : ℕ → Call
  pause_call resume_call close_call : Call
  retarget_call : ℕ → Call
  take_call : Call
  take_many_call : ℕ → Call
  lag_call : Call

abbrev pub or_same : Bucket → Option Bucket → Bucket
or_same b none = b
or_same b (some c) = c

-- One round of acquire_many, without its wait.
unfoldable pub many_round : ℕ → ℕ → Bucket → Option ℕ × Bucket
many_round n now b =
    if b.closed
    then (some 0, b)
    else if b.paused
    then (none, b)
    else let (granted, c) = take_many n now (cap_backlog now b) in
      (if granted == 0 then none else some granted, c)

-- One round of acquire, without its wait: an answer, or none for another wait.
unfoldable pub round : ℕ → Bucket → Option Bool × Bucket
round now b =
    if b.closed
    then (some false, b)
    else if b.paused
    then (none, b)
    else let (taken, c) = take_owed now (cap_backlog now b) in
      (if taken then some true else none, c)

-- lag_s caps the backlog first; it is the quota behind, in units of 1 / rate microseconds.
unfoldable pub lag : ℕ → Bucket → ℕ × Bucket
lag now b = let c = cap_backlog now b in (pos_part (backlog now c), c)

unfoldable pub apply : ℕ → Call → Bucket → Bucket
apply now (anchor_call t0) b = anchor_at t0 b
apply now pause_call b = pause b
apply now resume_call b = resume b
apply now close_call b = close b
apply now (retarget_call r) b = or_same b (retarget now r b)
apply now take_call b = (try_take now b).1
apply now (take_many_call n) b = if n == 0 then b else (many_round n now b).1
apply now lag_call b = (lag now b).1

-- Calls, each at its reading of the clock.
unfoldable pub run_calls : List (ℕ × Call) → Bucket → Bucket
run_calls [] b = b
run_calls ((now, c) ∷ cs) b = run_calls cs (apply now c b)

-- A wake-up: the wall clock, the monotonic clock, and the calls made since the last one.
pub record Wake : Type 0 where
  pub now : ℕ
  pub mono : ℕ
  pub calls : List (ℕ × Call)

abbrev pub is_past : Option ℕ → ℕ → Bool
is_past none mono = false
is_past (some deadline) mono = leb deadline mono

-- acquire; none if the thread still waits when the list of wake-ups ends.
unfoldable pub acquire : Option ℕ → List Wake → Bucket → Option Bool × Bucket
acquire deadline [] b = (none, b)
acquire deadline (w ∷ ws) b =
    let (answer, c) = round w.now (run_calls w.calls b) in
    let rest = acquire deadline ws c in
    elim answer [
      | some a ↦ (some a, c)
      | none ↦ if is_past deadline w.mono then (some false, c) else rest
    ]

-- acquire_many
unfoldable pub acquire_loop : ℕ → Option ℕ → List Wake → Bucket → Option ℕ × Bucket
acquire_loop n deadline [] b = (none, b)
acquire_loop n deadline (w ∷ ws) b =
    let (answer, c) = many_round n w.now (run_calls w.calls b) in
    let rest = acquire_loop n deadline ws c in
    elim answer [
      | some granted ↦ (some granted, c)
      | none ↦ if is_past deadline w.mono then (some 0, c) else rest
    ]

unfoldable pub acquire_many : ℕ → Option ℕ → List Wake → Bucket → Option ℕ × Bucket
unfolding acquire_loop
acquire_many n deadline wakes b = if n == 0 then (some 0, b) else acquire_loop n deadline wakes b
