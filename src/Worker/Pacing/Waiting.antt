-- ===== src/Worker/Pacing/Waiting.antt =====
-- Threads that wait for an event.
use stoker.Prelude.{
  ℕ, ◌+◌, ◌-◌, ◌*◌, ◌≤◌, ◌<◌, ◌≡◌, ap, ◌∙◌, inl, inr, ◌⊎◌, true, false, none, some, List, [], ◌∷◌,
  any, leb, arith, Bool-cases, is_some,
}
use stoker.Prelude.Int.{pos, pos_part, neg_part, ◌-ℤ◌, ◌<ℤ◌, ltb_ℤ, int_laws}
use stoker.Worker.Pacing.{
  event, is_owed, Bucket, owed, released_quota, max_backlog, backlog, cap_backlog, take_owed,
  take_many, many_round, round, run_calls, next_in, Wake, acquire, acquire_loop, acquire_many,
}
use stoker.Worker.Pacing.Pace.{owed-cap_backlog, cap_backlog-same, released-cap_backlog}

-- A whole event that is owed stays so after the cap, unless nothing may be caught up.
owed_after_cap :
    (now : ℕ) (b : Bucket)
    → 0 < max_backlog b
    → pos (released_quota b) <ℤ owed now b
    → is_owed now (cap_backlog now b) ≡ true
owed_after_cap now b m h = elim (Bool-cases (ltb_ℤ (pos (max_backlog b)) (backlog now b))) [
  | inl e ↦ ground (
    arith,
    ap pos_part (owed-cap_backlog now b e),
    ap neg_part (owed-cap_backlog now b e),
    released-cap_backlog now b,
  )
  | inr e ↦ rw (cap_backlog-same now b e) (ground arith)
]

round-granted :
    (now : ℕ) (b : Bucket)
    → b.closed ≡ false
    → b.paused ≡ false
    → is_owed now (cap_backlog now b) ≡ true
    → (round now b).0 ≡ some true
unfolding round take_owed
round-granted now b c p h = ground arith

round-refused :
    (now : ℕ) (b : Bucket)
    → b.paused ≡ false
    → (round now b).0 ≡ none
    → (b.closed ≡ false) × ((round now b).1 ≡ cap_backlog now b)
unfolding round take_owed
round-refused now b p h = ground arith

cap_backlog-keeps :
    (now : ℕ) (b : Bucket)
    → ((cap_backlog now b).closed ≡ b.closed)
      × ((cap_backlog now b).paused ≡ b.paused)
      × ((cap_backlog now b).rate ≡ b.rate)
      × ((cap_backlog now b).catchup ≡ b.catchup)
unfolding cap_backlog
cap_backlog-keeps now b = ground arith

waited :
    (now later : ℕ) (b : Bucket)
    → now ≤ later
    → pos_part (pos ((b.released + 1) * event) -ℤ owed now b) ≤ b.rate * (later - now)
    → pos (released_quota b) <ℤ owed later b
unfolding owed
waited now later b le h =
    let whole : later ≡ now + (later - now) = omega arith in
    omega (int_laws, ap (λ (t : ℕ). b.rate * t) whole)

-- Enough time has passed for the next event of a bucket that is not paused.
granted_after_wait :
    (now later : ℕ) (b : Bucket)
    → b.closed ≡ false
    → b.paused ≡ false
    → 0 < max_backlog b
    → now ≤ later
    → (next_in now b).num ≤ b.rate * (later - now)
    → (round later b).0 ≡ some true
unfolding owed
granted_after_wait now later b c p m le passed =
    round-granted later b c p (owed_after_cap later b m (waited now later b le (rw p at passed)))

-- With a rate and a catch-up window above 0, a thread that acquire has refused is granted the event once
-- the time next_in, which it computed, has passed, if the bucket is not paused and no other thread called
-- anything.
pub round-after_wait :
    (now later : ℕ) (b : Bucket)
    → b.paused ≡ false
    → 0 < b.rate
    → 0 < b.catchup
    → (round now b).0 ≡ none
    → now ≤ later
    → (next_in now (round now b).1).num ≤ (round now b).1.rate * (later - now)
    → (round later (round now b).1).0 ≡ some true
round-after_wait now later b p r c refused le passed =
    let (open_now, same) = round-refused now b p refused in
    let kept = cap_backlog-keeps now b in
    rw same (
      granted_after_wait now later (cap_backlog now b) (kept.0 ∙ open_now) (kept.1 ∙ p)
        (grind arith) le (rw same at passed))

-- A thread that waits with a deadline is answered by the first wake-up after it, whatever other
-- threads do and also while the bucket is paused.
pub acquire-answers :
    (deadline : ℕ) (wakes : List Wake) (b : Bucket)
    → any (λ (w : Wake). leb deadline w.mono) wakes ≡ true
    → is_some (acquire (some deadline) wakes b).0 ≡ true
unfolding acquire
acquire-answers d [] b h = cc
acquire-answers d (w ∷ ws) b h =
    ground (arith, acquire-answers d ws (round w.now (run_calls w.calls b)).1)

refused_closed :
    (now : ℕ) (b : Bucket) → (round now b).0 ≡ some false → (round now b).1.closed ≡ true
unfolding round
refused_closed now b h = ground arith

-- Without a deadline, acquire answers no only on a bucket that is closed.
acquire-closed :
    (wakes : List Wake) (b : Bucket)
    → (acquire none wakes b).0 ≡ some false
    → (acquire none wakes b).1.closed ≡ true
unfolding acquire
acquire-closed [] b h = cc
acquire-closed (w ∷ ws) b h = ground (
  arith,
  refused_closed w.now (run_calls w.calls b),
  acquire-closed ws (round w.now (run_calls w.calls b)).1,
)

-- What an answer of acquire_many without a deadline says.
abbrev pub Granted : ℕ → ℕ → Bucket → Type 0
Granted n g b = (g ≤ n) × ((0 < g) ⊎ (b.closed ≡ true))

many_round-Granted :
    (n now : ℕ) (g : ℕ) (b : Bucket)
    → (many_round n now b).0 ≡ some g
    → Granted n g (many_round n now b).1
unfolding many_round take_many
many_round-Granted n now g b h = ground arith

acquire_loop-Granted :
    (n g : ℕ) (wakes : List Wake) (b : Bucket)
    → (acquire_loop n none wakes b).0 ≡ some g
    → Granted n g (acquire_loop n none wakes b).1
unfolding acquire_loop
acquire_loop-Granted n g [] b h = cc
acquire_loop-Granted n g (w ∷ ws) b h = ground (
  arith,
  many_round-Granted n w.now g (run_calls w.calls b),
  acquire_loop-Granted n g ws (many_round n w.now (run_calls w.calls b)).1,
)

-- Asked for at least one event and without a deadline, acquire_many grants no more than was asked for,
-- and at least one unless the bucket is closed.
acquire_many-Granted :
    (n g : ℕ) (wakes : List Wake) (b : Bucket)
    → 0 < n
    → (acquire_many n none wakes b).0 ≡ some g
    → Granted n g (acquire_many n none wakes b).1
unfolding acquire_many
acquire_many-Granted n g wakes b p h = ground (arith, acquire_loop-Granted n g wakes b)
