-- ===== src/Worker/Pacing/Pace.antt =====
-- The bucket and the wall clock.
use stoker.Prelude.{
  ℕ, ◌+◌, ◌*◌, ◌≤◌, ◌≡◌, refl, ap, inl, inr, ◌⊎◌, true, false, some, List, [], ◌∷◌, arith,
  Bool-cases, ◌||◌, ◌==◌,
}
use native.Mathlib.Nat.{mul-le-mul_left}
use stoker.Prelude.Int.{
  sub-sub, one_part, pos, pos_part, neg_part, ◌+ℤ◌, ◌<ℤ◌, ltb_ℤ, int_laws, -ℤ_parts, +ℤ_parts,
}
use stoker.Worker.Pacing.{
  event, Bucket, new_bucket, owed, retarget, released_quota, max_backlog, backlog, cap_backlog,
  take_owed, try_take, take_many, many_round, lag, Call, apply, run_calls, anchor_at, pause, resume,
  close, or_same,
}

-- Nothing was released, or the last released event was owed in part at least.
abbrev pub OnPace : ℕ → Bucket → Type 0
OnPace now b = (b.released ≡ 0) ⊎ (pos (released_quota b) <ℤ owed now b +ℤ pos event)

-- What is owed after the cap: no more than the backlog that it allows.
pub owed-cap_backlog :
    (now : ℕ) (b : Bucket)
    → ltb_ℤ (pos (max_backlog b)) (backlog now b) ≡ true
    → owed now (cap_backlog now b) ≡ pos (released_quota b + max_backlog b)
unfolding owed cap_backlog
owed-cap_backlog now b h = rw h (sub-sub _ _)

pub cap_backlog-same :
    (now : ℕ) (b : Bucket)
    → ltb_ℤ (pos (max_backlog b)) (backlog now b) ≡ false
    → cap_backlog now b ≡ b
unfolding cap_backlog
cap_backlog-same now b h = rw h refl

pub released-cap_backlog : (now : ℕ) (b : Bucket) → (cap_backlog now b).released ≡ b.released
unfolding cap_backlog
released-cap_backlog now b = ground arith

pub cap_backlog-OnPace : (now : ℕ) (b : Bucket) → OnPace now b → OnPace now (cap_backlog now b)
cap_backlog-OnPace now b h = elim (Bool-cases (ltb_ℤ (pos (max_backlog b)) (backlog now b))) [
  | inl e ↦ inr (
      omega (
        int_laws,
        released-cap_backlog now b,
        ap pos_part (owed-cap_backlog now b e),
        ap neg_part (owed-cap_backlog now b e),
      ))
  | inr e ↦ rw (cap_backlog-same now b e) h
]

pub take_owed-OnPace : (now : ℕ) (b : Bucket) → OnPace now b → OnPace now (take_owed now b).1
unfolding take_owed owed
take_owed-OnPace now b h = ground (arith, +ℤ_parts (owed now b) (pos event))

pub take_many-OnPace : (n now : ℕ) (b : Bucket) → OnPace now b → OnPace now (take_many n now b).1
unfolding take_many owed
take_many-OnPace n now b h = ground (
  arith,
  -ℤ_parts (owed now b) (pos (released_quota b)),
  +ℤ_parts (owed now b) (pos event),
  one_part (backlog now b),
)

pub retarget-OnPace :
    (now r : ℕ) (b : Bucket) → OnPace now b → OnPace now (or_same b (retarget now r b))
unfolding retarget owed
retarget-OnPace now r b h = ground (arith, sub-sub (pos (r * now)) (owed now b))

pub later-OnPace : (now t : ℕ) (b : Bucket) → now ≤ t → OnPace now b → OnPace t b
unfolding owed
later-OnPace now t b le h = omega (int_laws, mul-le-mul_left b.rate le)

try_take-OnPace : (now : ℕ) (b : Bucket) → OnPace now b → OnPace now (try_take now b).1
unfolding try_take
try_take-OnPace now b h = elim (Bool-cases (b.closed || b.paused)) [
  | inl e ↦ rw e h
  | inr e ↦ rw e (take_owed-OnPace now (cap_backlog now b) (cap_backlog-OnPace now b h))
]

many_round-OnPace : (n now : ℕ) (b : Bucket) → OnPace now b → OnPace now (many_round n now b).1
unfolding many_round
many_round-OnPace n now b h =
    ground (arith, take_many-OnPace n now (cap_backlog now b) (cap_backlog-OnPace now b h))

pub apply-OnPace : (now : ℕ) (c : Call) (b : Bucket) → OnPace now b → OnPace now (apply now c b)
unfolding apply anchor_at pause resume close lag owed
apply-OnPace now (Call.anchor_call t0) b h = inl refl
apply-OnPace now Call.pause_call b h = h
apply-OnPace now Call.resume_call b h = h
apply-OnPace now Call.close_call b h = h
apply-OnPace now (Call.retarget_call r) b h = retarget-OnPace now r b h
apply-OnPace now Call.take_call b h = try_take-OnPace now b h
apply-OnPace now (Call.take_many_call n) b h = elim (Bool-cases (n == 0)) [
  | inl e ↦ rw e h
  | inr e ↦ rw e (many_round-OnPace n now b h)
]
apply-OnPace now Call.lag_call b h = cap_backlog-OnPace now b h

-- The clock never runs backwards from one reading to the next.
abbrev pub InOrder : ℕ → List (ℕ × Call) → ℕ → Type 0
InOrder start [] end = start ≤ end
InOrder start ((t, c) ∷ cs) end = (start ≤ t) × InOrder t cs end

pub run_calls-OnPace :
    (start now : ℕ) (b : Bucket) (calls : List (ℕ × Call))
    → InOrder start calls now
    → OnPace start b
    → OnPace now (run_calls calls b)
unfolding run_calls
run_calls-OnPace start now b [] o h = later-OnPace start now b o h
run_calls-OnPace start now b ((t, c) ∷ cs) o h =
    run_calls-OnPace t now (apply t c b) cs o.1 (apply-OnPace t c b (later-OnPace start t b o.0 h))

-- After any calls of any threads on a new bucket, anchors, pauses and changes of the rate included,
-- whose readings of the clock never run backwards, either nothing is released since the last anchor, or
-- the events released are fewer than what is owed and one more.
pub new_bucket-OnPace :
    (rate catchup start now : ℕ) (b : Bucket) (calls : List (ℕ × Call))
    → new_bucket rate catchup start ≡ some b
    → InOrder start calls now
    → ((run_calls calls b).released ≡ 0)
      ⊎ (pos ((run_calls calls b).released * event) <ℤ owed now (run_calls calls b) +ℤ pos event)
unfolding new_bucket
new_bucket-OnPace rate catchup start now b calls made o =
    run_calls-OnPace start now b calls o (inl (ground arith))
