-- ===== src/Worker/Pacing/Catchup.antt =====
-- Bounded catch-up, a change of the rate, and the two tests for an owed event.
use stoker.Prelude.{
  ℕ, ◌+◌, ◌*◌, ◌≤◌, ◌<◌, ◌≡◌, refl, ap, inl, inr, min, true, false, none, some, arith, Bool-cases,
  ◌==◌, subst,
}
use mathlib.Core.Option.{some-injective}
use stoker.Prelude.Int.{pos, pos_part, neg_part, ◌+ℤ◌, ltb_ℤ, int_laws, -ℤ_parts, one_part}
use stoker.Worker.Pacing.{
  event, Bucket, owed, retarget, released_quota, max_backlog, backlog, cap_backlog, take_owed,
  try_take, take_many, many_round, lag,
}
use stoker.Worker.Pacing.Pace.{owed-cap_backlog, cap_backlog-same, released-cap_backlog}

-- lag_s answers the backlog, but no more than catchup_s seconds of quota and no less than 0; both in
-- units of 1 / rate microseconds.
lag-eq-min : (now : ℕ) (b : Bucket) → (lag now b).0 ≡ min (pos_part (backlog now b)) (max_backlog b)
unfolding lag
lag-eq-min now b = elim (Bool-cases (ltb_ℤ (pos (max_backlog b)) (backlog now b))) [
  | inl e ↦ ground (
    arith,
    ap pos_part (owed-cap_backlog now b e),
    ap neg_part (owed-cap_backlog now b e),
    released-cap_backlog now b,
    -ℤ_parts (owed now (cap_backlog now b)) (pos (released_quota (cap_backlog now b))),
    one_part (backlog now (cap_backlog now b)),
    one_part (backlog now b),
  )
  | inr e ↦ rw (cap_backlog-same now b e) (ground (arith, one_part (backlog now b)))
]

-- A change of the rate keeps what is owed at that instant, and from then on the quota grows at the
-- new rate; nothing released is forgotten.
retarget-owed :
    (now d new_rate : ℕ) (b c : Bucket)
    → retarget now new_rate b ≡ some c
    → (owed (now + d) c ≡ owed now b +ℤ pos (new_rate * d)) × (c.released ≡ b.released)
unfolding retarget owed
retarget-owed now d r b c h = elim (Bool-cases (r == 0)) [
  | inl e ↦ cc (rw e at h)
  | inr e ↦
      subst
        (λ (x : Bucket). (owed (now + d) x ≡ owed now b +ℤ pos (r * d)) × (x.released ≡ b.released))
        (some-injective _ _ (rw e at h)) (omega int_laws, refl)
]

-- On an open bucket that is not paused, where a part of an event is owed but no whole one, and no more
-- than may be caught up, try_take releases an event and a round of acquire_many releases none.
partial_event :
    (now n : ℕ) (b : Bucket)
    → b.closed ≡ false
    → b.paused ≡ false
    → 0 < pos_part (backlog now b)
    → pos_part (backlog now b) < event
    → pos_part (backlog now b) ≤ max_backlog b
    → ((try_take now b).0 ≡ true) × ((many_round n now b).0 ≡ none)
unfolding try_take many_round take_owed take_many
partial_event now n b c p some_owed less within =
    rw (cap_backlog-same now b (ground arith))
      (ground (arith, one_part (backlog now b), -ℤ_parts (owed now b) (pos (released_quota b))))
