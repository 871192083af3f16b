-- ===== src/Worker/Hec/Settled.antt =====
-- What _send_batch counts for a batch.
use stoker.Prelude.{ℕ, zero, suc, ◌+◌, ◌≡◌, if◌then◌else◌, arith}
use stoker.Worker.Hec.{Tally, Attempt, Verdict, judge, settle, is_transient, count_retry, send_from}

-- The events whose fate is counted.
abbrev pub settled : Tally → ℕ
settled t = t.totals.events_total + t.totals.dropped + t.totals.dropped_invalid

settled-settle :
    (v : Verdict) (count bytes : ℕ) (t : Tally)
    → settled (settle v count bytes t) ≡ settled t + (if is_transient v then 0 else count)
unfolding settle
settled-settle Verdict.delivered count bytes t = omega arith
settled-settle Verdict.rejected count bytes t = omega arith
settled-settle _ count bytes t = omega arith

pub settled-send_from :
    (attempts : ℕ → Attempt) (left k count bytes : ℕ) (t : Tally)
    → settled (send_from attempts left k count bytes t) ≡ settled t + count
unfolding send_from
settled-send_from attempts zero k count bytes t = omega arith
settled-send_from attempts (suc left) k count bytes t = ground (
  arith,
  settled-settle (judge (attempts k).answer) count bytes t,
  settled-send_from attempts left (suc k) count bytes
      (count_retry (settle (judge (attempts k).answer) count bytes t)),
)
