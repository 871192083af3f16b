-- ===== src/Worker/Examples/Buckets.antt =====
-- A bucket of ten events per second that may catch up five seconds.
use stoker.Prelude.{ℕ, ◌*◌, ◌≡◌, refl, ◌⊎◌, true, false, some, List, [], ◌∷◌, arith, is_some}
use stoker.Prelude.Int.{pos, ◌-ℤ◌, ◌+ℤ◌, ◌<ℤ◌}
use stoker.Worker.Pacing.{
  event, Bucket, new_bucket, owed, backlog, Call, run_calls, cap_backlog, take_owed, round, Wake,
  acquire,
}
use stoker.Worker.Pacing.Pace.{new_bucket-OnPace}
use stoker.Worker.Pacing.Budget.{AllOver, discarded_quota, new_bucket-balance}
use stoker.Worker.Pacing.Waiting.{round-after_wait, acquire-answers}

abbrev ten_a_second : Bucket
ten_a_second = record {
  rate = 10000000;
  catchup = 5000000;
  start = pos 10000000000000;
  released = 0;
  paused = false;
  closed = false;
  discarded = [];
}

-- Two takes in time, and one after a stall of ten seconds.
abbrev stalled : List (ℕ × Call)
stalled =
    (1100000, Call.take_call) ∷ (1200000, Call.take_call) ∷ (11200000, Call.take_many_call 100) ∷ []

new_bucket-OnPace_example :
    ((run_calls stalled ten_a_second).released ≡ 0)
    ⊎ (pos ((run_calls stalled ten_a_second).released * event)
        <ℤ owed 12000000 (run_calls stalled ten_a_second) +ℤ pos event)
unfolding new_bucket
new_bucket-OnPace_example =
    new_bucket-OnPace 10000000 5000000 1000000 12000000 ten_a_second stalled refl (omega arith)

new_bucket-balance_example :
    (pos ((run_calls stalled ten_a_second).released * event)
        +ℤ backlog 12000000 (run_calls stalled ten_a_second)
        +ℤ pos (discarded_quota (run_calls stalled ten_a_second).discarded)
      ≡ pos (10000000 * 12000000) -ℤ pos (10000000 * 1000000))
    × AllOver 10000000 (run_calls stalled ten_a_second).discarded
unfolding new_bucket
new_bucket-balance_example =
    new_bucket-balance 10000000 5000000 1000000 12000000 ten_a_second stalled refl
      (tt, (tt, (tt, tt)))

abbrev twenty_a_second : Bucket
twenty_a_second = record ten_a_second { rate = 20000000; start = pos 25000000000000 }

abbrev one_taken : Bucket
one_taken = record ten_a_second { released = 1 }

round-after_wait_example : (round 1150000 (round 1050000 one_taken).1).0 ≡ some true
unfolding round cap_backlog take_owed owed ◌-ℤ◌
round-after_wait_example =
    round-after_wait 1050000 1200000 one_taken refl (omega arith) (omega arith) refl (omega arith)
      (omega arith)

abbrev woken : List Wake
woken =
    record { now = 1010000; mono = 10; calls = [] }
    ∷ record { now = 1020000; mono = 300000; calls = (1015000, Call.close_call) ∷ [] }
    ∷ []

acquire-answers_example : is_some (acquire (some 300000) woken one_taken).0 ≡ true
acquire-answers_example = acquire-answers 300000 woken one_taken refl

abbrev ten_owed : List Wake
ten_owed = record { now = 2000000; mono = 10; calls = [] } ∷ []
