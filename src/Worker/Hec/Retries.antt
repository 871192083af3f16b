-- ===== src/Worker/Hec/Retries.antt =====
-- The retry policy of _send_batch.
use native.Mathlib.Nat.{mul-le-mul_left, mul-le-mul_right, le-div_iff_mul-le}
use stoker.Prelude.{ℕ, zero, suc, ◌+◌, ◌*◌, ◌/◌, ◌≤◌, ◌<◌, ◌≡◌, refl, min, true, false, arith}
use stoker.Worker.Hec.{
  Tally, Attempt, Verdict, judge, settle, is_transient, give_up, count_retry, send_from, send_batch,
  doubled, retry_delay,
}

-- A post fails for now, and the client is not aborted around it.
abbrev pub FailsForNow : Attempt → Type 0
FailsForNow a =
    (a.aborted_before ≡ false)
    × (is_transient (judge a.answer) ≡ true)
    × (a.aborted_waiting ≡ false)

-- n attempts from attempt k on do so.
abbrev pub AllFail : (ℕ → Attempt) → ℕ → ℕ → Type 0
AllFail attempts k zero = Unit {0}
AllFail attempts k (suc n) = FailsForNow (attempts k) × AllFail attempts (suc k) n

abbrev pub failures : Tally → ℕ
failures t = t.totals.hec_5xx + t.totals.hec_timeouts

abbrev pub posts : Tally → ℕ
posts t = t.totals.hec_2xx + t.totals.hec_4xx + failures t

-- What the tally t' of a batch says that was delivered after n failed posts.
pub record Delivered (n count bytes : ℕ) (t t' : Tally) : Type 0 where
  pub events : t'.totals.events_total ≡ t.totals.events_total + count
  pub size : t'.totals.bytes_total ≡ t.totals.bytes_total + bytes
  pub success : t'.totals.hec_2xx ≡ t.totals.hec_2xx + 1
  pub failed : failures t' ≡ failures t + n
  pub retried : t'.totals.retries ≡ t.totals.retries + n
  pub none_dropped : t'.totals.dropped ≡ t.totals.dropped
  pub none_invalid : t'.totals.dropped_invalid ≡ t.totals.dropped_invalid

-- A failed post that is tried again: one failure and one retry more, and nothing else.
record TriedAgain (t t' : Tally) : Type 0 where
  same_events : t'.totals.events_total ≡ t.totals.events_total
  same_size : t'.totals.bytes_total ≡ t.totals.bytes_total
  same_success : t'.totals.hec_2xx ≡ t.totals.hec_2xx
  same_refused : t'.totals.hec_4xx ≡ t.totals.hec_4xx
  one_failure : failures t' ≡ failures t + 1
  one_retry : t'.totals.retries ≡ t.totals.retries + 1
  same_dropped : t'.totals.dropped ≡ t.totals.dropped
  same_invalid : t'.totals.dropped_invalid ≡ t.totals.dropped_invalid

settle-TriedAgain :
    (v : Verdict) (count bytes : ℕ) (t : Tally)
    → is_transient v ≡ true
    → TriedAgain t (count_retry (settle v count bytes t))
unfolding settle
settle-TriedAgain Verdict.transient_error count bytes t h = omega arith
settle-TriedAgain Verdict.transient_timeout count bytes t h = omega arith
settle-TriedAgain Verdict.delivered count bytes t h = cc
settle-TriedAgain _ count bytes t h = cc

settle-Delivered :
    (v : Verdict) (count bytes : ℕ) (t : Tally)
    → v ≡ Verdict.delivered
    → Delivered 0 count bytes t (settle v count bytes t)
unfolding settle
settle-Delivered v count bytes t h = rw h (omega arith)

later_Delivered :
    (n count bytes : ℕ) (t u v : Tally)
    → TriedAgain t u
    → Delivered n count bytes u v
    → Delivered (suc n) count bytes t v
later_Delivered n count bytes t u v a d = omega arith

-- The first of the attempts left is made again.
send_from-again :
    (attempts : ℕ → Attempt) (left k count bytes : ℕ) (t : Tally)
    → 0 < left
    → FailsForNow (attempts k)
    → send_from attempts (suc left) k count bytes t
      ≡ send_from attempts left
          (suc k)
          count
          bytes
          (count_retry (settle (judge (attempts k).answer) count bytes t))
unfolding send_from
send_from-again attempts left k count bytes t l f = ground arith

send_from-settle :
    (attempts : ℕ → Attempt) (left k count bytes : ℕ) (t : Tally)
    → (attempts k).aborted_before ≡ false
    → judge (attempts k).answer ≡ Verdict.delivered
    → send_from attempts (suc left) k count bytes t
      ≡ settle (judge (attempts k).answer) count bytes t
unfolding send_from
send_from-settle attempts left k count bytes t a d = rw (a, d) refl

send_from-Delivered :
    (attempts : ℕ → Attempt) (n left k last count bytes : ℕ) (t : Tally)
    → k + n ≡ last
    → n < left
    → AllFail attempts k n
    → (attempts last).aborted_before ≡ false
    → judge (attempts last).answer ≡ Verdict.delivered
    → Delivered n count bytes t (send_from attempts left k count bytes t)
send_from-Delivered attempts n zero k last count bytes t e l f a d = absurd (omega arith)
send_from-Delivered attempts zero (suc left) k last count bytes t e l f a d =
    let here : last ≡ k = omega arith in
    let unaborted = rw here at a in
    let answered = rw here at d in
    rw (send_from-settle attempts left k count bytes t unaborted answered)
      (settle-Delivered (judge (attempts k).answer) count bytes t answered)
send_from-Delivered attempts (suc n) (suc left) k last count bytes t e l f a d =
    rw (send_from-again attempts left k count bytes t (omega arith) f.0) (
      later_Delivered n count bytes t _ _
        (settle-TriedAgain (judge (attempts k).answer) count bytes t (f.0.1))
        (send_from-Delivered attempts n left (suc k) last count bytes
          (count_retry (settle (judge (attempts k).answer) count bytes t)) (omega arith)
          (omega arith) f.1 a d))

-- A batch whose first n posts fail for now, and whose next post is made and answered with a 2xx, is
-- delivered, if n is less than the number of attempts: its events and bytes are counted once, with n
-- failures and n retries, and nothing is dropped.
pub send_batch-Delivered :
    (max_attempts n count bytes : ℕ) (attempts : ℕ → Attempt) (t : Tally)
    → n < max_attempts
    → AllFail attempts 0 n
    → (attempts n).aborted_before ≡ false
    → judge (attempts n).answer ≡ Verdict.delivered
    → Delivered n count bytes t (send_batch max_attempts attempts count bytes t)
unfolding send_batch
send_batch-Delivered max_attempts n count bytes attempts t l f a d =
    send_from-Delivered attempts n max_attempts 0 n count bytes t (omega arith) l f a d

-- What the tally says of a batch that was given up after n failed posts.
pub record GivenUp (n count : ℕ) (t t' : Tally) : Type 0 where
  pub lost : t'.totals.dropped ≡ t.totals.dropped + count
  pub tried : failures t' ≡ failures t + n
  pub tried_again : t'.totals.retries + 1 ≡ t.totals.retries + n
  pub none_delivered : t'.totals.events_total ≡ t.totals.events_total
  pub valid : t'.totals.dropped_invalid ≡ t.totals.dropped_invalid

send_from-give_up :
    (attempts : ℕ → Attempt) (k count bytes : ℕ) (t : Tally)
    → FailsForNow (attempts k)
    → send_from attempts 1 k count bytes t
      ≡ give_up count (settle (judge (attempts k).answer) count bytes t)
unfolding send_from
send_from-give_up attempts k count bytes t f = ground arith

settle-GivenUp :
    (v : Verdict) (count bytes : ℕ) (t : Tally)
    → is_transient v ≡ true
    → GivenUp 1 count t (give_up count (settle v count bytes t))
unfolding settle
settle-GivenUp Verdict.transient_error count bytes t h = omega arith
settle-GivenUp Verdict.transient_timeout count bytes t h = omega arith
settle-GivenUp Verdict.delivered count bytes t h = cc
settle-GivenUp _ count bytes t h = cc

later_GivenUp :
    (n count : ℕ) (t u v : Tally) → TriedAgain t u → GivenUp n count u v → GivenUp (suc n) count t v
later_GivenUp n count t u v a d = omega arith

send_from-GivenUp :
    (attempts : ℕ → Attempt) (left k count bytes : ℕ) (t : Tally)
    → AllFail attempts k (suc left)
    → GivenUp (suc left) count t (send_from attempts (suc left) k count bytes t)
send_from-GivenUp attempts zero k count bytes t f =
    rw (send_from-give_up attempts k count bytes t f.0)
      (settle-GivenUp (judge (attempts k).answer) count bytes t f.0.1)
send_from-GivenUp attempts (suc left) k count bytes t f =
    rw (send_from-again attempts (suc left) k count bytes t (omega arith) f.0) (
      later_GivenUp (suc left) count t _ _
        (settle-TriedAgain (judge (attempts k).answer) count bytes t f.0.1)
        (send_from-GivenUp attempts left (suc k) count bytes
          (count_retry (settle (judge (attempts k).answer) count bytes t)) f.1))

-- A batch all of whose attempts fail for now, one at least, is dropped: its events are counted as
-- dropped once, after as many failed posts as there are attempts and one retry fewer.
pub send_batch-GivenUp :
    (more count bytes : ℕ) (attempts : ℕ → Attempt) (t : Tally)
    → AllFail attempts 0 (suc more)
    → GivenUp (suc more) count t (send_batch (suc more) attempts count bytes t)
unfolding send_batch
send_batch-GivenUp more count bytes attempts t f = send_from-GivenUp attempts more 0 count bytes t f

half-le : (d num den : ℕ) → 0 < den → den ≤ 2 * num → d / 2 ≤ d * num / den
half-le d num den p h =
    let scaled : d / 2 * den ≤ d / 2 * (2 * num) = mul-le-mul_left (d / 2) h in
    let halved : d / 2 * 2 * num ≤ d * num = mul-le-mul_right num (omega arith) in
    (le-div_iff_mul-le p).1 (omega (arith, scaled, halved))

-- The wait before a retry never exceeds the cap, and where the random factor is at least a half, it is
-- at least half of the doubled base, or the cap.
pub retry_delay_bounds :
    (base cap k num den : ℕ)
    → 0 < den
    → den ≤ 2 * num
    → (retry_delay base cap k num den ≤ cap)
      × (min cap (doubled k base / 2) ≤ retry_delay base cap k num den)
unfolding retry_delay
retry_delay_bounds base cap k num den p h = omega (arith, half-le (doubled k base) num den p h)
