-- ===== src/Worker/Control.antt =====
-- worker/stoker_agent/control.py: ControlClient. Instants and durations are whole microseconds of the
-- client's clock. A request is its outcome, and a method gets the readings of the clock in the order in
-- which it takes them. Headers, bodies and logging are left out.
pub mod Backoff
pub mod Final
pub mod Fence
use stoker.Prelude.{
  ℕ, zero, suc, ◌+◌, ◌-◌, ◌*◌, ◌/◌, min, Bool, true, false, Option, none, some, List, [], ◌∷◌, ltb,
  leb, if◌then◌else◌,
}
use Prim.Native.Nat.{◌^◌}
use stoker.Engines.Apportion.{RateMode}

-- FENCE_PAUSE_S
abbrev pub fence_pause : ℕ
fence_pause = 30000000

abbrev pub backoff_base : ℕ
backoff_base = 500000

abbrev pub backoff_cap : ℕ
backoff_cap = 30000000

-- random.uniform(0.5, 1.5), in millionths.
abbrev pub jitter_unit : ℕ
jitter_unit = 1000000

-- What _post does: it raises ConnectionError, raises another RequestException or ControlError, or returns.
pub data Outcome {ℓ} (A : Type ℓ) : Type ℓ where
  disconnected failed : Outcome A
  returned : A → Outcome A

-- One attempt of _post_with_backoff: its outcome, and if it failed the clock afterwards and the jitter.
pub record Attempt {ℓ} (A : Type ℓ) : Type ℓ where
  pub outcome : Outcome A
  pub now : ℕ
  pub jitter : ℕ

-- overflowed: OverflowError is raised, since 2 ** attempt is no float any more. waits: the attempts given
-- have ended, and the client would make another.
pub data Posted {ℓ} (A : Type ℓ) : Type ℓ where
  answered : A → Posted A
  dead_man : Posted A
  overflowed : Posted A
  waits : Posted A

-- The first attempt k with no float for 2 ** k.
abbrev pub overflow_attempt : ℕ
overflow_attempt = 1024

unfoldable pub delay : ℕ → ℕ → ℕ
delay attempt jitter = min backoff_cap (backoff_base * 2 ^ attempt) * jitter / jitter_unit

module _ {ℓ} {A : Type ℓ} where
  -- The answer, and the sleeps between the attempts.
  unfoldable pub post_loop : ℕ → ℕ → ℕ → List (Attempt A) → Posted A × List ℕ
  post_loop deadman start k [] = (waits, [])
  post_loop deadman start k (t ∷ ts) =
      let (rest, sleeps) = post_loop deadman start (suc k) ts in
      let again : Posted A × List ℕ =
        if leb deadman (t.now - start)
        then (dead_man, [])
        else if leb overflow_attempt k
        then (overflowed, [])
        else (rest, delay k t.jitter ∷ sleeps) in
      elim t.outcome [ returned a ↦ (answered a, []) | failed ↦ again | disconnected ↦ again ]

  -- _post_with_backoff
  unfoldable pub post_with_backoff : ℕ → ℕ → List (Attempt A) → Posted A × List ℕ
  unfolding post_loop
  post_with_backoff deadman start attempts = post_loop deadman start 0 attempts

-- The commands of a heartbeat response.
pub data Command : Type 0 where
  continue release drain pause superseded retarget other : Command

-- A share of one key: the rate mode that the key stands for, none for another key, and the value, none
-- where it is not numeric. 0 stands for every value that is not above 0.
pub record Offer : Type 0 where
  pub mode : Option RateMode
  pub value : Option ℕ

-- The heartbeat response: a rolled token, the command, the release's T0, paused_s, none where it is no
-- number from 0 on, and the new share, none where it does not have exactly one key.
pub record Reply : Type 0 where
  pub jwt : Option ℕ
  pub command : Option Command
  pub t0 : Option ℕ
  pub paused_s : Option ℕ
  pub offer : Option Offer

-- _jwt, _last_ack and _deadman_s
pub record Client : Type 0 where
  pub jwt : ℕ
  pub last_ack : ℕ
  pub deadman : ℕ

unfoldable pub new_client : ℕ → ℕ → ℕ → Client
new_client jwt deadman now = record { jwt = jwt; last_ack = now; deadman = deadman }

unfoldable pub record_ack : ℕ → Client → Client
record_ack now c = record c { last_ack = now }

unfoldable pub seconds_since_ack : ℕ → Client → ℕ
seconds_since_ack now c = now - c.last_ack

unfoldable pub should_pause : ℕ → Client → Bool
unfolding seconds_since_ack
should_pause now c = ltb fence_pause (seconds_since_ack now c)

unfoldable pub deadman_expired : ℕ → Client → Bool
unfolding seconds_since_ack
deadman_expired now c = ltb c.deadman (seconds_since_ack now c)

-- What a heartbeat gives the agent.
pub data Beat : Type 0 where
  missed taken_over : Beat
  acked : Reply → Beat

abbrev pub roll : Option ℕ → Client → Client
roll none c = c
roll (some jwt) c = record c { jwt = jwt }

abbrev pub is_superseded : Option Command → Bool
is_superseded (some superseded) = true
is_superseded _ = false

unfoldable pub take_reply : ℕ → Reply → Client → Beat × Client
unfolding record_ack
take_reply now r c =
    if is_superseded r.command
    then (taken_over, roll r.jwt c)
    else (acked r, record_ack now (roll r.jwt c))

-- heartbeat: the first request, the second one that follows a lost connection, and the clock at the ack.
unfoldable pub heartbeat : Outcome Reply → Outcome Reply → ℕ → Client → Beat × Client
unfolding take_reply
heartbeat (returned r) second now c = take_reply now r c
heartbeat failed second now c = (missed, c)
heartbeat disconnected (returned r) now c = take_reply now r c
heartbeat disconnected failed now c = (missed, c)
heartbeat disconnected disconnected now c = (missed, c)

-- An answer is an ack.
unfoldable pub call_acked {ℓ} : {A : Type ℓ} → ℕ → Posted A × List ℕ → Client → Posted A × Client
unfolding record_ack
call_acked now (answered a, sleeps) c = (answered a, record_ack now c)
call_acked now (dead_man, sleeps) c = (dead_man, c)
call_acked now (overflowed, sleeps) c = (overflowed, c)
call_acked now (waits, sleeps) c = (waits, c)

-- claim, and ready, which makes the same call and drops the answer.
unfoldable pub claim {ℓ} : {A : Type ℓ} → ℕ → List (Attempt A) → ℕ → Client → Posted A × Client
unfolding post_with_backoff call_acked
claim start attempts now c = call_acked now (post_with_backoff c.deadman start attempts) c

-- One round of final: the clock before the request, whether it succeeds, and the clock after it.
pub record Round : Type 0 where
  pub before : ℕ
  pub succeeds : Bool
  pub after : ℕ

-- What final does, with its start and its length: a request has a timeout.
pub data Action : Type 0 where
  request : ℕ → ℕ → Action
  sleep : ℕ → ℕ → Action

abbrev pub final_pause : ℕ → ℕ
final_pause attempt = min 2000000 (backoff_base * 2 ^ attempt)

-- The timeout of a round's request; none where no time is left.
unfoldable pub final_timeout : ℕ → Option ℕ → ℕ → Option ℕ
final_timeout timeout none before = some timeout
final_timeout timeout (some deadline) before =
    if leb deadline before then none else some (min timeout (deadline - before))

abbrev pub is_over : Option ℕ → ℕ → Bool
is_over none now = false
is_over (some deadline) now = leb deadline now

-- The rounds that are left, from an attempt on.
unfoldable pub final_rounds : ℕ → Option ℕ → (ℕ → Round) → ℕ → ℕ → Bool × List Action
final_rounds timeout deadline rounds k zero = (false, [])
final_rounds timeout deadline rounds k (suc left) =
    let r = rounds k in
    let (sent, actions) = final_rounds timeout deadline rounds (suc k) left in
    elim (final_timeout timeout deadline r.before) [
      | none ↦ (false, [])
      | some t ↦
          let asked = request r.before t in
          if r.succeeds
          then (true, asked ∷ [])
          else if is_over deadline r.after
          then (false, asked ∷ [])
          else (sent, asked ∷ sleep r.after (final_pause k) ∷ actions)
    ]

unfoldable pub final : ℕ → Option ℕ → (ℕ → Round) → Bool × List Action
unfolding final_rounds final_timeout
final timeout deadline rounds = final_rounds timeout deadline rounds 0 3
