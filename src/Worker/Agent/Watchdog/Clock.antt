-- ===== src/Worker/Agent/Watchdog/Clock.antt =====
-- How often the zero-output watchdog falls due in rounds that come every few seconds.
use stoker.Prelude.{
  ℕ, zero, suc, ◌+◌, ◌-◌, ◌*◌, ◌≤◌, ◌<◌, Bool, List, [], ◌∷◌, if◌then◌else◌, leb, arith, Bool-cases,
  inl, inr,
}
use stoker.Worker.Agent.Loop.{Readings}

-- The watchdog's time has passed since the last progress or restart.
abbrev pub is_overdue : ℕ → ℕ → Readings → Bool
is_overdue zero_output progress r = leb zero_output (r.watch_at - progress)

-- The last progress or restart after a silent round.
abbrev pub restarted : ℕ → ℕ → Readings → ℕ
restarted zero_output progress r =
    if is_overdue zero_output progress r then r.restarted_at else progress

-- The last reading of the clock by the watchdog of a round.
abbrev pub clock_after : ℕ → ℕ → Readings → ℕ
clock_after zero_output progress r =
    if is_overdue zero_output progress r then r.restarted_at else r.watch_at

-- In how many of the rounds the time has passed, counted anew from each restart.
abbrev pub times_overdue : ℕ → ℕ → List Readings → ℕ
times_overdue zero_output progress [] = 0
times_overdue zero_output progress (r ∷ rs) =
    let rest = times_overdue zero_output (restarted zero_output progress r) rs in
    if is_overdue zero_output progress r then suc rest else rest

-- From an instant on the clock runs on, and a round's watchdog ends within a gap of the one before.
abbrev pub InStep : ℕ → ℕ → ℕ → ℕ → List Readings → Type 0
InStep gap zero_output progress now [] = Unit {0}
InStep gap zero_output progress now (r ∷ rs) =
    (now ≤ r.watch_at)
    × (r.watch_at ≤ clock_after zero_output progress r)
    × (clock_after zero_output progress r ≤ now + gap)
    × InStep gap zero_output (restarted zero_output progress r) (clock_after zero_output progress r)
        rs

-- The clock at the last round.
abbrev pub end_clock : ℕ → ℕ → ℕ → List Readings → ℕ
end_clock zero_output progress now [] = now
end_clock zero_output progress now (r ∷ rs) =
    end_clock zero_output (restarted zero_output progress r) (clock_after zero_output progress r) rs

pub times_overdue-enough :
    (gap zero_output progress now k : ℕ) (rs : List Readings)
    → 0 < zero_output
    → now < progress + zero_output
    → InStep gap zero_output progress now rs
    → progress + k * (zero_output + gap) ≤ end_clock zero_output progress now rs
    → k ≤ times_overdue zero_output progress rs
times_overdue-enough gap z p now zero rs pos h steps late = omega arith
times_overdue-enough gap z p now (suc k) [] pos h steps late = absurd (omega arith)
times_overdue-enough gap z p now (suc k) (r ∷ rs) pos h (a, b, c, steps) late =
    elim (Bool-cases (is_overdue z p r)) [
      | inl due ↦
          let within : r.restarted_at ≤ now + gap = rw due at c in
          let more : k ≤ times_overdue z r.restarted_at rs =
            times_overdue-enough gap z r.restarted_at r.restarted_at k rs pos (omega arith)
              (rw due at steps)
              (let last : p + suc k * (z + gap) ≤ end_clock z r.restarted_at r.restarted_at rs =
                  rw due at late in
                omega arith) in
          rw due (omega arith)
      | inr early ↦ rw early (
          times_overdue-enough gap z p r.watch_at (suc k) rs pos (ground arith) (rw early at steps)
            (rw early at late))
    ]
