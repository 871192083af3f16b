-- ===== src/Lifecycle/Later.antt =====
-- How the run row moves: the order of phases, T0, and terminal runs.
pub mod Parts
pub mod Operators
pub mod Backpressure
pub mod Ticks
pub mod Steps
use stoker.Prelude.{
  ℕ, ◌+◌, ◌≤◌, ◌≡◌, refl, sym, ap, ◌∙◌, inl, inr, ◌⊎◌, Bool, true, false, Option, none, some, arith,
  is_some, String, ◌&&◌, not, if◌then◌else◌, subst,
}
use stoker.Lifecycle.Model.{RunState, Reason, is_terminal, Run, Db, Lease}
use stoker.Lifecycle.Rows.{transition_run}

-- The place of a state in the life of a run.
abbrev pub phase : RunState → ℕ
phase RunState.pending = 0
phase RunState.preparing = 1
phase RunState.provisioning = 2
phase RunState.releasing = 3
phase RunState.running = 4
phase RunState.paused = 4
phase RunState.draining = 5
phase RunState.completed = 6
phase RunState.stopped = 6
phase RunState.failed = 6

-- The terminal facts of a run are kept.
abbrev pub SameEnd : Run → Run → Type 0
SameEnd r s = (s.state ≡ r.state) × (s.end_reason ≡ r.end_reason) × (s.ended_at ≡ r.ended_at)

pub record Later (r s : Run) : Type 0 where
  pub forward : phase r.state ≤ phase s.state
  pub t0_once : (r.t0 ≡ none) ⊎ (s.t0 ≡ r.t0)
  pub ended_stays : (is_terminal r.state ≡ false) ⊎ SameEnd r s

pub Later-refl : (r : Run) → Later r r
Later-refl r = record {
  forward = omega arith;
  t0_once = inr refl;
  ended_stays = inr (refl, refl, refl);
}

phase-terminal : (s : RunState) → is_terminal s ≡ true → phase s ≡ 6
phase-terminal RunState.completed h = refl
phase-terminal RunState.stopped h = refl
phase-terminal RunState.failed h = refl
phase-terminal RunState.pending h = cc
phase-terminal _ h = cc

pub phase-not-terminal : (s : RunState) → is_terminal s ≡ false → phase s ≤ 5
phase-not-terminal RunState.pending h = omega arith
phase-not-terminal RunState.completed h = cc
phase-not-terminal RunState.stopped h = cc
phase-not-terminal RunState.failed h = cc
phase-not-terminal _ h = omega arith

pub Later-trans : {r s t : Run} → Later r s → Later s t → Later r t
Later-trans {r} {s} {t} a b = record {
  forward = omega arith;
  t0_once = ground arith;
  ended_stays = ground arith;
}

-- A transition forward from a run that has not ended.
pub transition-Later :
    (now : ℕ) (new_state : RunState) (reason : Option Reason) (actor : String) (db : Db)
    → is_terminal db.run.state ≡ false
    → phase db.run.state ≤ phase new_state
    → Later db.run (transition_run now new_state reason actor db).run
unfolding transition_run
transition-Later now new_state reason actor db h p = record {
  forward = p;
  t0_once = inr refl;
  ended_stays = inl h;
}

-- A row that moved forward from an equal row.
pub Later-from : {r r' s : Run} → r' ≡ r → Later r' s → Later r s
Later-from {s = s} e h = subst (λ (x : Run). Later x s) e h
