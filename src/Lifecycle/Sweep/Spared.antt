-- ===== src/Lifecycle/Sweep/Spared.antt =====
-- The start-up sweep (Lifecycle/Sweep) destroys nothing that a live run owns.
use stoker.Prelude.{
  ℕ, Bool, true, false, not, ◌&&◌, ◌≡◌, refl, Option, none, some, List, [], ◌∷◌, all, arith,
}
use stoker.Lifecycle.Model.{is_terminal, StrayAction, Db}
use stoker.Lifecycle.Sweep.{
  Runs, Listing, Estate, Request, Session, is_live_run, with_audit, member, audit_stray,
}

abbrev pub has_ended : Option Db → Bool
has_ended none = false
has_ended (some db) = is_terminal db.run.state

-- No write starts a run of this id.
pub data LeaveGone (id : ℕ) : List (Runs → Runs) → Type 0 where
  nothing : LeaveGone id []
  write_then :
      {write : Runs → Runs} {later : List (Runs → Runs)}
      → ((runs : Runs) → is_live_run (runs id) ≡ false → is_live_run (write runs id) ≡ false)
      → LeaveGone id later
      → LeaveGone id (write ∷ later)

pub first_keeps :
    (id : ℕ) (write : Runs → Runs) (later : List (Runs → Runs)) (runs : Runs)
    → LeaveGone id (write ∷ later)
    → is_live_run (runs id) ≡ false
    → is_live_run (write runs id) ≡ false
first_keeps id write later runs (write_then keeps rest) e = keeps runs e

pub rest_keep :
    (id : ℕ) (write : Runs → Runs) (later : List (Runs → Runs))
    → LeaveGone id (write ∷ later)
    → LeaveGone id later
rest_keep id write later (write_then keeps rest) = rest

abbrev pub lists : Listing → ℕ → Bool
lists (Listing.owned ids) id = member id ids
lists _ id = false

-- A request for a workload that its driver has listed, sent while no live run had its id.
abbrev pub is_spared : (ℕ → Estate) → Request → Bool
is_spared estates r =
    not (is_live_run (r.runs r.target)) && lists (estates r.driver).listing r.target

pub record Sound (estates : ℕ → Estate) (s : Session) : Type 0 where
  pub ended : (id : ℕ) → has_ended (s.held id) ≡ true → is_live_run (s.runs id) ≡ false
  pub leave : (id : ℕ) → has_ended (s.held id) ≡ true → LeaveGone id s.others
  pub spared : all (is_spared estates) s.requests ≡ true

audit_keeps :
    (now : ℕ) (action : StrayAction) (o : Option Db)
    → is_live_run (with_audit now action o) ≡ is_live_run o
audit_keeps now action none = refl
audit_keeps now action (some db) = refl

pub audit_stray-live :
    (now id other : ℕ) (action : StrayAction) (s : Session)
    → is_live_run ((audit_stray now id action s).runs other) ≡ is_live_run (s.runs other)
unfolding audit_stray
audit_stray-live now id other action s = ground (arith, audit_keeps now action (s.runs other))
