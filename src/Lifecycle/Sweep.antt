-- ===== src/Lifecycle/Sweep.antt =====
-- server/lifecycle.py: the second phase of reconcile_on_boot, the sweep of workloads that no live run
-- owns (_sweep_stray_fleets, _destroy_stray, _audit_stray, _live_run_ids).
-- The runs table is a function of a run's id. Requests are served while the sweep runs, so each
-- commit of the sweep's session is a point where it begins to see what other sessions have written
-- (others, one entry for each commit). A session keeps the rows that phase 1 has read, and a lookup by
-- id prefers such a row (expire_on_commit is off). A driver is known by its identity, and what it owns
-- and whether it destroys a workload is an argument; its reference to a workload follows from the run
-- id and is left out. A request is kept with the table as it stood when the request was sent.
pub mod Spared
pub mod Asked
pub mod Strays
use stoker.Prelude.{
  ℕ, Bool, true, false, not, ◌||◌, Option, none, some, List, [], ◌∷◌, String, ltb, ◌==◌,
  if◌then◌else◌,
}
use stoker.Lifecycle.Model.{is_terminal, StrayAction, EventKind, Db}
use stoker.Lifecycle.Rows.{append_event}

abbrev pub Runs : Type 0
Runs = ℕ → Option Db

-- driver.list_run_ids
pub data Listing : Type 0 where
  not_supported list_failed : Listing
  owned : List ℕ → Listing

pub record Estate : Type 0 where
  pub listing : Listing
  pub destroy_ok : ℕ → Bool

-- An entry of the fleet map: a name, and the driver it stands for, which several names may share.
pub record Fleet : Type 0 where
  pub fleet_name : String
  pub driver : Option ℕ

pub record Request : Type 0 where
  pub driver : ℕ
  pub target : ℕ
  pub runs : Runs

pub record Session : Type 0 where
  pub held : Runs
  pub runs : Runs
  pub others : List (Runs → Runs)
  pub requests : List Request

unfoldable pub commit_before : List (Runs → Runs) → Session → Session
commit_before [] s = s
commit_before (write ∷ later) s = record s { runs = write s.runs; others = later }

-- db.commit
abbrev pub commit : Session → Session
commit s = commit_before s.others s

abbrev pub is_live_run : Option Db → Bool
is_live_run none = false
is_live_run (some db) = not (is_terminal db.run.state)

-- Is an id in the set that _live_run_ids reads?
abbrev pub live_run_ids : Runs → ℕ → Bool
live_run_ids runs id = is_live_run (runs id)

abbrev pub held_or : Option Db → Option Db → Option Db
held_or none read = read
held_or (some db) read = some db

-- db.get(Run, id)
abbrev pub get_run : ℕ → Session → Option Db
get_run id s = held_or (s.held id) (s.runs id)

abbrev pub member : ℕ → List ℕ → Bool
member a [] = false
member a (x ∷ xs) = x == a || member a xs

-- A set of ids in ascending order.
unfoldable pub insert_id : ℕ → List ℕ → List ℕ
insert_id a [] = a ∷ []
insert_id a (x ∷ xs) =
    let rest = insert_id a xs in if ltb a x then a ∷ x ∷ xs else if a == x then x ∷ xs else x ∷ rest

-- sorted(strays)
unfoldable pub strays : (ℕ → Bool) → List ℕ → List ℕ
strays live [] = []
strays live (x ∷ xs) = let rest = strays live xs in if live x then rest else insert_id x rest

abbrev pub with_audit : ℕ → StrayAction → Option Db → Option Db
with_audit now action none = none
with_audit now action (some db) =
    some (append_event now "system" (EventKind.stray_destroyed action) db)

-- The event is written where the run has a row.
unfoldable pub audit_stray : ℕ → ℕ → StrayAction → Session → Session
audit_stray now id action s = record s {
  runs = λ other. if other == id then with_audit now action (s.runs other) else s.runs other;
}

unfoldable pub destroy_stray : ℕ → ℕ → Estate → ℕ → Session → Session
destroy_stray now driver estate id s =
    let asked : Session = record s {
      requests = record { driver = driver; target = id; runs = s.runs } ∷ s.requests;
    } in
    audit_stray now id
      (if estate.destroy_ok id then StrayAction.destroyed else StrayAction.destroy_failed) asked

-- One stray: a fresh look at its run right before the request.
unfoldable pub sweep_stray : ℕ → ℕ → Estate → ℕ → Session → Session
sweep_stray now driver estate id s =
    let fresh = commit s in
    if is_live_run (get_run id fresh) then fresh else destroy_stray now driver estate id fresh

unfoldable pub sweep_strays : ℕ → ℕ → Estate → List ℕ → Session → Session
sweep_strays now driver estate [] s = s
sweep_strays now driver estate (id ∷ ids) s =
    sweep_strays now driver estate ids (sweep_stray now driver estate id s)

-- A driver that cannot enumerate, or fails to, is skipped.
unfoldable pub sweep_driver : ℕ → ℕ → Estate → Listing → Session → Session
sweep_driver now driver estate not_supported s = s
sweep_driver now driver estate list_failed s = s
sweep_driver now driver estate (owned ids) s =
    let fresh = commit s in
    sweep_strays now driver estate (strays (live_run_ids fresh.runs) ids) fresh

-- One entry of the fleet map, with the drivers that have had their turn.
unfoldable pub sweep_fleet : ℕ → (ℕ → Estate) → Option ℕ → List ℕ × Session → List ℕ × Session
sweep_fleet now estates none (seen, s) = (seen, s)
sweep_fleet now estates (some i) (seen, s) =
    if member i seen
    then (seen, s)
    else (i ∷ seen, sweep_driver now i (estates i) (estates i).listing s)

unfoldable pub sweep_fleets : ℕ → (ℕ → Estate) → List Fleet → List ℕ × Session → List ℕ × Session
sweep_fleets now estates [] turn = turn
sweep_fleets now estates (f ∷ fs) turn =
    sweep_fleets now estates fs (sweep_fleet now estates f.driver turn)

-- _sweep_stray_fleets
unfoldable pub sweep_stray_fleets : ℕ → (ℕ → Estate) → List Fleet → Session → Session
sweep_stray_fleets now estates [] s = s
sweep_stray_fleets now estates (f ∷ fs) s = (sweep_fleets now estates (f ∷ fs) ([], commit s)).1
