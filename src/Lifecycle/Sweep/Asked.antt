-- ===== src/Lifecycle/Sweep/Asked.antt =====
-- The start-up sweep (Lifecycle/Sweep) leaves a stray a stray, and what was asked of a driver asked.
use stoker.Prelude.{
  ℕ, Bool, true, false, ◌&&◌, ◌||◌, ◌≡◌, ◌∙◌, Option, none, some, List, [], ◌∷◌, ◌==◌, if_cases,
  if◌then◌else◌, arith,
}
use stoker.Lifecycle.Model.{StrayAction}
use stoker.Lifecycle.Sweep.{
  Runs, Listing, Estate, Fleet, Request, Session, commit_before, commit, is_live_run, live_run_ids,
  get_run, member, strays, audit_stray, destroy_stray, sweep_stray, sweep_strays, sweep_driver,
  sweep_fleet, sweep_fleets,
}
use stoker.Lifecycle.Sweep.Spared.{LeaveGone, first_keeps, rest_keep, audit_stray-live}

-- Has the destruction of a workload been asked of a driver?
abbrev pub was_asked : ℕ → ℕ → List Request → Bool
was_asked i id [] = false
was_asked i id (r ∷ rs) = (r.driver == i && r.target == id) || was_asked i id rs

-- No session sees, or will see, a live run of the id.
pub record Ownerless (id : ℕ) (s : Session) : Type 0 where
  pub absent : is_live_run (s.runs id) ≡ false
  pub unheld : is_live_run (s.held id) ≡ false
  pub leave : LeaveGone id s.others

-- What a step of the sweep does to a stray: it stays one, and what was asked stays asked.
pub record Goes (i id : ℕ) (s after : Session) : Type 0 where
  pub stays : Ownerless id after
  pub asked : was_asked i id s.requests ≡ true → was_asked i id after.requests ≡ true

pub Goes-refl : (i id : ℕ) (s : Session) → Ownerless id s → Goes i id s s
Goes-refl i id s o = record { stays = o; asked = λ h. h }

pub Goes-trans : (i id : ℕ) (s t u : Session) → Goes i id s t → Goes i id t u → Goes i id s u
Goes-trans i id s t u g h = record { stays = h.stays; asked = λ e. h.asked (g.asked e) }

pub commit_before-Goes :
    (i id : ℕ) (ws : List (Runs → Runs)) (s : Session)
    → Ownerless id s
    → LeaveGone id ws
    → Goes i id s (commit_before ws s)
unfolding commit_before
commit_before-Goes i id [] s o leave = Goes-refl i id s o
commit_before-Goes i id (w ∷ ws) s o leave = record {
  stays = record {
    absent = first_keeps id w ws s.runs leave o.absent;
    unheld = o.unheld;
    leave = rest_keep id w ws leave;
  };
  asked = λ h. h;
}

destroy_stray-Goes :
    (i id j other : ℕ) (now : ℕ) (e : Estate) (s : Session)
    → Ownerless id s
    → Goes i id s (destroy_stray now j e other s)
unfolding destroy_stray audit_stray
destroy_stray-Goes i id j other now e s o =
    let request : Request = record { driver = j; target = other; runs = s.runs } in
    let action = if e.destroy_ok other then StrayAction.destroyed else StrayAction.destroy_failed in
    record {
      stays = record {
        absent =
            audit_stray-live now other id action (record s { requests = request ∷ s.requests })
            ∙ o.absent;
        unheld = o.unheld;
        leave = o.leave;
      };
      asked = λ h. ground (arith, h);
    }

pub sweep_stray-Goes :
    (i id j other : ℕ) (now : ℕ) (e : Estate) (s : Session)
    → Ownerless id s
    → Goes i id s (sweep_stray now j e other s)
unfolding sweep_stray
sweep_stray-Goes i id j other now e s o =
    let fresh = commit s in
    let there = commit_before-Goes i id s.others s o o.leave in
    if_cases (Goes i id s) (is_live_run (get_run other fresh)) fresh
      (destroy_stray now j e other fresh) (λ live. there)
      (λ gone.
        Goes-trans i id s fresh (destroy_stray now j e other fresh) there
          (destroy_stray-Goes i id j other now e fresh there.stays))

pub sweep_strays-Goes :
    (i id j now : ℕ) (e : Estate) (ids : List ℕ) (s : Session)
    → Ownerless id s
    → Goes i id s (sweep_strays now j e ids s)
unfolding sweep_strays
sweep_strays-Goes i id j now e [] s o = Goes-refl i id s o
sweep_strays-Goes i id j now e (other ∷ ids) s o =
    let next = sweep_stray now j e other s in
    let one = sweep_stray-Goes i id j other now e s o in
    Goes-trans i id s next (sweep_strays now j e ids next) one
      (sweep_strays-Goes i id j now e ids next one.stays)

sweep_driver-Goes :
    (i id j now : ℕ) (e : Estate) (listing : Listing) (s : Session)
    → Ownerless id s
    → Goes i id s (sweep_driver now j e listing s)
unfolding sweep_driver
sweep_driver-Goes i id j now e Listing.not_supported s o = Goes-refl i id s o
sweep_driver-Goes i id j now e Listing.list_failed s o = Goes-refl i id s o
sweep_driver-Goes i id j now e (Listing.owned ids) s o =
    let fresh = commit s in
    let there = commit_before-Goes i id s.others s o o.leave in
    let found = strays (live_run_ids fresh.runs) ids in
    Goes-trans i id s fresh (sweep_strays now j e found fresh) there
      (sweep_strays-Goes i id j now e found fresh there.stays)

module _ (i id now : ℕ) (estates : ℕ → Estate) where
  pub sweep_fleet-Goes :
      (driver : Option ℕ) (turn : List ℕ × Session)
      → Ownerless id turn.1
      → Goes i id turn.1 (sweep_fleet now estates driver turn).1
  unfolding sweep_fleet
  sweep_fleet-Goes none (seen, s) o = Goes-refl i id s o
  sweep_fleet-Goes (some j) (seen, s) o =
      let listing = (estates j).listing in
      if_cases (λ (t : List ℕ × Session). Goes i id s t.1) (member j seen) (seen, s)
        (j ∷ seen, sweep_driver now j (estates j) listing s) (λ e. Goes-refl i id s o)
        (λ e. sweep_driver-Goes i id j now (estates j) listing s o)

  pub sweep_fleets-Goes :
      (fs : List Fleet) (turn : List ℕ × Session)
      → Ownerless id turn.1
      → Goes i id turn.1 (sweep_fleets now estates fs turn).1
  unfolding sweep_fleets
  sweep_fleets-Goes [] turn o = Goes-refl i id turn.1 o
  sweep_fleets-Goes (f ∷ fs) turn o =
      let next = sweep_fleet now estates f.driver turn in
      let one = sweep_fleet-Goes f.driver turn o in
      Goes-trans i id turn.1 next.1 (sweep_fleets now estates fs next).1 one
        (sweep_fleets-Goes fs next one.stays)
