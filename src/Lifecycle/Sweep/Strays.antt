-- ===== src/Lifecycle/Sweep/Strays.antt =====
-- The start-up sweep (Lifecycle/Sweep) asks for the destruction of every stray that it can list.
use stoker.Prelude.{
  ℕ, Bool, true, false, ◌≡◌, refl, Option, none, some, List, [], ◌∷◌, any, ◌==◌, if_cases, arith,
  inl, inr, subst, sym, Bool-cases,
}
use stoker.Lifecycle.Model.{Db}
use stoker.Lifecycle.Sweep.{
  Listing, Estate, Fleet, Session, commit, is_live_run, live_run_ids, held_or, member, insert_id,
  strays, audit_stray, destroy_stray, sweep_stray, sweep_strays, sweep_driver, sweep_fleet,
  sweep_fleets, sweep_stray_fleets,
}
use stoker.Lifecycle.Sweep.Spared.{LeaveGone}
use stoker.Lifecycle.Sweep.Asked.{
  was_asked, Ownerless, commit_before-Goes, sweep_stray-Goes, sweep_strays-Goes, sweep_fleet-Goes,
  sweep_fleets-Goes,
}

abbrev pub runs_on : ℕ → Option ℕ → Bool
runs_on i none = false
runs_on i (some j) = i == j

held_or-gone :
    (held read : Option Db)
    → is_live_run held ≡ false
    → is_live_run read ≡ false
    → is_live_run (held_or held read) ≡ false
held_or-gone none read h k = k
held_or-gone (some db) read h k = h

asked_now :
    (i id now : ℕ) (e : Estate) (s : Session)
    → was_asked i id (destroy_stray now i e id s).requests ≡ true
unfolding destroy_stray audit_stray
asked_now i id now e s = ground arith

sweep_stray-asks :
    (i id now : ℕ) (e : Estate) (s : Session)
    → Ownerless id s
    → was_asked i id (sweep_stray now i e id s).requests ≡ true
unfolding sweep_stray
sweep_stray-asks i id now e s o =
    let fresh = commit s in
    let there = (commit_before-Goes i id s.others s o o.leave).stays in
    let gone = held_or-gone (fresh.held id) (fresh.runs id) there.unheld there.absent in
    rw gone (asked_now i id now e fresh)

sweep_strays-asks :
    (i id now : ℕ) (e : Estate) (ids : List ℕ) (s : Session)
    → Ownerless id s
    → member id ids ≡ true
    → was_asked i id (sweep_strays now i e ids s).requests ≡ true
unfolding sweep_strays
sweep_strays-asks i id now e [] s o h = absurd (ground arith)
sweep_strays-asks i id now e (other ∷ ids) s o h =
    let next = sweep_stray now i e other s in
    let one = sweep_stray-Goes i id i other now e s o in
    elim (Bool-cases (other == id)) [
      | inl same ↦ (sweep_strays-Goes i id i now e ids next one.stays).asked (
          subst (λ a. was_asked i id (sweep_stray now i e a s).requests ≡ true)
            (ground (arith, same)) (sweep_stray-asks i id now e s o))
      | inr differ ↦ sweep_strays-asks i id now e ids next one.stays (ground (arith, h, differ))
    ]

member-insert_same : (a : ℕ) (xs : List ℕ) → member a (insert_id a xs) ≡ true
unfolding insert_id
member-insert_same a [] = ground arith
member-insert_same a (x ∷ xs) = ground (arith, member-insert_same a xs)

member-insert_id : (b a : ℕ) (xs : List ℕ) → member b xs ≡ true → member b (insert_id a xs) ≡ true
unfolding insert_id
member-insert_id b a [] h = absurd (ground arith)
member-insert_id b a (x ∷ xs) h = ground (arith, member-insert_id b a xs)

member-strays :
    (id : ℕ) (live : ℕ → Bool) (ids : List ℕ)
    → live id ≡ false
    → member id ids ≡ true
    → member id (strays live ids) ≡ true
unfolding strays
member-strays id live [] e h = h
member-strays id live (x ∷ xs) e h = elim (Bool-cases (x == id)) [
  | inl same ↦
      let path : id ≡ x = ground (arith, same) in
      subst (λ a. member id (strays live (a ∷ xs)) ≡ true) path
        (rw e (member-insert_same id (strays live xs)))
  | inr differ ↦
      let rest = member-strays id live xs e (ground (arith, h, differ)) in
      if_cases (λ ys. member id ys ≡ true) (live x) (strays live xs) (insert_id x (strays live xs))
        (λ l. rest) (λ l. member-insert_id id x (strays live xs) rest)
]

sweep_driver-asks :
    (i id now : ℕ) (e : Estate) (ids : List ℕ) (s : Session)
    → Ownerless id s
    → member id ids ≡ true
    → was_asked i id (sweep_driver now i e (Listing.owned ids) s).requests ≡ true
unfolding sweep_driver
sweep_driver-asks i id now e ids s o h =
    let fresh = commit s in
    let there = (commit_before-Goes i id s.others s o o.leave).stays in
    sweep_strays-asks i id now e (strays (live_run_ids fresh.runs) ids) fresh there
      (member-strays id (live_run_ids fresh.runs) ids there.absent h)

listing-asks :
    (i id now : ℕ) (e : Estate) (ids : List ℕ) (listing : Listing) (s : Session)
    → listing ≡ Listing.owned ids
    → Ownerless id s
    → member id ids ≡ true
    → was_asked i id (sweep_driver now i e listing s).requests ≡ true
listing-asks i id now e ids listing s h o m =
    subst (λ l. was_asked i id (sweep_driver now i e l s).requests ≡ true) (sym h)
      (sweep_driver-asks i id now e ids s o m)

module _ (i id now : ℕ) (estates : ℕ → Estate) where
  sweep_fleet-unseen :
      (driver : Option ℕ) (turn : List ℕ × Session)
      → runs_on i driver ≡ false
      → member i turn.0 ≡ false
      → member i (sweep_fleet now estates driver turn).0 ≡ false
  unfolding sweep_fleet
  sweep_fleet-unseen none (seen, s) h k = k
  sweep_fleet-unseen (some j) (seen, s) h k = ground (arith, h, k)

  module _ (ids : List ℕ) (h : (estates i).listing ≡ Listing.owned ids)
      (m : member id ids ≡ true) where
    sweep_fleet-asks :
        (driver : Option ℕ) (turn : List ℕ × Session)
        → Ownerless id turn.1
        → runs_on i driver ≡ true
        → member i turn.0 ≡ false
        → was_asked i id (sweep_fleet now estates driver turn).1.requests ≡ true
    unfolding sweep_fleet
    sweep_fleet-asks none (seen, s) o r k = absurd (ground arith)
    sweep_fleet-asks (some j) (seen, s) o r k =
        let path : i ≡ j = ground (arith, r) in
        let asked : was_asked i id (sweep_fleet now estates (some i) (seen, s)).1.requests ≡ true =
          rw k (listing-asks i id now (estates i) ids (estates i).listing s h o m) in
        subst (λ a. was_asked i id (sweep_fleet now estates (some a) (seen, s)).1.requests ≡ true)
          path asked

    sweep_fleets-asks :
        (fs : List Fleet) (turn : List ℕ × Session)
        → Ownerless id turn.1
        → member i turn.0 ≡ false
        → any (λ (f : Fleet). runs_on i f.driver) fs ≡ true
        → was_asked i id (sweep_fleets now estates fs turn).1.requests ≡ true
    unfolding sweep_fleets
    sweep_fleets-asks [] turn o k r = absurd (ground arith)
    sweep_fleets-asks (f ∷ fs) turn o k r =
        let next = sweep_fleet now estates f.driver turn in
        let one = sweep_fleet-Goes i id now estates f.driver turn o in
        elim (Bool-cases (runs_on i f.driver)) [
          | inl here ↦
              (sweep_fleets-Goes i id now estates fs next one.stays).asked
                (sweep_fleet-asks f.driver turn o here k)
          | inr later ↦
              sweep_fleets-asks fs next one.stays (sweep_fleet-unseen f.driver turn later k)
                (ground (arith, r, later))
        ]

-- A workload that a driver of the fleet map lists, and whose id has no live run, neither when the
-- sweep begins (in the table or among the rows held) nor by a later write of another session, is
-- asked to be destroyed, whatever the other drivers and the other workloads do: also where other
-- enumerations and destructions fail.
pub sweep-asks_strays :
    (estates : ℕ → Estate) (now i id : ℕ) (ids : List ℕ) (fleets : List Fleet) (s : Session)
    → any (λ (f : Fleet). runs_on i f.driver) fleets ≡ true
    → (estates i).listing ≡ Listing.owned ids
    → member id ids ≡ true
    → is_live_run (s.runs id) ≡ false
    → is_live_run (s.held id) ≡ false
    → LeaveGone id s.others
    → was_asked i id (sweep_stray_fleets now estates fleets s).requests ≡ true
unfolding sweep_stray_fleets
sweep-asks_strays estates now i id ids [] s r h m absent unheld leave = absurd (ground arith)
sweep-asks_strays estates now i id ids (f ∷ fs) s r h m absent unheld leave =
    let o : Ownerless id s = record { absent = absent; unheld = unheld; leave = leave } in
    sweep_fleets-asks i id now estates ids h m (f ∷ fs) ([], commit s)
      (commit_before-Goes i id s.others s o leave).stays refl r
