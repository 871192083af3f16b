-- ===== src/Lifecycle/Scaling.antt =====
-- scale_run, from the operator's request to the shares of the leases.
use stoker.Prelude.{
  ℕ, zero, suc, ◌≡◌, refl, ap, subst, Bool, true, false, Option, none, some, List, String,
  if◌then◌else◌,
}
use stoker.Engines.Apportion.Shares.{mode_total}
use stoker.Lifecycle.Model.{
  is_terminal, Lease, Db, Driver, DriverOp, DriverCall, Result, ok, raised, Error,
}
use stoker.Lifecycle.Rows.{call_driver}
use stoker.Lifecycle.Operator.{effective_workers, scale_rows, scale_fleet, scale_checked, scale_run}
use stoker.Lifecycle.Shares.{Slotted, Holds, scale_rows-exact}

-- Where the operation succeeds, the leases hold the rate.
data ResultHolds (n rate : ℕ) : Result Db → Type 0 where
  refused : (e : Error) → ResultHolds n rate (raised e)
  scaled : (db : Db) → Holds n rate db.leases → ResultHolds n rate (ok db)

result-Holds :
    (n rate : ℕ) (r : Result Db)
    → ((db : Db) → r ≡ ok db → Holds n rate db.leases)
    → ResultHolds n rate r
result-Holds n rate (raised e) h = refused e
result-Holds n rate (ok db) h = scaled db (h db refl)

rows_of : Db → Result Db → List Lease
rows_of db (raised e) = db.leases
rows_of db (ok db') = db'.leases

unpack_Holds :
    (n rate : ℕ) (r : Result Db) (db : Db)
    → ResultHolds n rate r
    → r ≡ ok db
    → Holds n rate db.leases
unfolding rows_of
unpack_Holds n rate (raised e) db h q = cc
unpack_Holds n rate (ok _) db (scaled x h) q =
    subst (λ (ls : List Lease). Holds n rate ls) (ap (rows_of db) q) h

guarded_holds :
    {n rate : ℕ} (b : Bool) {x y : Result Db}
    → ResultHolds n rate x
    → ResultHolds n rate y
    → ResultHolds n rate (if b then x else y)
guarded_holds true hx hy = hx
guarded_holds false hx hy = hy

live_holds :
    {n rate : ℕ} (b : Bool) (x : Result Db) {y : Result Db}
    → b ≡ false
    → ResultHolds n rate y
    → ResultHolds n rate (if b then x else y)
live_holds true x e h = cc
live_holds false x e h = h

module _ (now : ℕ) (d : Driver) (workers : ℕ) (ids : ℕ → ℕ) (actor : String) where
  rows-Holds :
      (db : Db)
      → Slotted 0 db.leases
      → ResultHolds workers
          (mode_total db.run.snapshot.rate_mode db.run.snapshot.rate_value)
          (scale_rows now workers ids actor db)
  rows-Holds db sl =
      result-Holds workers (mode_total db.run.snapshot.rate_mode db.run.snapshot.rate_value) _
        λ db' h. scale_rows-exact now workers ids actor db db' sl h

  fleet-Holds :
      (db : Db)
      → Slotted 0 db.leases
      → ResultHolds workers
          (mode_total db.run.snapshot.rate_mode db.run.snapshot.rate_value)
          (scale_fleet now d workers ids actor db)
  unfolding scale_fleet call_driver
  fleet-Holds db sl = guarded_holds _ (rows-Holds db sl) (
      guarded_holds _
        (rows-Holds (call_driver now (DriverCall.scale workers) DriverOp.scale_op true db) sl)
        (refused _))

  checked-Holds :
      (db : Db) (o : Option ℕ)
      → Slotted 0 db.leases
      → ResultHolds workers
          (mode_total db.run.snapshot.rate_mode db.run.snapshot.rate_value)
          (scale_checked now d workers ids actor db o)
  unfolding scale_checked
  checked-Holds db none sl = guarded_holds _ (refused _) (fleet-Holds db sl)
  checked-Holds db (some zero) sl = guarded_holds _ (refused _) (fleet-Holds db sl)
  checked-Holds db (some (suc n)) sl = guarded_holds _ (refused _) (fleet-Holds db sl)

-- When scale_run succeeds on a run that has not ended, whose leases are in the slots from 0 on, the run
-- has one lease for each worker asked for (a single one for rawreplay), again in the slots from 0 on,
-- and the values that the leases hold sum to exactly the rate of the run
-- (for count_interval the whole count that it is rounded to, 0 where it is absent).
pub scale_run-exact :
    (now : ℕ) (d : Driver) (workers : ℕ) (ids : ℕ → ℕ) (actor : String) (db db' : Db)
    → is_terminal db.run.state ≡ false
    → Slotted 0 db.leases
    → scale_run now d workers ids actor db ≡ ok db'
    → Holds
        (effective_workers db.run.snapshot.engine workers)
        (mode_total db.run.snapshot.rate_mode db.run.snapshot.rate_value)
        db'.leases
unfolding scale_run
scale_run-exact now d workers ids actor db db' t sl h =
    unpack_Holds _ _ _ db'
      (guarded_holds _ (refused _) (
        live_holds _ _ t (
          checked-Holds now d (effective_workers db.run.snapshot.engine workers) ids actor db
            db.run.snapshot.workers sl)))
      h
