-- ===== src/Lifecycle/Takeover.antt =====
-- A claim and the worker that held the lease before it.
use stoker.Prelude.{ℕ, Option, none, some}
use stoker.Engines.Apportion
use stoker.Lifecycle.Model.{Db, Lease, Result, ok, raised}

-- The lease id of a slot.
abbrev id_of : Option Lease → Option ℕ
id_of none = none
id_of (some l) = some l.lease_id

abbrev slot_of : Option Lease → Option ℕ
slot_of none = none
slot_of (some l) = some l.slot

abbrev slot_taken : Result (ℕ × Db) → ℕ
slot_taken (raised e) = 0
slot_taken (ok (slot, db)) = slot

abbrev db_taken : Db → Result (ℕ × Db) → Db
db_taken db (raised e) = db
db_taken db (ok (slot, after)) = after
