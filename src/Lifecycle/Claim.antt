-- ===== src/Lifecycle/Claim.antt =====
-- server/lifecycle.py: claim_lease.
use stoker.Prelude.{
  ℕ, ◌+◌, Bool, false, not, ◌&&◌, ◌||◌, Option, none, some, List, [], ◌∷◌, filter, count_if, leb,
  ◌==◌, is_some, if◌then◌else◌,
}
use stoker.Engines.Apportion.{Share}
use stoker.Engines.Apportion
use stoker.Lifecycle.Model.{
  LeaseState, is_terminal, is_live, is_lost, is_claimable, LeaseShare, Lease, EventKind, Run, Db,
  Result, ok, raised, not_accepting, no_free_lease,
}
use stoker.Lifecycle.Rows.{append_event, find_lease, put_lease}
use stoker.Lifecycle.Apportionment.{build_share_list, reshare_live, any_changed}
use stoker.Lifecycle.Complete.{is_draining}

abbrev pub held_by : ℕ → Lease → Bool
held_by holder l = elim l.holder [ none ↦ false | some h ↦ h == holder ]

-- The live lease that a holder already has.
unfoldable pub find_held : ℕ → List Lease → Option Lease
find_held holder [] = none
find_held holder (l ∷ ls) =
    if held_by holder l && is_live l.state then some l else find_held holder ls

-- min(claimable, key=slot)
unfoldable pub lowest_slot : List Lease → Option Lease
lowest_slot [] = none
lowest_slot (l ∷ ls) = elim (lowest_slot ls) [
  | none ↦ some l
  | some m ↦ if leb l.slot m.slot then some l else some m
]

abbrev pub claimable : List Lease → List Lease
claimable = filter (λ l. is_claimable l.state)

abbrev pub hinted : Option ℕ → List Lease → Option Lease
hinted none ls = none
hinted (some slot) ls = find_lease slot ls

unfoldable pub next_claimable : List Lease → Option ℕ → Option Lease
next_claimable leases hint_slot = elim (hinted hint_slot (claimable leases)) [
  | some l ↦ some l
  | none ↦ lowest_slot (claimable leases)
]

-- The previous holder's assigned-work declaration is dropped.
abbrev pub drop_assigned : LeaseShare → LeaseShare
drop_assigned s = record s { assigned_work = none; assigned_reason = none }

-- The claimed lease: a fresh id fences the previous holder off.
unfoldable pub issue : ℕ → ℕ → ℕ → Run → Lease → Lease
issue now holder fresh_id run l = record l {
  lease_id = fresh_id;
  restarts = if is_lost l.state then l.restarts + 1 else l.restarts;
  share_json = if is_lost l.state then drop_assigned l.share_json else l.share_json;
  effective_t0 = if is_some run.t0 then some now else none;
  holder = some holder;
  state = LeaseState.claimed;
  last_heartbeat_at = some now;
}

-- An unapportionable rate is skipped, not raised.
unfoldable pub reshare_takeover : ℕ → ℕ → Apportion.Result → Db → Db
reshare_takeover now slot (Apportion.error e) db = db
reshare_takeover now slot (Apportion.ok shares) db =
    let db' : Db = record db { leases = reshare_live slot shares db.leases } in
    if any_changed shares db.leases
    then append_event now "agent" EventKind.reapportioned db'
    else db'

unfoldable pub reapportion_on_takeover : ℕ → ℕ → Db → Db
reapportion_on_takeover now slot db =
    if is_terminal db.run.state || is_draining db.run.state || not db.run.degraded
    then db
    else reshare_takeover now slot
        (build_share_list db.run.snapshot.rate_mode db.run.snapshot.rate_value
          (count_if (λ (l : Lease). is_live l.state) db.leases))
        db

-- The rows after a claim of the given lease.
unfoldable pub take_lease : ℕ → ℕ → ℕ → Lease → Db → Db
take_lease now holder fresh_id l db =
    let issued : Db = record db {
      leases = put_lease (issue now holder fresh_id db.run l) db.leases;
    } in
    append_event now "agent" (EventKind.claim l.slot) (
      if is_lost l.state && is_some db.run.t0
      then reapportion_on_takeover now l.slot issued
      else issued)

unfoldable pub take_next : ℕ → ℕ → ℕ → Db → Option Lease → Result (ℕ × Db)
take_next now holder fresh_id db none = raised no_free_lease
take_next now holder fresh_id db (some l) = ok (l.slot, take_lease now holder fresh_id l db)

-- A repeated claim renews the lease that its holder has.
unfoldable pub renew_held : ℕ → Lease → Db → Db
renew_held now l db =
    append_event now "agent" (EventKind.claim l.slot)
      (record db { leases = put_lease (record l { last_heartbeat_at = some now }) db.leases })

unfoldable pub claim_or_renew : ℕ → ℕ → Option ℕ → ℕ → Db → Option Lease → Result (ℕ × Db)
claim_or_renew now holder hint_slot fresh_id db (some l) = ok (l.slot, renew_held now l db)
claim_or_renew now holder hint_slot fresh_id db none =
    take_next now holder fresh_id db (next_claimable db.leases hint_slot)

-- fresh_id is what new_lease_id draws. The result names the slot of the lease that is returned.
unfoldable pub claim_lease : ℕ → ℕ → Option ℕ → ℕ → Db → Result (ℕ × Db)
claim_lease now holder hint_slot fresh_id db =
    if is_terminal db.run.state
    then raised not_accepting
    else claim_or_renew now holder hint_slot fresh_id db (find_held holder db.leases)
