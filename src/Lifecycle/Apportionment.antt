-- ===== src/Lifecycle/Apportionment.antt =====
-- server/lifecycle.py: the rate of a run put on its leases.
use stoker.Prelude.{
  ℕ, max, Bool, false, not, ◌&&◌, ◌||◌, Option, none, some, List, [], ◌∷◌, replicate, get_elem?,
  ◌==◌, if◌then◌else◌,
}
use stoker.Engines.Apportion.{RateMode, eps, per_day_gb, count_interval, Share, apportion_shares}
use stoker.Engines.Apportion
use stoker.Lifecycle.Model.{is_live, is_ready, share_only, Lease}
use stoker.Lifecycle.Rows.{mark_retarget}

-- apportion_weights: [1.0] * max(1, workers)
abbrev pub apportion_weights : ℕ → List ℕ
apportion_weights workers = replicate (max 1 workers) 1

unfoldable pub build_share_list : RateMode → Option ℕ → ℕ → Apportion.Result
build_share_list mode rate workers =
    apportion_shares mode rate workers (some (apportion_weights workers))

-- A slot's lease at a new apportionment over all slots: a live worker is told by a retarget.
unfoldable pub assign : List Share → Lease → Lease
assign shares l = elim (get_elem? shares l.slot) [
  | none ↦ l
  | some share ↦
      if is_live l.state
      then mark_retarget l share
      else record l { share_json = share_only (some share) }
]

-- _reapportion_ready: the shares in the order of the slots, to the ready leases.
unfoldable pub retarget_ready : List Share → List Lease → List Lease
retarget_ready [] ls = ls
retarget_ready (s ∷ ss) [] = []
retarget_ready (s ∷ ss) (l ∷ ls) =
    let mine = mark_retarget l s ∷ retarget_ready ss ls in
    let next = l ∷ retarget_ready (s ∷ ss) ls in if is_ready l.state then mine else next

abbrev pub mode_rank : RateMode → ℕ
mode_rank eps = 0
mode_rank per_day_gb = 1
mode_rank count_interval = 2

-- public_share(stored) == share
abbrev pub holds_share : Option Share → Share → Bool
holds_share none share = false
holds_share (some s) share = mode_rank s.mode == mode_rank share.mode && s.value == share.value

-- One live lease at a takeover: the claimer's share is written in place, another's is pushed.
unfoldable pub rejoin : ℕ → Share → Lease → Lease
rejoin claimer share l =
    if holds_share l.share_json.share share
    then l
    else if l.slot == claimer
    then record l { share_json = record l.share_json { share = some share } }
    else mark_retarget l share

unfoldable pub reshare_live : ℕ → List Share → List Lease → List Lease
reshare_live claimer [] ls = ls
reshare_live claimer (s ∷ ss) [] = []
reshare_live claimer (s ∷ ss) (l ∷ ls) =
    let mine = rejoin claimer s l ∷ reshare_live claimer ss ls in
    let next = l ∷ reshare_live claimer (s ∷ ss) ls in if is_live l.state then mine else next

-- Does any live lease hold another share than its new one?
unfoldable pub any_changed : List Share → List Lease → Bool
any_changed [] ls = false
any_changed (s ∷ ss) [] = false
any_changed (s ∷ ss) (l ∷ ls) =
    let mine = not (holds_share l.share_json.share s) || any_changed ss ls in
    let next = any_changed (s ∷ ss) ls in if is_live l.state then mine else next
