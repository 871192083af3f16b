-- ===== src/Lifecycle/Shares.antt =====
-- The shares that the leases hold after the rate or the fleet of a run has changed.
use stoker.Prelude.{
  ℕ, zero, suc, ◌+◌, ◌-◌, ◌≤◌, ◌<◌, ◌≡◌, refl, sym, ap, subst, ◌∙◌, inl, inr, false, Option, none,
  some, List, [], ◌∷◌, ◌++◌, arith, String, ◌||◌, length, get_elem?, sum, map, filter, range_from,
  ltb, ◌==◌, Bool-cases, if_false, if_cases, length-append, length-map, length-range_from,
}
use stoker.Engines.Apportion
use stoker.Engines.Apportion.{Share, RateMode}
use stoker.Engines.Apportion.Shares.{mode_total, values, Apportioned, apportion_shares-exact}
use stoker.Lifecycle.Model.{is_terminal, Lease, Db, Result, ok, raised, EventKind}
use stoker.Lifecycle.Rows.{append_event, mark_retarget}
use stoker.Lifecycle.Apportionment.{build_share_list, assign, apportion_weights}
use stoker.Lifecycle.Operator.{
  new_lease, resize, rescale_run, rescaled_leases, unpriced, scale_rows,
}

-- The leases of a run are in the order of their slots, which count from k.
abbrev pub Slotted : ℕ → List Lease → Type 0
Slotted k [] = Unit {0}
Slotted k (l ∷ ls) = (l.slot ≡ k) × Slotted (suc k) ls

abbrev share_value : Option Share → ℕ
share_value none = 0
share_value (some s) = s.value

-- The values that the leases hold.
abbrev held_values : List Lease → List ℕ
held_values = map (λ l. share_value l.share_json.share)

assigned_value :
    (shares : List Share) (l : Lease) (s : Share)
    → get_elem? shares l.slot ≡ some s
    → share_value (assign shares l).share_json.share ≡ s.value
unfolding assign mark_retarget
assigned_value shares l s h = ground arith

assigned_values :
    (k : ℕ) (shares ss : List Share) (ls : List Lease)
    → Slotted k ls
    → length ss ≡ length ls
    → ((i : ℕ) → get_elem? shares (k + i) ≡ get_elem? ss i)
    → held_values (map (assign shares) ls) ≡ values ss
assigned_values k shares [] [] sl n at_k = refl
assigned_values k shares [] (l ∷ ls) sl n at_k = absurd (omega arith)
assigned_values k shares (s ∷ ss) [] sl n at_k = absurd (omega arith)
assigned_values k shares (s ∷ ss) (l ∷ ls) (e, sl) n at_k =
    cong_cons (assigned_value shares l s (rw e (rw (plus_zero k) at (at_k 0)))) (
      assigned_values (suc k) shares ss ls sl (omega arith)
        λ i. rw (plus_suc k i) at (at_k (suc i)))
  where
    cong_cons : {x y : ℕ} {xs ys : List ℕ} → x ≡ y → xs ≡ ys → x ∷ xs ≡ y ∷ ys
    cong_cons p q = cc (p, q)

    plus_zero : (n : ℕ) → n + 0 ≡ n
    plus_zero n = omega arith

    plus_suc : (n i : ℕ) → n + suc i ≡ suc n + i
    plus_suc n i = omega arith

abbrev leases_of : List Lease → Result Db → List Lease
leases_of ls (raised e) = ls
leases_of ls (ok db) = db.leases

zero_plus : (n : ℕ) → 0 + n ≡ n
zero_plus n = omega arith

assign-slot : (shares : List Share) (l : Lease) → (assign shares l).slot ≡ l.slot
unfolding assign mark_retarget
assign-slot shares l = ground arith

rescaled-Slotted :
    (k : ℕ) (shares : List Share) (ls : List Lease)
    → Slotted k ls
    → Slotted k (map (assign shares) ls)
rescaled-Slotted k shares [] sl = tt
rescaled-Slotted k shares (l ∷ ls) (e, sl) =
    (assign-slot shares l ∙ e, rescaled-Slotted (suc k) shares ls sl)

-- One lease for each of n slots, which together hold the rate.
abbrev pub Holds : ℕ → ℕ → List Lease → Type 0
Holds n rate ls = (length ls ≡ n) × Slotted 0 ls × (sum (held_values ls) ≡ rate)

rescaled-Holds :
    (n rate : ℕ) (mode : RateMode) (shares : List Share) (ls : List Lease)
    → length ls ≡ n
    → Slotted 0 ls
    → Apportioned mode rate n shares
    → Holds n rate (rescaled_leases shares ls)
unfolding rescaled_leases
rescaled-Holds n rate mode shares ls size sl a = (
  length-map (assign shares) ls ∙ size,
  rescaled-Slotted 0 shares ls sl,
  ap sum (
        assigned_values 0 shares shares ls sl (a.one_each ∙ sym size)
          (λ i. ap (get_elem? shares) (zero_plus i)))
      ∙ a.exact,
)

-- The rows that an apportionment over all leases leaves.
unpriced-Holds :
    (mode : RateMode) (rate : Option ℕ) (n : ℕ) (ls : List Lease) (k : List Share → Db) (db' : Db)
    → length ls ≡ n
    → Slotted 0 ls
    → ((shares : List Share) → (k shares).leases ≡ rescaled_leases shares ls)
    → unpriced (build_share_list mode rate n) k ≡ ok db'
    → Holds n (mode_total mode rate) db'.leases
unfolding build_share_list
unpriced-Holds mode rate n ls k db' size sl same h = priced (build_share_list mode rate n) refl h
  where
    priced :
        (r : Apportion.Result)
        → build_share_list mode rate n ≡ r
        → unpriced r k ≡ ok db'
        → Holds n (mode_total mode rate) db'.leases
    priced (Apportion.error e) b u = cc
    priced (Apportion.ok shares) b u =
        subst (λ (x : List Lease). Holds n (mode_total mode rate) x)
          (sym (same shares) ∙ ap (leases_of ls) u)
          (rescaled-Holds n (mode_total mode rate) mode shares ls size sl
            (apportion_shares-exact mode rate n (some (apportion_weights n)) shares b))

-- When rescale_run succeeds on a run that has not ended and has leases, the values that the leases
-- hold afterwards sum to exactly the new rate (for count_interval the whole count that it is rounded
-- to, 0 where it is absent), one lease for each slot as before.
pub rescale_run-exact :
    (now : ℕ) (rate : Option ℕ) (actor : String) (db db' : Db)
    → is_terminal db.run.state ≡ false
    → 0 < length db.leases
    → Slotted 0 db.leases
    → rescale_run now rate actor db ≡ ok db'
    → Holds (length db.leases) (mode_total db.run.snapshot.rate_mode rate) db'.leases
unfolding rescale_run
rescale_run-exact now rate actor db db' t n sl h =
    unpriced-Holds db.run.snapshot.rate_mode rate (length db.leases) db.leases
      (λ shares. append_event now actor EventKind.rescaled (record db {
        run = record db.run { snapshot = record db.run.snapshot { rate_value = rate } };
        leases = rescaled_leases shares db.leases;
      }))
      db' refl sl (λ shares. refl)
      (if_false (λ x. x ≡ ok db') (is_terminal db.run.state || length db.leases == 0) (ok db) _
        (ground arith) h)

Slotted-append :
    (k : ℕ) (ls ms : List Lease) → Slotted k ls → Slotted (k + length ls) ms → Slotted k (ls ++ ms)
Slotted-append k [] ms a b = subst (λ (n : ℕ). Slotted n ms) (omega arith) b
Slotted-append k (l ∷ ls) ms a b =
    (a.0, Slotted-append (suc k) ls ms a.1 (subst (λ (n : ℕ). Slotted n ms) (omega arith) b))

Slotted-new : (ids : ℕ → ℕ) (k n : ℕ) → Slotted k (map (new_lease ids) (range_from k n))
Slotted-new ids k zero = tt
Slotted-new ids k (suc n) = (refl, Slotted-new ids (suc k) n)

abbrev below : ℕ → List Lease → List Lease
below n = filter (λ (l : Lease). ltb l.slot n)

below-none : (k n : ℕ) (ls : List Lease) → Slotted k ls → n ≤ k → below n ls ≡ []
below-none k n [] sl h = refl
below-none k n (l ∷ ls) (e, sl) h = ground (arith, below-none (suc k) n ls sl)

below-Slotted : (k n : ℕ) (ls : List Lease) → Slotted k ls → Slotted k (below n ls)
below-Slotted k n [] sl = tt
below-Slotted k n (l ∷ ls) (e, sl) = elim (Bool-cases (ltb l.slot n)) [
  | inl keep ↦ rw keep (e, below-Slotted (suc k) n ls sl)
  | inr drop ↦ rw drop (rw (below-none (suc k) n ls sl (ground arith)) tt)
]

length-below :
    (k n : ℕ) (ls : List Lease)
    → Slotted k ls
    → k ≤ n
    → n ≤ k + length ls
    → k + length (below n ls) ≡ n
length-below k n [] sl a b = omega arith
length-below k n (l ∷ ls) (e, sl) a b =
    ground (arith, length-below (suc k) n ls sl, below-none (suc k) n ls sl)

resize-Slotted :
    (ids : ℕ → ℕ) (workers : ℕ) (ls : List Lease) → Slotted 0 ls → Slotted 0 (resize ids workers ls)
unfolding resize
resize-Slotted ids workers ls sl =
    if_cases (λ x. Slotted 0 x) (ltb (length ls) workers) _ _
      (λ more. Slotted-append 0 ls _ sl (
        subst
          (λ (n : ℕ).
            Slotted n (map (new_lease ids) (range_from (length ls) (workers - length ls))))
          (omega arith) (Slotted-new ids (length ls) (workers - length ls))))
      λ h.
        if_cases (λ x. Slotted 0 x) (ltb workers (length ls)) _ _
          (λ fewer. below-Slotted 0 workers ls sl) λ same. sl

length-resize :
    (ids : ℕ → ℕ) (workers : ℕ) (ls : List Lease)
    → Slotted 0 ls
    → length (resize ids workers ls) ≡ workers
unfolding resize
length-resize ids workers ls sl = ground (
  arith,
  length-append ls (map (new_lease ids) (range_from (length ls) (workers - length ls))),
  length-map (new_lease ids) (range_from (length ls) (workers - length ls)),
  length-range_from (length ls) (workers - length ls),
  length-below 0 workers ls sl,
)

-- When the row changes of scale_run succeed, the run has as many leases as workers were asked for,
-- in the slots from 0 on, and the values that they hold sum to exactly the rate of the run
-- (for count_interval the whole count that it is rounded to).
pub scale_rows-exact :
    (now workers : ℕ) (ids : ℕ → ℕ) (actor : String) (db db' : Db)
    → Slotted 0 db.leases
    → scale_rows now workers ids actor db ≡ ok db'
    → Holds workers (mode_total db.run.snapshot.rate_mode db.run.snapshot.rate_value) db'.leases
unfolding scale_rows
scale_rows-exact now workers ids actor db db' sl h =
    unpriced-Holds db.run.snapshot.rate_mode db.run.snapshot.rate_value workers
      (resize ids workers db.leases)
      (λ shares. append_event now actor EventKind.scaled (record db {
        run = record db.run { snapshot = record db.run.snapshot { workers = some workers } };
        leases = rescaled_leases shares (resize ids workers db.leases);
      }))
      db' (length-resize ids workers db.leases sl) (resize-Slotted ids workers db.leases sl)
      (λ shares. refl) h
