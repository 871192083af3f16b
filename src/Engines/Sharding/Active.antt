-- ===== src/Engines/Sharding/Active.antt =====
-- Which slots of a count_interval fleet receive work.
use mathlib.Core.Path.{ap₂}
use native.Mathlib.Nat.{mod-lt, mod-eq_of_lt, le-div_iff_mul-le, div-lt_iff_lt-mul}
use stoker.Prelude.{
  ℕ, zero, suc, ◌+◌, ◌-◌, ◌*◌, ◌/◌, ◌%◌, ◌≤◌, ◌<◌, ◌≡◌, refl, ap, ◌∙◌, inl, inr, min, max, Bool,
  true, false, ◌||◌, List, [], ◌∷◌, ◌++◌, map, replicate, any, count_if, ltb, ◌==◌, if◌then◌else◌,
  arith, Bool-cases, lt→ltb, ltb→lt,
}
use stoker.Engines.Apportion.{largest_remainder}
use stoker.Engines.Apportion.Equal.{equal_split, largest_remainder-equal}
use stoker.Engines.Sharding.{
  StanzaCount, undeclared, negative, declared, is_undeclared, mark, set_true, scan_counts,
  count_interval_active_workers,
}

-- Of n slots the first k are active.
abbrev pub prefix : ℕ → ℕ → List Bool
prefix zero k = []
prefix (suc n) zero = false ∷ prefix n zero
prefix (suc n) (suc k) = true ∷ prefix n k

abbrev positive : List ℕ → List Bool
positive = map (ltb 0)

count_if-prefix : (n k : ℕ) → count_if set_true (prefix n k) ≡ min n k
count_if-prefix zero k = omega arith
count_if-prefix (suc n) zero = omega (arith, count_if-prefix n zero)
count_if-prefix (suc n) (suc k) = omega (arith, count_if-prefix n k)

replicate-prefix : (n : ℕ) → replicate n false ≡ prefix n 0
replicate-prefix zero = refl
replicate-prefix (suc n) = ap (λ bs. false ∷ bs) (replicate-prefix n)

positive-zeros : (m : ℕ) → positive (replicate m 0) ≡ prefix m 0
positive-zeros zero = refl
positive-zeros (suc m) = ap (λ bs. false ∷ bs) (positive-zeros m)

-- Fewer events than slots: the first t slots get one each.
positive-few : (t m : ℕ) → positive (replicate t 1 ++ replicate m 0) ≡ prefix (t + m) t
positive-few zero m = positive-zeros m ∙ ap (λ (n : ℕ). prefix n 0) (omega arith)
positive-few (suc t) m =
    ap (λ bs. true ∷ bs) (positive-few t m) ∙ ap (λ (n : ℕ). prefix n (suc t)) shape
  where
    shape : suc (t + m) ≡ suc t + m
    shape = omega arith

positive-rest : (m q t : ℕ) → 0 < q → m ≤ t → positive (replicate m q) ≡ prefix m t
positive-rest zero q t h b = refl
positive-rest (suc m) q zero h b = absurd (omega arith)
positive-rest (suc m) q (suc t) h b = ap₂ ◌∷◌ (lt→ltb 0 q h) (positive-rest m q t h (omega arith))

positive-many :
    (k m q t : ℕ)
    → 0 < q
    → k + m ≤ t
    → positive (replicate k (suc q) ++ replicate m q) ≡ prefix (k + m) t
positive-many zero m q t h b =
    positive-rest m q t h (omega arith) ∙ ap (λ (n : ℕ). prefix n t) (omega arith)
positive-many (suc k) m q zero h b = absurd (omega arith)
positive-many (suc k) m q (suc t) h b =
    ap₂ ◌∷◌ (lt→ltb 0 (suc q) (omega arith)) (positive-many k m q t h (omega arith))
    ∙ ap (λ (n : ℕ). prefix n (suc t)) shape
  where
    shape : suc (k + m) ≡ suc k + m
    shape = omega arith

no_quotient : {t n : ℕ} → t < n → t / n ≡ 0
no_quotient {t} {n} h =
    let some_slot : 0 < n = omega arith in
    let fits : t < 1 * n = omega arith in omega (arith, (div-lt_iff_lt-mul some_slot).1 fits)

-- A total of t over n equal slots gives work to the first t of them.
positive-equal_split : (t n : ℕ) → 0 < n → positive (equal_split t n) ≡ prefix n t
unfolding equal_split
positive-equal_split t n h = elim (Bool-cases (ltb t n)) [
  | inl few ↦
      let fewer : t < n = ltb→lt t n few in
      ap₂ (λ (k q : ℕ). positive (replicate k (suc q) ++ replicate (n - k) q)) (mod-eq_of_lt fewer)
        (no_quotient fewer)
      ∙ positive-few t (n - t)
      ∙ ap (λ (m : ℕ). prefix m t) (omega arith)
  | inr many ↦
      let more : n ≤ t = ground arith in
      positive-many (t % n) (n - t % n) (t / n) t ((le-div_iff_mul-le h).1 (omega arith))
        (omega (arith, mod-lt t h))
      ∙ ap (λ (m : ℕ). prefix m t) (omega (arith, mod-lt t h))
]

either : List Bool → List Bool → List Bool
either [] active = active
either (b ∷ bs) [] = []
either (b ∷ bs) (a ∷ flags) = (b || a) ∷ either bs flags

mark-either : (ps : List ℕ) (active : List Bool) → mark ps active ≡ either (positive ps) active
unfolding mark either
mark-either [] active = refl
mark-either (p ∷ ps) [] = refl
mark-either (p ∷ ps) (a ∷ flags) = ap (λ bs. (ltb 0 p || a) ∷ bs) (mark-either ps flags)

either-prefix : (n j k : ℕ) → either (prefix n j) (prefix n k) ≡ prefix n (max j k)
unfolding either
either-prefix zero j k = refl
either-prefix (suc n) zero zero =
    ap (λ bs. false ∷ bs) (either-prefix n 0 0) ∙ ap (prefix (suc n)) same
  where
    same : 0 ≡ max 0 0
    same = omega arith
either-prefix (suc n) zero (suc k) =
    ap (λ bs. true ∷ bs) (either-prefix n 0 k) ∙ ap (prefix (suc n)) same
  where
    same : suc (max 0 k) ≡ max 0 (suc k)
    same = omega arith
either-prefix (suc n) (suc j) zero =
    ap (λ bs. true ∷ bs) (either-prefix n j 0) ∙ ap (prefix (suc n)) same
  where
    same : suc (max j 0) ≡ max (suc j) 0
    same = omega arith
either-prefix (suc n) (suc j) (suc k) =
    ap (λ bs. true ∷ bs) (either-prefix n j k) ∙ ap (prefix (suc n)) same
  where
    same : suc (max j k) ≡ max (suc j) (suc k)
    same = omega arith

mark-prefix :
    (t n k : ℕ)
    → 0 < n
    → mark (largest_remainder t (replicate n 1)) (prefix n k) ≡ prefix n (max t k)
mark-prefix t n k h =
    mark-either (largest_remainder t (replicate n 1)) (prefix n k)
    ∙ ap (λ ps. either (positive ps) (prefix n k)) (largest_remainder-equal t n h)
    ∙ ap (λ bs. either bs (prefix n k)) (positive-equal_split t n h)
    ∙ either-prefix n t k

-- Does every slot receive the whole sample of some stanza?
abbrev pub is_unsplit : StanzaCount → Bool
is_unsplit (declared n) = false
is_unsplit _ = true

abbrev pub largest_count : List StanzaCount → ℕ
largest_count [] = 0
largest_count (declared n ∷ cs) = max n (largest_count cs)
largest_count (_ ∷ cs) = largest_count cs

scan_counts-prefix :
    (cs : List StanzaCount) (n k : ℕ)
    → 0 < n
    → scan_counts cs n (prefix n k)
      ≡ (if any is_unsplit cs then n else min n (max k (largest_count cs)))
unfolding scan_counts
scan_counts-prefix [] n k h = count_if-prefix n k ∙ omega arith
scan_counts-prefix (undeclared ∷ cs) n k h = refl
scan_counts-prefix (negative ∷ cs) n k h = refl
scan_counts-prefix (declared t ∷ cs) n k h =
    ap (scan_counts cs n) (mark-prefix t n k h)
    ∙ scan_counts-prefix cs n (max t k) h
    ∙ ap (λ (m : ℕ). if any is_unsplit cs then n else min n m) (omega arith)

undeclared-unsplit :
    (cs : List StanzaCount) → any is_undeclared cs ≡ true → any is_unsplit cs ≡ true
unfolding is_undeclared
undeclared-unsplit [] h = h
undeclared-unsplit (undeclared ∷ cs) h = refl
undeclared-unsplit (negative ∷ cs) h = refl
undeclared-unsplit (declared n ∷ cs) h = undeclared-unsplit cs h

-- The number of workers that receive work is the whole fleet if some stanza declares no count or a
-- negative one, and otherwise the largest declared count, at most the fleet.
pub count_interval_active_workers-eq-min :
    (counts : List StanzaCount) (workers : ℕ)
    → count_interval_active_workers counts workers
      ≡ (if any is_unsplit counts then workers else min workers (largest_count counts))
unfolding count_interval_active_workers
count_interval_active_workers-eq-min cs zero = ground arith
count_interval_active_workers-eq-min cs (suc n) = elim (Bool-cases (any is_undeclared cs)) [
  | inl e ↦ rw (some_workers, e) (rw (undeclared-unsplit cs e) refl)
  | inr e ↦
      rw (some_workers, e)
        (ap (scan_counts cs (suc n)) (replicate-prefix (suc n))
          ∙ scan_counts-prefix cs (suc n) 0 (omega arith)
          ∙ ap (λ (m : ℕ). if any is_unsplit cs then suc n else min (suc n) m) (omega arith))
]
  where
    some_workers : (suc n == 0) ≡ false
    some_workers = ground arith
