-- ===== src/Worker/Pacing/Budget.antt =====
-- The bucket's quota at one rate.
use mathlib.Core.Option.{some-injective}
use stoker.Prelude.{
  subst, ℕ, ◌+◌, ◌-◌, ◌*◌, ◌<◌, ◌≡◌, refl, ap, ◌∙◌, inl, inr, some, List, [], ◌∷◌, map, sum, arith,
  Bool-cases, ◌==◌,
}
use stoker.Prelude.Int.{ℤ, pos, pos_part, neg_part, ◌-ℤ◌, ◌+ℤ◌, ltb_ℤ, int_laws, one_part}
use stoker.Worker.Pacing.{
  event, Fraction, Bucket, new_bucket, owed, released_quota, max_backlog, backlog, cap_backlog,
  take_owed, try_take, take_many, many_round, lag, Call, apply, run_calls, pause, resume, close,
}

-- The calls that keep the anchor and the rate.
abbrev pub IsSteady : Call → Type 0
IsSteady (Call.anchor_call t0) = ⊥
IsSteady (Call.retarget_call r) = ⊥
IsSteady _ = Unit {0}

abbrev pub AllSteady : List (ℕ × Call) → Type 0
AllSteady [] = Unit {0}
AllSteady ((t, c) ∷ cs) = IsSteady c × AllSteady cs

-- The discarded quota, where every summand is a quotient by the rate.
abbrev pub discarded_quota : List Fraction → ℕ
discarded_quota fs = sum (map (λ (f : Fraction). f.num) fs)

abbrev pub AllOver : ℕ → List Fraction → Type 0
AllOver rate [] = Unit {0}
AllOver rate (f ∷ fs) = (f.den ≡ rate) × AllOver rate fs

-- The anchor has moved by what was discarded, and by nothing else.
pub record Accounts (rate t0 : ℕ) (b : Bucket) : Type 0 where
  pub same_rate : b.rate ≡ rate
  pub moved : b.start ≡ pos (rate * t0 + discarded_quota b.discarded)
  pub over_rate : AllOver rate b.discarded

slide :
    (n m r d : ℕ) (start : ℤ)
    → start ≡ pos d
    → m < pos_part (pos n -ℤ start -ℤ pos r)
    → pos n -ℤ pos (r + m) ≡ pos (d + (pos_part (pos n -ℤ start -ℤ pos r) - m))
slide n m r d start e h =
    omega (int_laws, ap pos_part e, ap neg_part e, one_part (pos n -ℤ start -ℤ pos r))

cap_backlog-Accounts :
    (rate t0 now : ℕ) (b : Bucket) → Accounts rate t0 b → Accounts rate t0 (cap_backlog now b)
unfolding cap_backlog owed
cap_backlog-Accounts rate t0 now b a =
    elim (Bool-cases (ltb_ℤ (pos (max_backlog b)) (backlog now b))) [
      | inl e ↦ rw e (record {
        same_rate = a.same_rate;
        moved =
            slide (b.rate * now) (max_backlog b) (released_quota b)
              (rate * t0 + discarded_quota b.discarded) b.start a.moved (ground arith)
            ∙ ap pos (omega arith);
        over_rate = (a.same_rate, a.over_rate);
      })
      | inr e ↦ rw e a
    ]

take_owed-Accounts :
    (rate t0 now : ℕ) (b : Bucket) → Accounts rate t0 b → Accounts rate t0 (take_owed now b).1
unfolding take_owed
take_owed-Accounts rate t0 now b a = ground arith

take_many-Accounts :
    (rate t0 n now : ℕ) (b : Bucket) → Accounts rate t0 b → Accounts rate t0 (take_many n now b).1
unfolding take_many
take_many-Accounts rate t0 n now b a = ground arith

apply-Accounts :
    (rate t0 now : ℕ) (c : Call) (b : Bucket)
    → IsSteady c
    → Accounts rate t0 b
    → Accounts rate t0 (apply now c b)
unfolding apply try_take many_round lag pause resume close
apply-Accounts rate t0 now (Call.anchor_call _) b s a = elim s [ ]
apply-Accounts rate t0 now Call.pause_call b s a = ground arith
apply-Accounts rate t0 now Call.resume_call b s a = ground arith
apply-Accounts rate t0 now Call.close_call b s a = ground arith
apply-Accounts rate t0 now (Call.retarget_call r) b s a = elim s [ ]
apply-Accounts rate t0 now Call.take_call b s a = ground (
  arith,
  take_owed-Accounts rate t0 now (cap_backlog now b) (cap_backlog-Accounts rate t0 now b a),
)
apply-Accounts rate t0 now (Call.take_many_call n) b s a = ground (
  arith,
  take_many-Accounts rate t0 n now (cap_backlog now b) (cap_backlog-Accounts rate t0 now b a),
)
apply-Accounts rate t0 now Call.lag_call b s a = cap_backlog-Accounts rate t0 now b a

run_calls-Accounts :
    (rate t0 : ℕ) (calls : List (ℕ × Call)) (b : Bucket)
    → AllSteady calls
    → Accounts rate t0 b
    → Accounts rate t0 (run_calls calls b)
unfolding run_calls
run_calls-Accounts rate t0 [] b s a = a
run_calls-Accounts rate t0 ((t, c) ∷ cs) b s a =
    run_calls-Accounts rate t0 cs (apply t c b) s.1 (apply-Accounts rate t0 t c b s.0 a)

balance :
    (rate t0 now : ℕ) (b : Bucket)
    → Accounts rate t0 b
    → pos (released_quota b) +ℤ backlog now b +ℤ pos (discarded_quota b.discarded)
      ≡ pos (rate * now) -ℤ pos (rate * t0)
unfolding owed
balance rate t0 now b a =
    omega (int_laws, ap (λ (r : ℕ). r * now) a.same_rate, ap pos_part a.moved, ap neg_part a.moved)

new_bucket-Accounts :
    (rate catchup start : ℕ) (b : Bucket)
    → new_bucket rate catchup start ≡ some b
    → Accounts rate start b
unfolding new_bucket
new_bucket-Accounts rate catchup start b made = elim (Bool-cases (rate == 0)) [
  | inl e ↦ cc (rw e at made)
  | inr e ↦
      subst (λ (c : Bucket). Accounts rate start c) (some-injective _ _ (rw e at made))
        (record { same_rate = refl; moved = ap pos (omega arith); over_rate = tt })
]

-- As long as neither the anchor nor the rate is changed, whatever threads take, pause, resume or read
-- the lag and in whatever order the clock reads, the quota released, the quota still owed and the
-- quota discarded add up to exactly the rate times the time since the start, and every discarded
-- summand is over that rate.
pub new_bucket-balance :
    (rate catchup start now : ℕ) (b : Bucket) (calls : List (ℕ × Call))
    → new_bucket rate catchup start ≡ some b
    → AllSteady calls
    → let c = run_calls calls b in
      (pos (c.released * event) +ℤ backlog now c +ℤ pos (discarded_quota c.discarded)
        ≡ pos (rate * now) -ℤ pos (rate * start))
      × AllOver rate c.discarded
new_bucket-balance rate catchup start now b calls made s =
    let a =
      run_calls-Accounts rate start calls b s (new_bucket-Accounts rate catchup start b made) in
    (balance rate start now (run_calls calls b) a, a.over_rate)
