-- ===== src/Worker/Sock/Granting.antt =====
-- The batches of _handle_hec_lines.
use stoker.Prelude.{
  if_cases, ℕ, zero, suc, ◌-◌, ◌≤◌, ◌<◌, ◌≡◌, refl, sym, ap, ◌∙◌, Bool, true, false, not, ◌||◌,
  Option, none, some, List, [], ◌∷◌, ◌++◌, length, take, drop, length-append, ◌==◌, arith,
}
use mathlib.Core.List.{append_assoc, append-nil}
use stoker.Worker.Hec.{Bytes}
use stoker.Worker.Sock.{
  Progress, accept, reject, good_lines, bad_lines, Grants, grant_loop, handle_hec_lines,
}

take-append-drop : {A : Type 0} (n : ℕ) (xs : List A) → take n xs ++ drop n xs ≡ xs
take-append-drop zero xs = refl
take-append-drop (suc n) [] = refl
take-append-drop (suc n) (x ∷ xs) = ap (λ ys. x ∷ ys) (take-append-drop n xs)

length-drop_le : {A : Type 0} (n : ℕ) (xs : List A) → 0 < n → length (drop n xs) ≤ length xs - 1
length-drop_le zero xs h = absurd (omega arith)
length-drop_le (suc zero) [] h = omega arith
length-drop_le (suc zero) (x ∷ xs) h = omega arith
length-drop_le (suc (suc n)) [] h = omega arith
length-drop_le (suc (suc n)) (x ∷ xs) h = omega (arith, length-drop_le (suc n) xs (omega arith))

accept-accept :
    (xs ys : List Bytes) (p : Progress Bytes) → accept ys (accept xs p) ≡ accept (xs ++ ys) p
accept-accept xs ys p = ground (arith, append_assoc p.forwarded xs ys, length-append xs ys)

accept-nil : (p : Progress Bytes) → accept [] p ≡ p
accept-nil p = ground (arith, append-nil p.forwarded)

-- What was forwarded of some lines: the first of them, and all where the reader goes on.
pub record Forwarded (good : List Bytes) (p : Progress Bytes) (going : Bool) (q : Progress Bytes)
    : Type 0 where
  pub taken : List Bytes
  pub left : List Bytes
  pub in_order : good ≡ taken ++ left
  pub counted : q ≡ accept taken p
  pub all_taken : going ≡ true → left ≡ []

abbrev pub Outcome : List Bytes → Progress Bytes → Option (Bool × Progress Bytes) → Type 0
Outcome good p none = ⊥
Outcome good p (some (going, q)) = Forwarded good p going q

nothing_taken :
    (going : Bool) (good : List Bytes) (p : Progress Bytes)
    → (going ≡ true → good ≡ [])
    → Forwarded good p going p
nothing_taken going good p h = record {
  taken = [];
  left = good;
  in_order = refl;
  counted = sym (accept-nil p);
  all_taken = h;
}

taken_before :
    (n : ℕ) (good : List Bytes) (p : Progress Bytes) (r : Option (Bool × Progress Bytes))
    → Outcome (drop n good) (accept (take n good) p) r
    → Outcome good p r
taken_before n good p none h = h
taken_before n good p (some (going, q)) h = record {
  taken = take n good ++ h.taken;
  left = h.left;
  in_order =
      sym (take-append-drop n good)
      ∙ ap (λ ys. take n good ++ ys) h.in_order
      ∙ sym (append_assoc (take n good) h.taken h.left);
  counted = h.counted ∙ accept-accept (take n good) h.taken p;
  all_taken = h.all_taken;
}

empty_of_length : (xs : List Bytes) → (length xs == 0) ≡ true → xs ≡ []
empty_of_length [] h = refl
empty_of_length (x ∷ xs) h = ground arith

-- As much fuel as there are lines is enough.
grant_loop-Outcome :
    (fuel : ℕ) (grants : Grants) (good : List Bytes) (p : Progress Bytes)
    → length good ≤ fuel
    → Outcome good p (grant_loop fuel grants good p)
unfolding grant_loop
grant_loop-Outcome zero grants [] p h = nothing_taken true [] p (λ e. refl)
grant_loop-Outcome zero grants (x ∷ xs) p h = absurd (omega arith)
grant_loop-Outcome (suc fuel) grants good p h =
    if_cases (Outcome good p) (length good == 0) (some (true, p)) _
      (λ e. nothing_taken true good p (λ _. empty_of_length good e))
      λ some_left.
        if_cases (Outcome good p) (n == 0 || not (grants.takes p.received)) (some (false, p)) _
          (λ e. nothing_taken false good p (λ g. cc g))
          λ granted. taken_before n good p _ (
            grant_loop-Outcome fuel grants (drop n good) (accept (take n good) p)
              (shorter some_left granted))
  where
    n : ℕ
    n = grants.grant p.received (length good)

    shorter :
        (length good == 0) ≡ false
        → (n == 0 || not (grants.takes p.received)) ≡ false
        → length (drop n good) ≤ fuel
    shorter e g = ground (arith, length-drop_le n good)

-- _handle_hec_lines always ends, whatever number of lines each grant of the bucket allows: it counts
-- every bad line of the chunk as malformed and forwards the good lines in their order, each once and
-- counted; all of them where it lets the reader go on, and the first of them where the bucket is closed
-- or the client stopped.
pub handle_hec_lines-Outcome :
    (grants : Grants) (raws : List Bytes) (p : Progress Bytes)
    → Outcome (good_lines raws) (reject (bad_lines raws) p) (handle_hec_lines grants raws p)
unfolding handle_hec_lines
handle_hec_lines-Outcome grants raws p =
    grant_loop-Outcome (length (good_lines raws)) grants (good_lines raws)
      (reject (bad_lines raws) p) (omega arith)
