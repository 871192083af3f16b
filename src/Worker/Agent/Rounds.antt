-- ===== src/Worker/Agent/Rounds.antt =====
-- Induction over the parts of a round, and over the rounds of the run loop.
use stoker.Prelude.{List, [], ◌∷◌, if_cases}
use stoker.Worker.Agent.{Plan}
use stoker.Worker.Agent.Loop.{
  Readings, Loop, is_draining, proceed, parts, run_parts, round, run_loop,
}

module _ (P : Loop → Type 0) where
  abbrev pub Keeps : (Loop → Loop) → Type 0
  Keeps part = (l : Loop) → P l → P (part l)

  abbrev pub AllKeep : List (Loop → Loop) → Type 0
  AllKeep [] = Unit {0}
  AllKeep (p ∷ ps) = Keeps p × AllKeep ps

  run_parts-Keeps : (ps : List (Loop → Loop)) → AllKeep ps → Keeps (run_parts ps)
  run_parts-Keeps [] k l h = h
  run_parts-Keeps (p ∷ ps) k l h =
      run_parts-Keeps ps k.1 (proceed p l) (if_cases P (is_draining l) _ _ (λ _. h) (λ _. k.0 l h))

  round-Keeps : (plan : Plan) (r : Readings) → AllKeep (parts plan r) → Keeps (round plan r)
  unfolding round
  round-Keeps plan r k = run_parts-Keeps (parts plan r) k

  pub run_loop-Keeps :
      (plan : Plan)
      → ((r : Readings) → AllKeep (parts plan r))
      → (rs : List Readings) → Keeps (run_loop plan rs)
  unfolding run_loop
  run_loop-Keeps plan k [] l h = h
  run_loop-Keeps plan k (r ∷ rs) l h =
      if_cases P (is_draining l) _ _ (λ _. h)
        (λ _. run_loop-Keeps plan k rs (round plan r l) (round-Keeps plan r (k r) l h))
