-- ===== src/Prelude/Rulesets.antt =====
-- Rule sets for omega and grind.
use native.Mathlib.Omega.{arith}
use stoker.Prelude.Tests.{ltb→lt, lt→ltb, leb→le, le→leb}

pub ruleset tests = (arith, ltb→lt, lt→ltb, leb→le, le→leb)
