-- ===== src/Examples/Floats.antt =====
-- Whole numbers as floats, for the tests.
use edge_sched.Prelude.{false, not, none}
use edge_sched.Prelude.Int.{ℤ, ltz}
use edge_sched.Prelude.Floats.{Floats}

abbrev pub whole : Floats
whole = record {
  F = ℤ;
  F32 = ℤ;
  lt = ltz;
  le = λ a b. not (ltz b a);
  is_nan = λ a. false;
  of_int = λ a. a;
  of_float32 = λ a. a;
  div = λ a b. a;
  parse = λ s. none;
}
