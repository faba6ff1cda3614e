-- ===== src/Examples/Percentiles.antt =====
-- Percentiles of a few times, with natural numbers as floats.
use native.Mathlib.Nat.{
  div_self, mul-le-mul_right, div-le_of_le-mul, le-div_iff_mul-le, div-mul-le_self,
}
use edge_sched.Prelude.{
  ℕ, ◌*◌, ◌/◌, ◌≤◌, ◌≡◌, refl, true, false, List, [], ◌∷◌, none, some, ltb, leb, arith,
}
use edge_sched.Prelude.Int.{pos, pos_part}
use edge_sched.Prelude.Floats.{Floats, IsIeee, Scaling, IsScaling}
use edge_sched.Loadgen.Latency.{Latencies, latencies}
use edge_sched.Loadgen.Percentiles.{AreOrdered, latencies-ordered}

leb-le : (a b : ℕ) → leb a b ≡ true → a ≤ b
leb-le a b h = ground (arith, h)

zero_le : (n : ℕ) → 0 ≤ 0 * n
zero_le n = omega arith

trans_le : {a b c : ℕ} → a ≤ b → b ≤ c → a ≤ c
trans_le h k = omega (arith, h, k)

abbrev pub naturals : Floats
naturals = record {
  F = ℕ;
  F32 = ℕ;
  lt = ltb;
  le = leb;
  is_nan = λ a. false;
  of_int = pos_part;
  of_float32 = λ a. a;
  div = λ a b. a / b;
  parse = λ s. none;
}

abbrev pub natural_ops : Scaling naturals
natural_ops = record { mul = λ a b. a * b; to_int = pos }

pub naturals-IsIeee : IsIeee naturals
naturals-IsIeee = record {
  lt_irrefl = λ a. ground arith;
  lt_trans = λ a b c h k. ground (arith, h, k);
  lt-not_nan = λ a b h. (refl, refl);
  le-not_lt = λ a b p q. ground arith;
  lt_weak = λ a b c n h k. ground (arith, h, k);
  of_int-not_nan = λ n. refl;
}

pub naturals-IsScaling : IsScaling naturals natural_ops
naturals-IsScaling = record {
  le_trans = λ a b c h k. ground (arith, h, k);
  of_int_mono = λ m n h. ground (arith, h);
  div_mono = λ a b n p h.
      ground (arith, (le-div_iff_mul-le p).1 (trans_le (div-mul-le_self a n) (leb-le a b h)));
  zero_div = λ n p. omega (arith, div-le_of_le-mul 0 (zero_le n));
  div_self = λ n p. div_self p;
  mul_mono = λ a b n p h q. ground (arith, mul-le-mul_right n (leb-le a b h));
  zero_mul = λ n. omega arith;
  one_mul = λ n. omega arith;
  to_int_range = λ a n p h e. (a, refl, ground (arith, h));
  to_int_mono = λ a b n p h q e. ground (arith, h);
}

abbrev times : List ℕ
times = 30 ∷ 10 ∷ 20 ∷ []

latencies_test :
    latencies naturals natural_ops times
    ≡ some (record { p50 = 10; p95 = 10; p99 = 10; max_ms = 30 })
unfolding latencies
latencies_test = refl

latencies-ordered_example :
    (l : Latencies naturals) × (latencies naturals natural_ops times ≡ some l)
    × AreOrdered naturals natural_ops naturals-IsScaling naturals-IsIeee times l
latencies-ordered_example =
    latencies-ordered naturals natural_ops naturals-IsScaling naturals-IsIeee times
      (refl, (refl, (refl, tt))) (omega arith) (omega arith)
