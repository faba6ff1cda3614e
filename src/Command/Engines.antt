-- ===== src/Command/Engines.antt =====
-- scheduler/cmd/scheduler/main.go: `parseEngines` and `buildPolicy`. `TrimSpace` is modelled for the
-- white space of ASCII.
use edge_sched.Prelude.{
  ℕ, ◌==◌, ◌||◌, if◌then◌else◌, Bool, List, [], ◌∷◌, Option, none, some, map, Result, ok, err,
  panic,
}
use edge_sched.Prelude.Int.{ℤ}
use edge_sched.Prelude.Bytes.{Bytes, bytes, str_eq}
use edge_sched.Prelude.Split.{split, split_two}
use edge_sched.Prelude.Maps.{GoMap, put}
use edge_sched.Prelude.Floats.{Floats}
use edge_sched.Routing.Policy.{Policy, least_queue, thermal_aware}

abbrev pub is_blank : ℕ → Bool
is_blank c = c == 32 || c == 9 || c == 10 || c == 11 || c == 12 || c == 13

unfoldable pub trim_left : Bytes → Bytes
trim_left [] = []
trim_left (c ∷ s) = if is_blank c then trim_left s else c ∷ s

-- A blank goes if nothing is left after it.
abbrev pub unless_last_blank : ℕ → Bytes → Bytes
unless_last_blank c [] = if is_blank c then [] else c ∷ []
unless_last_blank c (d ∷ s) = c ∷ d ∷ s

unfoldable pub trim_right : Bytes → Bytes
trim_right [] = []
trim_right (c ∷ s) = unless_last_blank c (trim_right s)

unfoldable pub trim_space : Bytes → Bytes
unfolding trim_left trim_right
trim_space s = trim_right (trim_left s)

-- The errors, with the pair or the name that they quote.
pub data SpecError : Type 0 where
  invalid_engine_spec : Bytes → SpecError
  no_engines_specified : SpecError
  requires_cheap_tier : SpecError
  unknown_policy : Bytes → SpecError

-- One round of the loop over the pairs, with the trimmed pair.
unfoldable pub add_parts :
    Bytes → Option (Bytes × Bytes) → GoMap Bytes → Result SpecError (GoMap Bytes)
add_parts pair none m = err (invalid_engine_spec pair)
add_parts pair (some (name, addr)) m = ok (put name addr m)

unfoldable pub add_pair : Bytes → GoMap Bytes → Result SpecError (GoMap Bytes)
unfolding add_parts split_two
add_pair [] m = ok m
add_pair (c ∷ pair) m = add_parts (c ∷ pair) (split_two b'=' (c ∷ pair)) m

unfoldable pub add_pairs :
    List Bytes → Result SpecError (GoMap Bytes) → Result SpecError (GoMap Bytes)
unfolding add_pair trim_space
add_pairs pairs (err e) = err e
add_pairs pairs panic = panic
add_pairs [] (ok m) = ok m
add_pairs (pair ∷ pairs) (ok m) = add_pairs pairs (add_pair (trim_space pair) m)

abbrev pub not_empty : Result SpecError (GoMap Bytes) → Result SpecError (GoMap Bytes)
not_empty (ok []) = err no_engines_specified
not_empty (ok (e ∷ m)) = ok (e ∷ m)
not_empty (err e) = err e
not_empty panic = panic

unfoldable pub parse_engines : Bytes → Result SpecError (GoMap Bytes)
unfolding add_pairs split
parse_engines spec = not_empty (add_pairs (split b',' spec) (ok []))

module _ (fl : Floats) where
  abbrev pub thermal_aware_policy : Bytes → fl.F → ℤ → Result SpecError (Policy fl)
  thermal_aware_policy [] temp_threshold count = err requires_cheap_tier
  thermal_aware_policy (c ∷ spec) temp_threshold count = ok (record {
    kind = thermal_aware (record {
      tiers = map trim_space (split b',' (c ∷ spec));
      temp_threshold_c = temp_threshold;
      cheap_tier_count = count;
    });
    tb = record { counter = 0 };
  })

  unfoldable pub build_policy : Bytes → Bytes → fl.F → ℤ → Result SpecError (Policy fl)
  unfolding trim_space split str_eq
  build_policy name cheap_tier temp_threshold count =
      if str_eq name (bytes "least-queue")
      then ok (record { kind = least_queue; tb = record { counter = 0 } })
      else if str_eq name (bytes "thermal-aware")
      then thermal_aware_policy cheap_tier temp_threshold count
      else err (unknown_policy name)
