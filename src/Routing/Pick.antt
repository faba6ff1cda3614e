-- ===== src/Routing/Pick.antt =====
-- scheduler/internal/routing/policy.go: `EngineState`, `filterHealthy` and the tie breaker.
use edge_sched.Prelude.{
  ℕ, ◌+◌, ◌-◌, ◌%◌, ltb, ◌==◌, if◌then◌else◌, Bool, List, [], ◌∷◌, Option, none, some, length,
  get_elem?, keep, Result, ok, err, panic,
}
use edge_sched.Prelude.Bytes.{Bytes}
use edge_sched.Prelude.Sort.{sort_by}

pub record EngineState : Type 0 where
  pub name : Bytes
  pub queue_depth : ℕ
  pub healthy : Bool

-- The errors that a policy returns.
pub data RoutingError : Type 0 where
  no_engines_available no_healthy_engines : RoutingError

abbrev pub engine_name : EngineState → Bytes
engine_name e = e.name

abbrev pub is_healthy : EngineState → Bool
is_healthy e = e.healthy

unfoldable pub filter_healthy : List EngineState → List EngineState
filter_healthy engines = keep is_healthy engines

-- A counter of 64 bits, which wraps.
pub record TieBreaker : Type 0 where
  pub counter : ℕ

-- `tb.counter.Add(1)`: the new value.
abbrev pub uint64_add : ℕ → ℕ → ℕ
uint64_add a b = (a + b) % 18446744073709551616

-- `a - b` on uint64.
abbrev pub uint64_sub : ℕ → ℕ → ℕ
uint64_sub a b = (a + 18446744073709551616 - b) % 18446744073709551616

-- The loop over `sorted[1:]` that finds the least queue depth.
unfoldable pub min_depth : ℕ → List EngineState → ℕ
min_depth least [] = least
min_depth least (e ∷ es) = min_depth (if ltb e.queue_depth least then e.queue_depth else least) es

abbrev pub has_depth : ℕ → EngineState → Bool
has_depth d e = e.queue_depth == d

unfoldable pub tied_at : ℕ → List EngineState → List EngineState
tied_at d sorted = keep (has_depth d) sorted

-- `tied[idx].Name`: an index out of range panics.
abbrev pub name_at : Option EngineState → Result RoutingError Bytes
name_at none = panic
name_at (some e) = ok e.name

-- `tied[(tb.counter.Add(1)-1) % uint64(len(tied))]`; the remainder by 0 panics.
unfoldable pub choose : ℕ → List EngineState → Result RoutingError Bytes
choose added [] = panic
choose added (e ∷ es) = name_at (get_elem? (e ∷ es) (uint64_sub added 1 % length (e ∷ es)))

-- What `pick` does with the sorted copy; `sorted[0]` of an empty slice panics.
unfoldable pub pick_sorted : ℕ → List EngineState → Result RoutingError Bytes
unfolding choose tied_at min_depth
pick_sorted added [] = panic
pick_sorted added (e ∷ es) = choose added (tied_at (min_depth e.queue_depth es) (e ∷ es))

unfoldable pub pick : TieBreaker → List EngineState → Result RoutingError Bytes × TieBreaker
unfolding pick_sorted sort_by
pick tb [] = (err no_engines_available, tb)
pick tb (e ∷ es) =
    let added = uint64_add tb.counter 1 in
    (pick_sorted added (sort_by engine_name (e ∷ es)), record { counter = added })
