-- ===== src/Examples/Command.antt =====
-- A start with two engines.
use edge_sched.Prelude.{◌≡◌, refl, [], ◌∷◌, Option, some, ok, arith}
use edge_sched.Prelude.Int.{pos}
use edge_sched.Prelude.Bytes.{Bytes, bytes, str_eq}
use edge_sched.Prelude.Maps.{lookup, put}
use edge_sched.Healthcheck.Monitor.{healthy}
use edge_sched.Healthcheck.Status.{is_some}
use edge_sched.Api.Handler.{Site}
use edge_sched.Prelude.Split.{split, split_two}
use edge_sched.Command.Engines.{
  trim_left, trim_right, trim_space, add_parts, add_pair, add_pairs, parse_engines, build_policy,
}
use edge_sched.Command.Listing.{IsListable, engines_text, parse_engines-engines_text}
use edge_sched.Command.Wiring.{Flags, register, register_all, with_specs, start_up, start_up-wired}
use edge_sched.Examples.Floats.{whole}

abbrev U : Type 0
U = Unit {0}

abbrev small : Bytes × Bytes
small = (bytes "n", bytes "h:1")

abbrev large : Bytes × Bytes
large = (bytes "m", bytes "h=2")

small-IsListable : IsListable small
small-IsListable = record {
  name_plain = ((refl, refl), tt);
  name_no_equals = (refl, tt);
  addr_plain = ((refl, refl), ((refl, refl), ((refl, refl), tt)));
}

large-IsListable : IsListable large
large-IsListable = record {
  name_plain = ((refl, refl), tt);
  name_no_equals = (refl, tt);
  addr_plain = ((refl, refl), ((refl, refl), ((refl, refl), tt)));
}

parse_engines-engines_text_example :
    parse_engines (engines_text small (large ∷ [])) ≡ ok (small ∷ large ∷ [])
parse_engines-engines_text_example =
    parse_engines-engines_text small (large ∷ []) (small-IsListable, (large-IsListable, tt))
      (((λ e. ground arith), tt), (tt, tt))

abbrev connect : Bytes → Bytes → Option U
connect name addr = some tt

abbrev flags : Flags whole U connect
flags = record {
  engines = bytes " n=h:1, m=h:2,";
  queue_size = pos 20;
  concurrency = pos 4;
  policy_name = bytes "least-queue";
  cheap_tier = [];
  temp_threshold = pos 60;
  cheap_tier_count = pos 1;
  max_latency_budget_ms = pos 30000;
  health_check_interval = pos 3000000000;
  health_check_timeout = pos 2000000000;
}

command_ops : U
unfolding split split_two trim_left trim_right trim_space add_parts add_pair add_pairs parse_engines
    build_policy register register_all with_specs start_up put lookup str_eq
command_ops = tt

abbrev begun : (s : Site whole U) × (start_up whole U connect flags ≡ some s)
unfolding command_ops
begun = (_, refl)

start_up-wired_example :
    (is_some (lookup (bytes "m") begun.0.pools) ≡ is_some (lookup (bytes "m") begun.0.clients))
    × (healthy U begun.0.health_monitor (bytes "m") ≡ is_some (lookup (bytes "m") begun.0.clients))
start_up-wired_example = start_up-wired whole U connect flags begun.0 (bytes "m") begun.1
