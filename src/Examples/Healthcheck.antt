-- ===== src/Examples/Healthcheck.antt =====
-- Two engines, of which one is checked twice: it answers, and then its check fails.
use edge_sched.Prelude.{◌≡◌, refl, true, false, [], ◌∷◌}
use edge_sched.Prelude.Int.{pos}
use edge_sched.Prelude.Bytes.{bytes, str_eq}
use edge_sched.Prelude.Maps.{GoMap, lookup, put, get_or}
use edge_sched.Healthcheck.Monitor.{Reply, new, check, healthy, snapshot}
use edge_sched.Healthcheck.Polling.{
  spawn, Polling, run, checked, first_check, tick, Reach, started, later,
}
use edge_sched.Healthcheck.Status.{last_outcome, is_some, Reach-healthy}

abbrev U : Type 0
U = Unit {0}

abbrev two : GoMap U
two = (bytes "a", tt) ∷ (bytes "b", tt) ∷ []

abbrev serves : Reply
serves = record { serving = true; failed = false }

abbrev fails : Reply
fails = record { serving = true; failed = true }

polling_ops : U
unfolding new check healthy snapshot spawn run checked lookup put str_eq
polling_ops = tt

abbrev Run : Type 0
Run = (s : Polling U) × Reach U two (pos 3000) (pos 1000) s

abbrev twice : Run
unfolding polling_ops
twice =
    (_, later (later started (first_check (bytes "a") serves refl)) (tick (bytes "a") fails refl))

Reach-healthy_example :
    healthy U twice.0.monitor (bytes "a")
    ≡ get_or (last_outcome (bytes "a") twice.0.checks) (is_some (lookup (bytes "a") two))
Reach-healthy_example = Reach-healthy U twice.1 (bytes "a")
