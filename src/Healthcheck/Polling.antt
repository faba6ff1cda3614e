-- ===== src/Healthcheck/Polling.antt =====
-- scheduler/internal/healthcheck/monitor.go: `Run` and `pollLoop`. Each engine has its own loop; the
-- loops take turns in any order, and an engine's reply to a check may be anything.
use edge_sched.Prelude.{◌≡◌, Bool, true, false, List, [], ◌∷◌, some}
use edge_sched.Prelude.Int.{ℤ}
use edge_sched.Prelude.Bytes.{Bytes}
use edge_sched.Prelude.Maps.{GoMap, lookup, put}
use edge_sched.Healthcheck.Monitor.{Reply, Monitor, new, check}

-- Where a loop stands: before its first check, in the `select`, or returned.
pub data Phase : Type 0 where
  starting selecting returned : Phase

module _ (Client : Type 0) where
  -- The goroutines that `Run` starts, one for each checker.
  unfoldable pub spawn : GoMap Client → GoMap Phase
  spawn [] = []
  spawn ((name, c) ∷ clients) = put name starting (spawn clients)

  -- `checks` records the checks made, the latest first.
  pub record Polling : Type 0 where
    pub monitor : Monitor Client
    pub loops : GoMap Phase
    pub cancelled : Bool
    pub checks : List (Bytes × Reply)

  unfoldable pub run : GoMap Client → ℤ → ℤ → Polling
  unfolding spawn
  run clients interval timeout = record {
    monitor = new Client clients interval timeout;
    loops = spawn clients;
    cancelled = false;
    checks = [];
  }

  unfoldable pub checked : Polling → Bytes → Reply → Polling
  checked s name reply = record s {
    monitor = check Client s.monitor name reply;
    loops = put name selecting s.loops;
    checks = (name, reply) ∷ s.checks;
  }

  pub data Step (s : Polling) : Polling → Type 0 where
    -- `m.check(ctx, name, checker)` before the loop
    first_check :
        (name : Bytes) (reply : Reply)
        → lookup name s.loops ≡ some starting
        → Step s (checked s name reply)
    -- `case <-ticker.C`
    tick :
        (name : Bytes) (reply : Reply)
        → lookup name s.loops ≡ some selecting
        → Step s (checked s name reply)
    -- `case <-ctx.Done()`
    done :
        (name : Bytes)
        → lookup name s.loops ≡ some selecting
        → s.cancelled ≡ true
        → Step s (record s { loops = put name returned s.loops })
    cancel : Step s (record s { cancelled = true })

  pub data Reach (clients : GoMap Client) (interval timeout : ℤ) : Polling → Type 0 where
    started : Reach clients interval timeout (run clients interval timeout)
    later :
        {s t : Polling}
        → Reach clients interval timeout s
        → Step s t
        → Reach clients interval timeout t
