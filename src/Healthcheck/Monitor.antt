-- ===== src/Healthcheck/Monitor.antt =====
-- scheduler/internal/healthcheck/monitor.go: the monitor's map and its operations, each under the
-- monitor's lock. What an engine answers is an argument.
use edge_sched.Prelude.{Bool, true, false, not, ◌&&◌, [], ◌∷◌}
use edge_sched.Prelude.Int.{ℤ}
use edge_sched.Prelude.Bytes.{Bytes}
use edge_sched.Prelude.Maps.{GoMap, lookup, put, get_or}

-- What `Checker.HealthCheck` returns: `serving`, and whether `err` is set.
pub record Reply : Type 0 where
  pub serving : Bool
  pub failed : Bool

-- The answer of the gRPC call behind a client: an error, or a response with its `serving` field.
pub data Rpc : Type 0 where
  rpc_error : Rpc
  response : Bool → Rpc

-- `clientChecker.HealthCheck`
unfoldable pub client_health_check : Rpc → Reply
client_health_check rpc_error = record { serving = false; failed = true }
client_health_check (response s) = record { serving = s; failed = false }

module _ (Client : Type 0) where
  pub record Monitor : Type 0 where
    pub statuses : GoMap Bool
    pub checkers : GoMap Client
    pub interval : ℤ
    pub timeout : ℤ

  -- The loop of `New` over the clients: every engine is assumed healthy.
  unfoldable pub all_up : GoMap Client → GoMap Bool
  all_up [] = []
  all_up ((name, c) ∷ clients) = put name true (all_up clients)

  unfoldable pub new : GoMap Client → ℤ → ℤ → Monitor
  unfolding all_up
  new clients interval timeout = record {
    statuses = all_up clients;
    checkers = clients;
    interval = interval;
    timeout = timeout;
  }

  -- `healthy := err == nil && serving`
  unfoldable pub is_healthy_reply : Reply → Bool
  is_healthy_reply r = not r.failed && r.serving

  -- The write at the end of `check`.
  unfoldable pub check : Monitor → Bytes → Reply → Monitor
  unfolding is_healthy_reply
  check m name reply = record m { statuses = put name (is_healthy_reply reply) m.statuses }

  -- `m.statuses[name]`: false for an unknown name.
  unfoldable pub healthy : Monitor → Bytes → Bool
  healthy m name = get_or (lookup name m.statuses) false

  -- `maps.Copy(out, src)`
  unfoldable pub copy : GoMap Bool → GoMap Bool → GoMap Bool
  copy out [] = out
  copy out ((k, v) ∷ src) = copy (put k v out) src

  unfoldable pub snapshot : Monitor → GoMap Bool
  unfolding copy
  snapshot m = copy [] m.statuses
