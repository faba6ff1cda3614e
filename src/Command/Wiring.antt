-- ===== src/Command/Wiring.antt =====
-- scheduler/cmd/scheduler/main.go: what `main` builds from the flags before it serves. `none` is
-- `log.Fatal`. What the constructor of a gRPC client returns is a parameter.
use edge_sched.Prelude.{
  ◌-◌, ◌*◌, suc, ◌≡◌, refl, subst, [], ◌∷◌, Option, none, some, Result, ok, err, panic, arith,
}
use edge_sched.Prelude.Int.{ℤ, pos, negsuc, int64}
use edge_sched.Prelude.Bytes.{Bytes}
use edge_sched.Prelude.Maps.{GoMap, lookup, put, lookup-put}
use edge_sched.Prelude.Floats.{Floats}
use edge_sched.Sysmonitor.Monitor as Sys
use edge_sched.Healthcheck.Monitor as Health
use edge_sched.Healthcheck.Monitor.{healthy}
use edge_sched.Healthcheck.Status.{is_some, lookup-all_up}
use edge_sched.Routing.Policy.{Policy}
use edge_sched.Workerpool.Pool as Workers
use edge_sched.Api.Wire.{PredictResponse}
use edge_sched.Api.Server.{EnginePool, no_metrics, new_server}
use edge_sched.Api.Handler.{Site}
use edge_sched.Command.Engines.{SpecError, parse_engines, build_policy}

-- `time.Duration(ms) * time.Millisecond`
unfoldable pub duration_of : ℤ → ℤ
duration_of (pos ms) = int64 (ms * 1000000)
duration_of (negsuc n) = int64 ((18446744073709551616 - suc n) * 1000000)

module _ (fl : Floats) (Client : Type 0) (connect : Bytes → Bytes → Option Client) where
  pub record Flags : Type 0 where
    pub engines : Bytes
    pub queue_size : ℤ
    pub concurrency : ℤ
    pub policy_name : Bytes
    pub cheap_tier : Bytes
    pub temp_threshold : fl.F
    pub cheap_tier_count : ℤ
    pub max_latency_budget_ms : ℤ
    pub health_check_interval : ℤ
    pub health_check_timeout : ℤ

  abbrev pub Registered : Type 0
  Registered = GoMap Client × GoMap (EnginePool fl)

  abbrev pub new_pool : Flags → EnginePool fl
  new_pool flags = Workers.new ℤ (PredictResponse fl) flags.queue_size flags.concurrency

  -- One round of the loop over the engines, with what `engineclient.New` returned, and the loop.
  unfoldable pub register : Flags → Bytes → Option Client → Registered → Option Registered
  register flags name none r = none
  register flags name (some client) (clients, pools) =
      some (put name client clients, put name (new_pool flags) pools)

  unfoldable pub register_all : Flags → GoMap Bytes → Option Registered → Option Registered
  unfolding register
  register_all flags addrs none = none
  register_all flags [] (some r) = some r
  register_all flags ((name, addr) ∷ addrs) (some r) =
      register_all flags addrs (register flags name (connect name addr) r)

  unfoldable pub server_of : Flags → Policy fl → Registered → Site fl Client
  unfolding new_server duration_of
  server_of flags policy (clients, pools) = new_server fl Client (record {
    clients = clients;
    pools = pools;
    monitor = Sys.new fl;
    health_monitor =
        Health.new Client clients flags.health_check_interval flags.health_check_timeout;
    policy = policy;
    policy_name = flags.policy_name;
    max_latency_budget = duration_of flags.max_latency_budget_ms;
    metrics = no_metrics fl;
  })

  abbrev pub served : Flags → Policy fl → Option Registered → Option (Site fl Client)
  served flags policy none = none
  served flags policy (some r) = some (server_of flags policy r)

  unfoldable pub with_specs :
      Flags
      → Result SpecError (GoMap Bytes)
      → Result SpecError (Policy fl)
      → Option (Site fl Client)
  unfolding server_of register_all
  with_specs flags (ok addrs) (ok policy) =
      served flags policy (register_all flags addrs (some ([], [])))
  with_specs flags addrs policy = none

  abbrev pub unless_no_engines : Bytes → Option (Site fl Client) → Option (Site fl Client)
  unless_no_engines [] o = none
  unless_no_engines (c ∷ spec) o = o

  unfoldable pub start_up : Flags → Option (Site fl Client)
  unfolding with_specs parse_engines build_policy
  start_up flags = unless_no_engines flags.engines (
      with_specs flags (parse_engines flags.engines) (
        build_policy fl flags.policy_name flags.cheap_tier flags.temp_threshold
          flags.cheap_tier_count))

  -- The two maps have the same keys.
  abbrev SameKeys : Registered → Type 0
  SameKeys r = (name : Bytes) → is_some (lookup name r.1) ≡ is_some (lookup name r.0)

  abbrev OptionSameKeys : Option Registered → Type 0
  OptionSameKeys none = Unit
  OptionSameKeys (some r) = SameKeys r

  register-SameKeys :
      (flags : Flags) (name : Bytes) (c : Option Client) (r : Registered)
      → SameKeys r
      → OptionSameKeys (register flags name c r)
  unfolding register
  register-SameKeys flags name none r h = tt
  register-SameKeys flags name (some c) r h =
      λ k. ground (arith, lookup-put name k c r.0, lookup-put name k (new_pool flags) r.1, h k)

  register_all-SameKeys :
      (flags : Flags) (addrs : GoMap Bytes) (o : Option Registered)
      → OptionSameKeys o
      → OptionSameKeys (register_all flags addrs o)
  unfolding register_all
  register_all-SameKeys flags addrs none h = tt
  register_all-SameKeys flags [] (some r) h = h
  register_all-SameKeys flags ((name, addr) ∷ addrs) (some r) h =
      register_all-SameKeys flags addrs (register flags name (connect name addr) r)
        (register-SameKeys flags name (connect name addr) r h)

  -- A server whose pools, healthy engines and clients have the same names.
  abbrev IsWired : Site fl Client → Type 0
  IsWired s =
      (name : Bytes)
      → (is_some (lookup name s.pools) ≡ is_some (lookup name s.clients))
        × (healthy Client s.health_monitor name ≡ is_some (lookup name s.clients))

  abbrev OptionIsWired : Option (Site fl Client) → Type 0
  OptionIsWired none = Unit
  OptionIsWired (some s) = IsWired s

  served-IsWired :
      (flags : Flags) (policy : Policy fl) (o : Option Registered)
      → OptionSameKeys o
      → OptionIsWired (served flags policy o)
  unfolding server_of new_server
  served-IsWired flags policy none h = tt
  served-IsWired flags policy (some (clients, pools)) h =
      λ name. (h name, unfold healthy Health.new in lookup-all_up Client clients name)

  with_specs-IsWired :
      (flags : Flags) (a : Result SpecError (GoMap Bytes)) (p : Result SpecError (Policy fl))
      → OptionIsWired (with_specs flags a p)
  unfolding with_specs lookup
  with_specs-IsWired flags (ok addrs) (ok policy) =
      served-IsWired flags policy _
        (register_all-SameKeys flags addrs (some ([], [])) (λ name. refl))
  with_specs-IsWired flags (ok addrs) (err e) = tt
  with_specs-IsWired flags (ok addrs) panic = tt
  with_specs-IsWired flags (err e) p = tt
  with_specs-IsWired flags panic p = tt

  start_up-OptionIsWired : (flags : Flags) → OptionIsWired (start_up flags)
  unfolding start_up
  start_up-OptionIsWired flags = go_on flags.engines _ (with_specs-IsWired flags _ _)
    where
      go_on :
          (spec : Bytes) (o : Option (Site fl Client))
          → OptionIsWired o
          → OptionIsWired (unless_no_engines spec o)
      go_on [] o h = tt
      go_on (c ∷ spec) o h = h

  -- The program starts with a server. Then for every name the server has a pool, has a client and
  -- answers that the engine is healthy, or none of the three.
  pub start_up-wired :
      (flags : Flags) (s : Site fl Client) (name : Bytes)
      → start_up flags ≡ some s
      → (is_some (lookup name s.pools) ≡ is_some (lookup name s.clients))
        × (healthy Client s.health_monitor name ≡ is_some (lookup name s.clients))
  start_up-wired flags s name e = subst OptionIsWired e (start_up-OptionIsWired flags) name
