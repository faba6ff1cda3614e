-- ===== src/Examples/Statscraper.antt =====
-- The row that the scraper writes for the status page of a server with two engines.
use edge_sched.Prelude.{◌≡◌, refl, true, [], ◌∷◌, some, arith}
use edge_sched.Prelude.Int.{ℤ, pos}
use edge_sched.Prelude.Bytes.{Bytes, bytes, str_eq}
use edge_sched.Prelude.Maps.{lookup}
use edge_sched.Sysmonitor.State.{State}
use edge_sched.Sysmonitor.Monitor.{zero_state, current}
use edge_sched.Workerpool.Pool.{busy, queue_depth}
use edge_sched.Workerpool.Pool as Workers
use edge_sched.Api.Server.{EnginePool, new_server, engine_states}
use edge_sched.Api.Handler.{Site}
use edge_sched.Api.Overview.{handle_status}
use edge_sched.Api.Bodies.{sent_reply}
use edge_sched.Statscraper.{Poll, row_of}
use edge_sched.Statscraper.Decode.{poll}
use edge_sched.Statscraper.Polled.{status_row, row_of-handle_status}
use edge_sched.Examples.Floats.{whole}
use edge_sched.Examples.Codec.{codec, codec-IsCodec}
use edge_sched.Examples.Api.{U, pool, site}

abbrev decimals : ℤ → Bytes
decimals n = bytes "1.0"

abbrev itself : Bytes → Bytes
itself s = s

-- A request waits for the engine n.
abbrev loaded : EnginePool whole
loaded = record pool {
  queue = record { ctx = pos 1; image_data = 1 ∷ []; result = 0 } ∷ [];
  workers = busy (record { ctx = pos 1; image_data = 2 ∷ []; result = 1 }) ∷ [];
}

abbrev hot : State whole
hot = record (zero_state whole) {
  max_temp_c = pos 71;
  power_mw = pos 5000;
  gpu_util_pct = pos 90;
  ram_used_mb = pos 3400;
  valid = true;
}

abbrev loaded_site : Site whole U
loaded_site = record site {
  pools = (bytes "n", loaded) ∷ (bytes "m", pool) ∷ [];
  monitor = record { state = hot; tegra_interval = 1000; nvp_interval = 5000 };
}

row_of-handle_status_example :
    let reply = sent_reply whole codec itself (handle_status whole U loaded_site) in
    (q : Poll whole) × (poll whole codec (pos 0) reply (pos 7) (pos 2) ≡ some q)
    × (row_of whole decimals decimals q (bytes "n" ∷ [])
        ≡ status_row whole U codec decimals decimals loaded_site
            (pos 7)
            (pos 2)
            ((bytes "n", loaded) ∷ []))
unfolding new_server current engine_states lookup Workers.new queue_depth str_eq
row_of-handle_status_example =
    row_of-handle_status whole U codec codec-IsCodec loaded_site (pos 71) (pos 5000) (pos 90) refl
      refl refl refl (refl, (refl, tt)) (refl, (refl, tt)) (((λ e. ground arith), tt), (tt, tt))
      ((bytes "n", loaded) ∷ []) (refl, tt) itself decimals decimals (pos 0) (pos 7) (pos 2)
