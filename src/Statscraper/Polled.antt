-- ===== src/Statscraper/Polled.antt =====
-- scheduler/internal/api/handlers.go and scheduler/cmd/statscraper/main.go: the row that the scraper
-- writes for a reply of the status page.
use edge_sched.Prelude.{
  ◌≡◌, refl, ap, ◌∙◌, true, List, [], ◌∷◌, ◌++◌, All, map, some, Permᴰ-All, Permᴰ-In,
}
use mathlib.Core.List.Permᴰ
use edge_sched.Prelude.Int.{ℤ, pos}
use edge_sched.Prelude.Bytes.{Bytes}
use edge_sched.Prelude.Decimal.{itoa}
use edge_sched.Prelude.Maps.{lookup}
use edge_sched.Prelude.Sort.{sort_by-perm, DistinctBy, Permᴰ-DistinctBy}
use edge_sched.Prelude.Floats.{Floats}
use edge_sched.Json.Value.{Codec, IsCodec, fits_int64}
use edge_sched.Sysmonitor.Monitor.{current}
use edge_sched.Routing.Pick.{engine_name}
use edge_sched.Workerpool.Pool.{queue_depth}
use edge_sched.Api.Wire.{PredictResponse}
use edge_sched.Api.Server.{EnginePool, state_of, engine_states}
use edge_sched.Api.Handler.{Site}
use edge_sched.Api.Overview.{handle_status, states_of-DistinctBy}
use edge_sched.Api.Bodies.{sent_reply}
use edge_sched.Statscraper.{Poll, format_bool, queues, queue_cell, row_of}
use edge_sched.Statscraper.Decode.{decode_first, decode_status, polled, poll}
use edge_sched.Statscraper.Scraped.{HasDepth}
use edge_sched.Statscraper.Page.{
  scraped, status_value, status_value-AreTexts, sent_status, decode_status-value,
}
use edge_sched.Statscraper.Cells.{HasText, lookup-In, queue_cell-scraped, states_of-In}

module _ (fl : Floats) (Client : Type 0) (codec : Codec fl) where
  -- The row's cells, with a column for each of the given engines.
  abbrev pub status_row :
      (fl.F → Bytes)
      → (fl.F → Bytes)
      → Site fl Client
      → ℤ
      → fl.F
      → List (Bytes × EnginePool fl)
      → List Bytes
  status_row sprintf_1 sprintf_3 s now elapsed cols =
      let state = current fl s.monitor in
      (itoa now
        ∷ sprintf_1 elapsed
        ∷ codec.valid_text s.policy_name
        ∷ format_bool state.valid
        ∷ sprintf_3 state.max_temp_c
        ∷ sprintf_1 state.power_mw
        ∷ sprintf_1 state.gpu_util_pct
        ∷ itoa state.ram_used_mb
        ∷ [])
      ++ map (λ c. itoa (pos (queue_depth ℤ (PredictResponse fl) c.1))) cols

  module _ (laws : IsCodec fl codec) where
    cells :
        (s : Site fl Client)
        → All (HasText fl codec) (engine_states fl Client s)
        → DistinctBy (λ p. p.0) s.pools
        → (cols : List (Bytes × EnginePool fl)) → All (λ c. lookup c.0 s.pools ≡ some c.1) cols
        → map
            (queue_cell fl (queues fl (scraped fl Client codec s).engines []))
            (map (λ c. c.0) cols)
          ≡ map (λ c. itoa (pos (queue_depth ℤ (PredictResponse fl) c.1))) cols
    unfolding engine_states
    cells s v d [] h = refl
    cells s v d ((name, pool) ∷ cols) (h, hs) =
        let states = engine_states fl Client s in
        let sorted = Permᴰ.symm (sort_by-perm engine_name states) in
        rw
          (
            queue_cell-scraped fl codec _ (state_of fl Client s.health_monitor (name, pool))
                (Permᴰ-All _ sorted v)
                (Permᴰ-DistinctBy engine_name sorted
                  (states_of-DistinctBy fl Client s.health_monitor s.pools d))
                (Permᴰ-In sorted (
                  states_of-In fl Client s.health_monitor (name, pool) s.pools
                    (lookup-In name pool s.pools h))),
            cells s v d cols hs,
          )
          refl

    decode_printed :
        (s : Site fl Client) (t p g : codec.Num)
        → codec.of_f64 (current fl s.monitor).max_temp_c ≡ some t
        → codec.of_f64 (current fl s.monitor).power_mw ≡ some p
        → codec.of_f64 (current fl s.monitor).gpu_util_pct ≡ some g
        → fits_int64 (current fl s.monitor).ram_used_mb ≡ true
        → All (HasDepth fl codec) (engine_states fl Client s)
        → (zero : fl.F)
        → decode_status fl codec zero (codec.print (status_value fl Client codec s t p g))
          ≡ some (scraped fl Client codec s)
    unfolding decode_status
    decode_printed s t p g ht hp hg hr hd zero =
        let v = status_value fl Client codec s t p g in
        ap (decode_first fl codec zero)
          (laws.parse_first-print v (status_value-AreTexts fl Client codec laws s t p g))
        ∙ decode_status-value fl Client codec laws s t p g ht hp hg zero hr
            (Permᴰ-All _ (Permᴰ.symm (sort_by-perm engine_name (engine_states fl Client s))) hd)

    -- The codec keeps its laws, the three readings that are floats have tokens, the ints fit in 64 bits,
    -- the pools have distinct names, and the names are valid UTF-8. Then the reply of the status page
    -- decodes, and the row that the scraper makes of it has the policy's name as valid UTF-8, the
    -- readings of the system as the server has them, and in the column of any engine the depth of its
    -- queue.
    pub row_of-handle_status :
        (s : Site fl Client) (t p g : codec.Num)
        → codec.of_f64 (current fl s.monitor).max_temp_c ≡ some t
        → codec.of_f64 (current fl s.monitor).power_mw ≡ some p
        → codec.of_f64 (current fl s.monitor).gpu_util_pct ≡ some g
        → fits_int64 (current fl s.monitor).ram_used_mb ≡ true
        → All (HasDepth fl codec) (engine_states fl Client s)
        → All (HasText fl codec) (engine_states fl Client s)
        → DistinctBy (λ p. p.0) s.pools
        → (cols : List (Bytes × EnginePool fl)) → All (λ c. lookup c.0 s.pools ≡ some c.1) cols
        → (quote : Bytes → Bytes) (sprintf_1 sprintf_3 : fl.F → Bytes) (zero : fl.F) (now : ℤ)
          (elapsed : fl.F)
        → (q : Poll fl) × (poll fl codec zero
              (sent_reply fl codec quote (handle_status fl Client s))
              now
              elapsed
            ≡ some q)
          × (row_of fl sprintf_1 sprintf_3 q (map (λ c. c.0) cols)
              ≡ status_row sprintf_1 sprintf_3 s now elapsed cols)
    unfolding poll row_of
    row_of-handle_status s t p g ht hp hg hr hd hv d cols hc quote sprintf_1 sprintf_3 zero now
          elapsed =
        (
          record { resp = scraped fl Client codec s; timestamp_ms = now; elapsed_sec = elapsed },
          rw (sent_status fl Client codec laws s t p g ht hp hg quote)
              (ap (polled fl codec now elapsed) (decode_printed s t p g ht hp hg hr hd zero)),
          rw (cells s hv d cols hc) refl,
        )
