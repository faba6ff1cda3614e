-- ===== src/Statscraper/Page.antt =====
-- scheduler/internal/api/handlers.go and scheduler/cmd/statscraper/main.go: the scraper's poll of the
-- status page.
use edge_sched.Prelude.{◌≡◌, refl, true, List, All, map, some}
use edge_sched.Prelude.Bytes.{Bytes, bytes, str_eq}
use edge_sched.Prelude.Sort.{sort_by}
use edge_sched.Prelude.Floats.{Floats}
use edge_sched.Json.Value.{
  Json, object, array, number, text, no_members, member, Codec, IsCodec, fits_int64, AreTexts,
}
use edge_sched.Json.Decode.{
  decode_struct, decode_members, decode_slice, exact_field, folded_field, fold_name,
}
use edge_sched.Sysmonitor.Monitor.{current}
use edge_sched.Routing.Pick.{EngineState, engine_name}
use edge_sched.Api.Server.{engine_states}
use edge_sched.Api.Handler.{Site}
use edge_sched.Api.Overview.{last_result_at_of, handle_status}
use edge_sched.Api.Bodies.{encode_status, encode_body, sent_reply}
use edge_sched.Statscraper.{StatusResp}
use edge_sched.Statscraper.Decode.{zero_status, status_fields}
use edge_sched.Statscraper.Scraped.{
  engine_items, scraped_engine, HasDepth, system_value, scraped_system, items_of-engines,
  decode_items-engines, engine_items-AreTexts, encode_system-value, decode_system-value,
  system_value-AreTexts,
}

module _ (fl : Floats) (Client : Type 0) (codec : Codec fl) where
  abbrev pub sorted_states : Site fl Client → List EngineState
  sorted_states s = sort_by engine_name (engine_states fl Client s)

  abbrev pub status_value : Site fl Client → codec.Num → codec.Num → codec.Num → Json codec.Num
  status_value s t p g = object (
      member (bytes "policy") (text (codec.valid_text s.policy_name)) (
        member (bytes "engines") (array (engine_items fl codec (sorted_states s))) (
          member (bytes "system") (system_value fl codec (current fl s.monitor) t p g) (
            member (bytes "last_result_at")
              (number (codec.of_int (last_result_at_of fl s.last_result))) no_members))))

  -- What the scraper makes of the server's state.
  abbrev pub scraped : Site fl Client → StatusResp fl
  scraped s = record {
    policy = codec.valid_text s.policy_name;
    engines = map (scraped_engine fl codec) (sorted_states s);
    system = scraped_system fl codec (current fl s.monitor);
  }

  module _ (laws : IsCodec fl codec) where
    pub status_value-AreTexts :
        (s : Site fl Client) (t p g : codec.Num) → AreTexts fl codec 3 (status_value s t p g)
    unfolding AreTexts
    status_value-AreTexts s t p g =
        let key = laws.valid_text-ascii in
        (
          key (bytes "policy") refl,
          laws.valid_text_idem s.policy_name,
          (
            key (bytes "engines") refl,
            engine_items-AreTexts fl codec laws (sorted_states s),
            (
              key (bytes "system") refl,
              system_value-AreTexts fl codec laws (current fl s.monitor) t p g,
              (key (bytes "last_result_at") refl, tt, tt),
            ),
          ),
        )

    module _ (s : Site fl Client) (t p g : codec.Num)
        (ht : codec.of_f64 (current fl s.monitor).max_temp_c ≡ some t)
        (hp : codec.of_f64 (current fl s.monitor).power_mw ≡ some p)
        (hg : codec.of_f64 (current fl s.monitor).gpu_util_pct ≡ some g) where
      pub sent_status :
          (quote : Bytes → Bytes)
          → sent_reply fl codec quote (handle_status fl Client s)
            ≡ some (200, codec.print (status_value s t p g))
      unfolding sent_reply encode_body encode_status handle_status
      sent_status quote =
          rw
            (
              items_of-engines fl codec (sorted_states s),
              encode_system-value fl codec (current fl s.monitor) t p g ht hp hg,
            )
            refl

      pub decode_status-value :
          (zero : fl.F)
          → fits_int64 (current fl s.monitor).ram_used_mb ≡ true
          → All (HasDepth fl codec) (sorted_states s)
          → decode_struct
              (status_fields fl codec)
              (status_value s t p g)
              (zero_status fl codec zero)
            ≡ some (scraped s)
      unfolding decode_struct decode_members exact_field folded_field fold_name str_eq decode_slice
      decode_status-value zero hr hd =
          rw
            (
              decode_items-engines fl codec laws (sorted_states s) hd,
              decode_system-value fl codec laws (current fl s.monitor) t p g
                  (zero_status fl codec zero).system ht hp hg hr,
            )
            refl
