-- ===== src/Statscraper/Scraped.antt =====
-- scheduler/internal/api/handlers.go and scheduler/cmd/statscraper/main.go: what the scraper reads of
-- the status page.
use edge_sched.Prelude.{◌≡◌, refl, true, List, [], ◌∷◌, All, map, some}
use edge_sched.Prelude.Int.{pos}
use edge_sched.Prelude.Bytes.{bytes, str_eq}
use edge_sched.Prelude.Floats.{Floats}
use edge_sched.Json.Value.{
  Json, object, number, text, boolean, Items, no_items, item, no_members, member, Codec, IsCodec,
  fits_int64, AreTexts, AreTextsItems,
}
use edge_sched.Json.Decode.{
  decode_struct, decode_members, decode_items, exact_field, folded_field, fold_name,
}
use edge_sched.Json.Encode.{items_of}
use edge_sched.Sysmonitor.State.{State}
use edge_sched.Routing.Pick.{EngineState}
use edge_sched.Api.Overview.{engine_status_json, system_status_json}
use edge_sched.Api.Bodies.{encode_engine, encode_system}
use edge_sched.Statscraper.{EngineStatus, SystemStatus}
use edge_sched.Statscraper.Decode.{decode_engine, system_fields}

module _ (fl : Floats) (codec : Codec fl) where
  abbrev pub engine_value : EngineState → Json codec.Num
  engine_value e = object (
      member (bytes "name") (text (codec.valid_text e.name)) (
        member (bytes "queue_depth") (number (codec.of_int (pos e.queue_depth)))
          (member (bytes "healthy") (boolean e.healthy) no_members)))

  abbrev pub engine_items : List EngineState → Items codec.Num
  engine_items [] = no_items
  engine_items (e ∷ es) = item (engine_value e) (engine_items es)

  -- What the scraper keeps of an engine.
  abbrev pub scraped_engine : EngineState → EngineStatus
  scraped_engine e = record { name = codec.valid_text e.name; queue_depth = pos e.queue_depth }

  abbrev pub HasDepth : EngineState → Type 0
  HasDepth e = fits_int64 (pos e.queue_depth) ≡ true

  encode_engine-value :
      (e : EngineState) → encode_engine fl codec (engine_status_json fl e) ≡ some (engine_value e)
  unfolding encode_engine engine_status_json
  encode_engine-value e = refl

  pub items_of-engines :
      (es : List EngineState)
      → items_of (map (encode_engine fl codec) (map (engine_status_json fl) es))
        ≡ some (engine_items es)
  items_of-engines [] = refl
  items_of-engines (e ∷ es) = rw (encode_engine-value e, items_of-engines es) refl

  abbrev pub system_value : State fl → codec.Num → codec.Num → codec.Num → Json codec.Num
  system_value s t p g = object (
      member (bytes "valid") (boolean s.valid) (
        member (bytes "max_temp_c") (number t) (
          member (bytes "power_mw") (number p) (
            member (bytes "gpu_util_pct") (number g) (
              member (bytes "ram_used_mb") (number (codec.of_int s.ram_used_mb)) (
                member (bytes "ram_total_mb") (number (codec.of_int s.ram_total_mb)) (
                  member (bytes "power_mode") (text (codec.valid_text s.power_mode))
                    no_members)))))))

  pub encode_system-value :
      (s : State fl) (t p g : codec.Num)
      → codec.of_f64 s.max_temp_c ≡ some t
      → codec.of_f64 s.power_mw ≡ some p
      → codec.of_f64 s.gpu_util_pct ≡ some g
      → encode_system fl codec (system_status_json fl s) ≡ some (system_value s t p g)
  unfolding encode_system system_status_json
  encode_system-value s t p g ht hp hg = rw (ht, hp, hg) refl

  abbrev pub scraped_system : State fl → SystemStatus fl
  scraped_system s = record {
    valid = s.valid;
    max_temp_c = s.max_temp_c;
    power_mw = s.power_mw;
    gpu_util_pct = s.gpu_util_pct;
    ram_used_mb = s.ram_used_mb;
  }

  module _ (laws : IsCodec fl codec) where
    decode_engine-value :
        (e : EngineState)
        → HasDepth e
        → decode_engine fl codec (engine_value e) ≡ some (scraped_engine e)
    unfolding decode_struct decode_members exact_field folded_field fold_name str_eq
    decode_engine-value e h = rw (laws.to_int-of_int (pos e.queue_depth) h) refl

    pub decode_items-engines :
        (es : List EngineState)
        → All HasDepth es
        → decode_items (decode_engine fl codec) (engine_items es) ≡ some (map scraped_engine es)
    unfolding decode_items
    decode_items-engines [] h = refl
    decode_items-engines (e ∷ es) (h, hs) =
        rw (decode_engine-value e h, decode_items-engines es hs) refl

    pub engine_items-AreTexts : (es : List EngineState) → AreTextsItems fl codec 1 (engine_items es)
    unfolding AreTexts
    engine_items-AreTexts [] = tt
    engine_items-AreTexts (e ∷ es) =
        let key = laws.valid_text-ascii in
        (
          (
            key (bytes "name") refl,
            laws.valid_text_idem e.name,
            (key (bytes "queue_depth") refl, tt, (key (bytes "healthy") refl, tt, tt)),
          ),
          engine_items-AreTexts es,
        )

    pub decode_system-value :
        (s : State fl) (t p g : codec.Num) (zero : SystemStatus fl)
        → codec.of_f64 s.max_temp_c ≡ some t
        → codec.of_f64 s.power_mw ≡ some p
        → codec.of_f64 s.gpu_util_pct ≡ some g
        → fits_int64 s.ram_used_mb ≡ true
        → decode_struct (system_fields fl codec) (system_value s t p g) zero
          ≡ some (scraped_system s)
    unfolding decode_struct decode_members exact_field folded_field fold_name str_eq
    decode_system-value s t p g zero ht hp hg hr =
        rw
          (
            laws.to_f64-of_f64 s.max_temp_c t ht,
            laws.to_f64-of_f64 s.power_mw p hp,
            laws.to_f64-of_f64 s.gpu_util_pct g hg,
            laws.to_int-of_int s.ram_used_mb hr,
          )
          refl

    pub system_value-AreTexts :
        (s : State fl) (t p g : codec.Num) → AreTexts fl codec 2 (system_value s t p g)
    unfolding AreTexts
    system_value-AreTexts s t p g =
        let key = laws.valid_text-ascii in
        (
          key (bytes "valid") refl,
          tt,
          (
            key (bytes "max_temp_c") refl,
            tt,
            (
              key (bytes "power_mw") refl,
              tt,
              (
                key (bytes "gpu_util_pct") refl,
                tt,
                (
                  key (bytes "ram_used_mb") refl,
                  tt,
                  (
                    key (bytes "ram_total_mb") refl,
                    tt,
                    (key (bytes "power_mode") refl, laws.valid_text_idem s.power_mode, tt),
                  ),
                ),
              ),
            ),
          ),
        )
