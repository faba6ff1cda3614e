-- ===== src/Statscraper/Decode.antt =====
-- scheduler/cmd/statscraper/main.go: a poll, from the request for the status page to the decoded reply.
use edge_sched.Prelude.{ℕ, false, [], ◌∷◌, ◌++◌, Option, none, some}
use edge_sched.Prelude.Int.{ℤ, pos}
use edge_sched.Prelude.Bytes.{Bytes, bytes}
use edge_sched.Prelude.Floats.{Floats}
use edge_sched.Json.Value.{Json, Codec}
use edge_sched.Json.Decode.{
  Fields, decode_struct, decode_slice, store_text, store_bool, store_number, store_slice,
}
use edge_sched.Statscraper.{EngineStatus, SystemStatus, StatusResp, Poll}

abbrev pub status_url : Bytes → Bytes
status_url addr = addr ++ bytes "/status"

abbrev pub zero_engine : EngineStatus
zero_engine = record { name = []; queue_depth = pos 0 }

module _ (fl : Floats) (codec : Codec fl) where
  abbrev pub engine_fields : Fields codec.Num EngineStatus
  engine_fields =
      (bytes "name", store_text (λ x e. record e { name = x }))
      ∷ (bytes "queue_depth", store_number codec.to_int (λ x e. record e { queue_depth = x }))
      ∷ []

  abbrev pub decode_engine : Json codec.Num → Option EngineStatus
  decode_engine v = decode_struct engine_fields v zero_engine

  abbrev pub system_fields : Fields codec.Num (SystemStatus fl)
  system_fields =
      (bytes "valid", store_bool (λ x s. record s { valid = x }))
      ∷ (bytes "max_temp_c", store_number codec.to_f64 (λ x s. record s { max_temp_c = x }))
      ∷ (bytes "power_mw", store_number codec.to_f64 (λ x s. record s { power_mw = x }))
      ∷ (bytes "gpu_util_pct", store_number codec.to_f64 (λ x s. record s { gpu_util_pct = x }))
      ∷ (bytes "ram_used_mb", store_number codec.to_int (λ x s. record s { ram_used_mb = x }))
      ∷ []

  abbrev pub with_system : StatusResp fl → Option (SystemStatus fl) → Option (StatusResp fl)
  with_system r none = none
  with_system r (some s) = some (record r { system = s })

  abbrev pub status_fields : Fields codec.Num (StatusResp fl)
  status_fields =
      (bytes "policy", store_text (λ x r. record r { policy = x }))
      ∷ (
        bytes "engines",
        store_slice (decode_slice decode_engine) (λ xs r. record r { engines = xs }),
      )
      ∷ (bytes "system", λ v r. with_system r (decode_struct system_fields v r.system))
      ∷ []

  abbrev pub zero_status : fl.F → StatusResp fl
  zero_status zero = record {
    policy = [];
    engines = [];
    system = record {
      valid = false;
      max_temp_c = zero;
      power_mw = zero;
      gpu_util_pct = zero;
      ram_used_mb = pos 0;
    };
  }

  abbrev pub decode_first : fl.F → Option (Json codec.Num) → Option (StatusResp fl)
  decode_first zero none = none
  decode_first zero (some v) = decode_struct status_fields v (zero_status zero)

  unfoldable pub decode_status : fl.F → Bytes → Option (StatusResp fl)
  decode_status zero body = decode_first zero (codec.parse_first body)

  abbrev pub polled : ℤ → fl.F → Option (StatusResp fl) → Option (Poll fl)
  polled now elapsed none = none
  polled now elapsed (some st) =
      some (record { resp = st; timestamp_ms = now; elapsed_sec = elapsed })

  -- The reply that `client.Get` returned, if any, whose code is not looked at, and the time of the row.
  unfoldable pub poll : fl.F → Option (ℕ × Bytes) → ℤ → fl.F → Option (Poll fl)
  unfolding decode_status
  poll zero none now elapsed = none
  poll zero (some (code, body)) now elapsed = polled now elapsed (decode_status zero body)
