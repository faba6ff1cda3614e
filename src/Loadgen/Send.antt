-- ===== src/Loadgen/Send.antt =====
-- scheduler/cmd/loadgen/main.go: `findImages`, `sendOne` and the rows of `writeCSV`. What the walk
-- over the directory, the reading of a file, the request and the decoding of its reply give is an
-- argument.
use edge_sched.Prelude.{
  ℕ, ◌+◌, ◌==◌, leb, ◌&&◌, if◌then◌else◌, Bool, false, List, [], ◌∷◌, any, Option, none, some,
  Result, ok, err, panic,
}
use edge_sched.Prelude.Int.{ℤ}
use edge_sched.Prelude.Bytes.{Bytes, bytes, str_eq}
use edge_sched.Prelude.Decimal.{itoa, itoa_nat}
use edge_sched.Prelude.Floats.{Floats}
use edge_sched.Command.Engines.{trim_space}
use edge_sched.Statscraper.{format_bool}

-- `strings.ToLower` on ASCII.
abbrev pub lower : ℕ → ℕ
lower c = if leb b'A' c && leb c b'Z' then c + 32 else c

abbrev pub lower_all : Bytes → Bytes
lower_all [] = []
lower_all (c ∷ s) = lower c ∷ lower_all s

abbrev pub image_exts : List Bytes
image_exts = bytes ".jpg" ∷ bytes ".jpeg" ∷ bytes ".png" ∷ bytes ".bmp" ∷ []

-- `filepath.Ext` reads a path from its end, up to a dot or a slash.
pub data ExtScan : Type 0 where
  unseen slash : ExtScan
  found : Bytes → ExtScan

abbrev pub scan_byte : ℕ → Bytes → ExtScan → ExtScan
scan_byte c s unseen = if c == b'.' then found (c ∷ s) else if c == b'/' then slash else unseen
scan_byte c s slash = slash
scan_byte c s (found e) = found e

unfoldable pub scan_ext : Bytes → ExtScan
scan_ext [] = unseen
scan_ext (c ∷ s) = scan_byte c s (scan_ext s)

unfoldable pub ext : Bytes → Bytes
unfolding scan_ext
ext path = elim (scan_ext path) [ unseen ↦ [] | slash ↦ [] | found e ↦ e ]

-- What the walk shows to its function, in its order.
pub data Visit : Type 0 where
  visit_error : Bytes → Visit
  directory : Bytes → Visit
  file : Bytes → Visit

abbrev pub with_path : Bytes → Result Bytes (List Bytes) → Result Bytes (List Bytes)
with_path path (ok paths) = ok (path ∷ paths)
with_path path (err e) = err e
with_path path panic = panic

-- An error ends the walk.
unfoldable pub find_images : List Visit → Result Bytes (List Bytes)
unfolding ext str_eq
find_images [] = ok []
find_images (visit_error e ∷ vs) = err e
find_images (directory path ∷ vs) = find_images vs
find_images (file path ∷ vs) =
    let rest = find_images vs in
    if any (str_eq (lower_all (ext path))) image_exts then with_path path rest else rest

-- The errors of `sendOne`, with what they wrap.
pub data SendError : Type 0 where
  read_file : Bytes → SendError
  post_failed : Bytes → SendError
  http_status : ℕ → Bytes → SendError
  decode_response : Bytes → SendError

-- What `os.ReadFile` and `client.Post` with the reading of the body give.
pub data FileRead : Type 0 where
  unreadable : Bytes → FileRead
  contents : Bytes → FileRead

pub data Posted : Type 0 where
  no_reply : Bytes → Posted
  replied : ℕ → Bytes → Posted

module _ (fl : Floats) where
  -- `predictResponse`, with the number of its detections.
  pub record PredictReply : Type 0 where
    pub engine : Bytes
    pub auto_routed : Bool
    pub preprocess_ms : fl.F
    pub inference_ms : fl.F
    pub postprocess_ms : fl.F
    pub num_detections : ℕ

  -- `result`
  pub record Sent : Type 0 where
    pub path : Bytes
    pub status_code : ℕ
    pub error : Option SendError
    pub wall_ms : fl.F
    pub timestamp_ms : ℤ
    pub resp : PredictReply

  -- The zero value of the response.
  abbrev pub no_resp : fl.F → PredictReply
  no_resp zero = record {
    engine = [];
    auto_routed = false;
    preprocess_ms = zero;
    inference_ms = zero;
    postprocess_ms = zero;
    num_detections = 0;
  }

  module _ (zero : fl.F) (decode : Bytes → Result Bytes PredictReply) where
    unfoldable pub decoded : Sent → Result Bytes PredictReply → Sent
    decoded r (ok resp) = record r { resp = resp }
    decoded r (err e) = record r { error = some (decode_response e) }
    decoded r panic = r

    unfoldable pub of_reply : Sent → ℕ → Bytes → Sent
    unfolding decoded trim_space
    of_reply r code body =
        let r' = record r { status_code = code } in
        if code == 200
        then decoded r' (decode body)
        else record r' { error = some (http_status code (trim_space body)) }

    -- `at` is the time at which the call ended, `wall_ms` how long it took.
    unfoldable pub send_one : Bytes → FileRead → Posted → fl.F → ℤ → Sent
    unfolding of_reply
    send_one path (unreadable e) posted wall_ms at = record {
      path = path;
      status_code = 0;
      error = some (read_file e);
      wall_ms = zero;
      timestamp_ms = at;
      resp = no_resp zero;
    }
    send_one path (contents data_read) (no_reply e) wall_ms at = record {
      path = path;
      status_code = 0;
      error = some (post_failed e);
      wall_ms = wall_ms;
      timestamp_ms = at;
      resp = no_resp zero;
    }
    send_one path (contents data_read) (replied code body) wall_ms at =
        of_reply
          (record {
            path = path;
            status_code = 0;
            error = none;
            wall_ms = wall_ms;
            timestamp_ms = at;
            resp = no_resp zero;
          })
          code body

  -- One row of `writeCSV`; `sprintf` is the verb `%.2f`, `text` the text of an error.
  unfoldable pub csv_row : (fl.F → Bytes) → (SendError → Bytes) → Sent → List Bytes
  unfolding itoa itoa_nat
  csv_row sprintf text r =
      r.path
      ∷ itoa r.timestamp_ms
      ∷ itoa_nat r.status_code
      ∷ elim r.error [ none ↦ [] | some e ↦ text e ]
      ∷ sprintf r.wall_ms
      ∷ r.resp.engine
      ∷ format_bool r.resp.auto_routed
      ∷ sprintf r.resp.preprocess_ms
      ∷ sprintf r.resp.inference_ms
      ∷ sprintf r.resp.postprocess_ms
      ∷ itoa_nat r.resp.num_detections
      ∷ []

  abbrev pub csv_header : List Bytes
  csv_header =
      bytes "path"
      ∷ bytes "timestamp_ms"
      ∷ bytes "status_code"
      ∷ bytes "error"
      ∷ bytes "wall_ms"
      ∷ bytes "engine"
      ∷ bytes "auto_routed"
      ∷ bytes "preprocess_ms"
      ∷ bytes "inference_ms"
      ∷ bytes "postprocess_ms"
      ∷ bytes "num_detections"
      ∷ []

  unfoldable pub csv_rows : (fl.F → Bytes) → (SendError → Bytes) → List Sent → List (List Bytes)
  unfolding csv_row
  csv_rows sprintf text [] = []
  csv_rows sprintf text (r ∷ rs) = csv_row sprintf text r ∷ csv_rows sprintf text rs
