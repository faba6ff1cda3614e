-- ===== src/Statscraper.antt =====
-- scheduler/cmd/statscraper/main.go: the rows that it writes. A poll is the decoded reply, or `none`
-- if the request or the decoding failed, with the time of its row. `Sprintf` on a float is a
-- parameter.
pub mod Decode
pub mod Scraped
pub mod Page
pub mod Cells
pub mod Polled
pub mod Stops
use edge_sched.Prelude.{
  ℕ, suc, ◌+◌, ◌≡◌, refl, ap, ◌∙◌, if◌then◌else◌, Bool, true, false, Bool-cases, true_not_false,
  List, [], ◌∷◌, ◌++◌, map, Option, none, some, inl, inr, All, All-append, length, length-append,
}
use edge_sched.Prelude.Int.{ℤ, pos}
use edge_sched.Prelude.Bytes.{Bytes, bytes}
use edge_sched.Prelude.Sort.{sort_by}
use edge_sched.Prelude.Maps.{GoMap, lookup, put, get_or}
use edge_sched.Prelude.Decimal.{itoa}
use edge_sched.Prelude.Floats.{Floats}

-- `strconv.FormatBool`
abbrev pub format_bool : Bool → Bytes
format_bool true = bytes "true"
format_bool false = bytes "false"

abbrev pub itself : Bytes → Bytes
itself s = s

pub record EngineStatus : Type 0 where
  pub name : Bytes
  pub queue_depth : ℤ

module _ (fl : Floats) where
  pub record SystemStatus : Type 0 where
    pub valid : Bool
    pub max_temp_c : fl.F
    pub power_mw : fl.F
    pub gpu_util_pct : fl.F
    pub ram_used_mb : ℤ

  pub record StatusResp : Type 0 where
    pub policy : Bytes
    pub engines : List EngineStatus
    pub system : SystemStatus

  -- The variables of the loop, and the rows written, the header first.
  pub record Scraper : Type 0 where
    pub engine_cols : List Bytes
    pub header_written : Bool
    pub rows : List (List Bytes)

  abbrev pub idle : Scraper
  idle = record { engine_cols = []; header_written = false; rows = [] }

  pub record Poll : Type 0 where
    pub resp : StatusResp
    pub timestamp_ms : ℤ
    pub elapsed_sec : fl.F

  unfoldable pub names_of : List EngineStatus → List Bytes
  names_of [] = []
  names_of (e ∷ es) = e.name ∷ names_of es

  abbrev pub queue_column : Bytes → Bytes
  queue_column n = bytes "queue_" ++ n

  abbrev pub header_of : List Bytes → List Bytes
  header_of cols =
      (bytes "timestamp_ms"
        ∷ bytes "elapsed_sec"
        ∷ bytes "policy"
        ∷ bytes "valid"
        ∷ bytes "max_temp_c"
        ∷ bytes "power_mw"
        ∷ bytes "gpu_util_pct"
        ∷ bytes "ram_used_mb"
        ∷ [])
      ++ map queue_column cols

  -- The block under `!headerWritten`.
  unfoldable pub with_header : StatusResp → Scraper → Scraper
  unfolding names_of sort_by
  with_header st s =
      let names = sort_by itself (names_of st.engines) in
      if s.header_written then s else record {
        engine_cols = names;
        header_written = true;
        rows = s.rows ++ header_of names ∷ [];
      }

  unfoldable pub queues : List EngineStatus → GoMap ℤ → GoMap ℤ
  queues [] m = m
  queues (e ∷ es) m = queues es (put e.name e.queue_depth m)

  abbrev pub queue_cell : GoMap ℤ → Bytes → Bytes
  queue_cell queue_by_name n = itoa (get_or (lookup n queue_by_name) (pos 0))

  module _ (sprintf_1 sprintf_3 : fl.F → Bytes) where
    unfoldable pub row_of : Poll → List Bytes → List Bytes
    unfolding queues itoa
    row_of p cols =
        let st = p.resp in
        (itoa p.timestamp_ms
          ∷ sprintf_1 p.elapsed_sec
          ∷ st.policy
          ∷ format_bool st.system.valid
          ∷ sprintf_3 st.system.max_temp_c
          ∷ sprintf_1 st.system.power_mw
          ∷ sprintf_1 st.system.gpu_util_pct
          ∷ itoa st.system.ram_used_mb
          ∷ [])
        ++ map (queue_cell (queues st.engines [])) cols

    -- One tick.
    unfoldable pub add_row : Poll → Scraper → Scraper
    unfolding row_of
    add_row p s = record s { rows = s.rows ++ row_of p s.engine_cols ∷ [] }

    unfoldable pub tick : Scraper → Option Poll → Scraper
    unfolding with_header add_row
    tick s none = s
    tick s (some p) = add_row p (with_header p.resp s)

    unfoldable pub ticks : Scraper → List (Option Poll) → Scraper
    unfolding tick
    ticks s [] = s
    ticks s (p ∷ ps) = ticks (tick s p) ps

    length-map : {A B : Type 0} → (f : A → B) (xs : List A) → length (map f xs) ≡ length xs
    length-map f [] = refl
    length-map f (x ∷ xs) = ap suc (length-map f xs)

    -- Each row has eight cells and one for each engine; before the header there is no row.
    record IsTable (s : Scraper) : Type 0 where
      widths : All (λ row. length row ≡ 8 + length s.engine_cols) s.rows
      no_rows : s.header_written ≡ false → s.rows ≡ []

    with_header-IsTable :
        (st : StatusResp) (s : Scraper)
        → IsTable s
        → IsTable (with_header st s) × ((with_header st s).header_written ≡ true)
    unfolding with_header
    with_header-IsTable st s v = elim (Bool-cases s.header_written) [
      | inl written ↦
          rw written
            (record { widths = v.widths; no_rows = λ e. absurd (true_not_false refl e) }, refl)
      | inr first ↦
          let names = sort_by itself (names_of st.engines) in
          rw (first, v.no_rows first)
            (
              record {
                widths = (
                  length-append (header_of []) (map queue_column names)
                      ∙ ap (λ n. 8 + n) (length-map queue_column names),
                  tt,
                );
                no_rows = λ e. absurd (true_not_false refl e);
              },
              refl,
            )
    ]

    add_row-IsTable :
        (p : Poll) (s : Scraper) → s.header_written ≡ true → IsTable s → IsTable (add_row p s)
    unfolding add_row row_of
    add_row-IsTable p s written v =
        let cell = queue_cell (queues p.resp.engines []) in
        record {
          widths = All-append _ s.rows _ v.widths (
            length-append (row_of p []) (map cell s.engine_cols)
                ∙ ap (λ n. 8 + n) (length-map cell s.engine_cols),
            tt,
          );
          no_rows = λ e. absurd (true_not_false written e);
        }

    tick-IsTable : (s : Scraper) (p : Option Poll) → IsTable s → IsTable (tick s p)
    unfolding tick
    tick-IsTable s none v = v
    tick-IsTable s (some p) v =
        let (w, written) = with_header-IsTable p.resp s v in
        add_row-IsTable p (with_header p.resp s) written w

    ticks-IsTable : (s : Scraper) (ps : List (Option Poll)) → IsTable s → IsTable (ticks s ps)
    unfolding ticks
    ticks-IsTable s [] v = v
    ticks-IsTable s (p ∷ ps) v = ticks-IsTable (tick s p) ps (tick-IsTable s p v)

    -- After any polls, failed ones among them, every row that was written, the header included, has
    -- eight cells and one for each engine column, which the header fixes.
    pub ticks-widths :
        (ps : List (Option Poll))
        → let s = ticks idle ps in All (λ row. length row ≡ 8 + length s.engine_cols) s.rows
    ticks-widths ps = (ticks-IsTable idle ps (record { widths = tt; no_rows = λ e. refl })).widths
