-- ===== src/Statscraper/Stops.antt =====
-- scheduler/cmd/statscraper/main.go: the loop of `main` with its two ways to stop.
use edge_sched.Prelude.{
  suc, ◌+◌, ◌≡◌, refl, sym, subst, ap, ◌∙◌, ◌==◌, ◌&&◌, if◌then◌else◌, Bool, true, false, any,
  Bool-cases, inl, inr, List, [], ◌∷◌, ◌++◌, Option, none, some, All, length, length-append,
  count_if, arith,
}
use edge_sched.Prelude.Int.{ℤ, pos, ltz}
use edge_sched.Prelude.Bytes.{Bytes}
use edge_sched.Prelude.Floats.{Floats}
use edge_sched.Statscraper.{Poll, Scraper, idle, with_header, add_row, tick, ticks, ticks-widths}

length-snoc : {A : Type 0} (xs : List A) (x : A) → length (xs ++ x ∷ []) ≡ length xs + 1
length-snoc xs x = length-append xs (x ∷ [])

module _ (fl : Floats) where
  -- What the `select` receives: the end of the context, or a tick, with the time since the start and
  -- what the poll gives if there is one.
  pub data Event : Type 0 where
    signal_received : Event
    ticked : ℤ → Option (Poll fl) → Event

  -- `*duration > 0 && time.Since(start) > *duration`
  abbrev pub has_elapsed : ℤ → ℤ → Bool
  has_elapsed duration since = ltz (pos 0) duration && ltz duration since

  module _ (sprintf_1 sprintf_3 : fl.F → Bytes) where
    -- The variables, and whether `main` has returned.
    unfoldable pub scrape : ℤ → Scraper fl → List Event → Scraper fl × Bool
    scrape duration s [] = (s, false)
    scrape duration s (signal_received ∷ es) = (s, true)
    scrape duration s (ticked since p ∷ es) =
        let rest = scrape duration (tick fl sprintf_1 sprintf_3 s p) es in
        if has_elapsed duration since then (s, true) else rest

  -- The events before the one that ends the loop.
  abbrev pub polls_before : ℤ → List Event → List (Option (Poll fl))
  polls_before duration [] = []
  polls_before duration (signal_received ∷ es) = []
  polls_before duration (ticked since p ∷ es) =
      if has_elapsed duration since then [] else p ∷ polls_before duration es

  abbrev pub ends_loop : ℤ → Event → Bool
  ends_loop duration signal_received = true
  ends_loop duration (ticked since p) = has_elapsed duration since

  abbrev pub has_reply : Option (Poll fl) → Bool
  has_reply none = false
  has_reply (some p) = true

  module _ (sprintf_1 sprintf_3 : fl.F → Bytes) where
    scrape-ticks :
        (duration : ℤ) (s : Scraper fl) (es : List Event)
        → (scrape sprintf_1 sprintf_3 duration s es).0
          ≡ ticks fl sprintf_1 sprintf_3 s (polls_before duration es)
    unfolding scrape ticks
    scrape-ticks duration s [] = refl
    scrape-ticks duration s (signal_received ∷ es) = refl
    scrape-ticks duration s (ticked since p ∷ es) = elim (Bool-cases (has_elapsed duration since)) [
      | inl over ↦ rw over refl
      | inr not_yet ↦ rw not_yet (scrape-ticks duration (tick fl sprintf_1 sprintf_3 s p) es)
    ]

    scrape-stopped :
        (duration : ℤ) (s : Scraper fl) (es : List Event)
        → (scrape sprintf_1 sprintf_3 duration s es).1 ≡ any (ends_loop duration) es
    unfolding scrape
    scrape-stopped duration s [] = refl
    scrape-stopped duration s (signal_received ∷ es) = refl
    scrape-stopped duration s (ticked since p ∷ es) =
        elim (Bool-cases (has_elapsed duration since)) [
          | inl over ↦ rw over refl
          | inr not_yet ↦ rw not_yet (scrape-stopped duration (tick fl sprintf_1 sprintf_3 s p) es)
        ]

    -- After the header every reply adds a row.
    tick-written :
        (s : Scraper fl) (p : Option (Poll fl))
        → s.header_written ≡ true
        → ((tick fl sprintf_1 sprintf_3 s p).header_written ≡ true)
          × (length (tick fl sprintf_1 sprintf_3 s p).rows
              ≡ length s.rows + (if has_reply p then 1 else 0))
    unfolding tick with_header add_row
    tick-written s none written = (written, omega arith)
    tick-written s (some p) written = rw written (refl, length-snoc s.rows _)

    ticks-written :
        (s : Scraper fl) (ps : List (Option (Poll fl)))
        → s.header_written ≡ true
        → length (ticks fl sprintf_1 sprintf_3 s ps).rows ≡ length s.rows + count_if has_reply ps
    unfolding ticks
    ticks-written s [] written = omega arith
    ticks-written s (p ∷ ps) written =
        let (still, more) = tick-written s p written in
        omega (arith, more, ticks-written (tick fl sprintf_1 sprintf_3 s p) ps still)

    first-row :
        (p : Poll fl)
        → ((tick fl sprintf_1 sprintf_3 (idle fl) (some p)).header_written ≡ true)
          × (length (tick fl sprintf_1 sprintf_3 (idle fl) (some p)).rows ≡ 2)
    unfolding tick with_header add_row
    first-row p = (refl, refl)

    ticks-rows :
        (ps : List (Option (Poll fl)))
        → length (ticks fl sprintf_1 sprintf_3 (idle fl) ps).rows
          ≡ (if count_if has_reply ps == 0 then 0 else suc (count_if has_reply ps))
    unfolding ticks tick
    ticks-rows [] = refl
    ticks-rows (none ∷ ps) = ground (arith, ticks-rows ps)
    ticks-rows (some p ∷ ps) =
        let (written, two) = first-row p in
        ground
          (arith, two, ticks-written (tick fl sprintf_1 sprintf_3 (idle fl) (some p)) ps written)

    -- The loop ends with the first event that is a signal, or a tick later than a positive duration.
    -- Of the ticks before, each whose poll has a reply gives one row, after a header before the first;
    -- and every row, the header included, has eight cells and one for each engine column, which the
    -- header fixes.
    pub scrape-table :
        (duration : ℤ) (es : List Event)
        → let (s, stopped) = scrape sprintf_1 sprintf_3 duration (idle fl) es in
          let replies = count_if has_reply (polls_before duration es) in
          (stopped ≡ any (ends_loop duration) es)
          × (length s.rows ≡ (if replies == 0 then 0 else suc replies))
          × All (λ row. length row ≡ 8 + length s.engine_cols) s.rows
    scrape-table duration es =
        let ps = polls_before duration es in
        let same = scrape-ticks duration (idle fl) es in
        (
          scrape-stopped duration (idle fl) es,
          ap (λ s. length s.rows) same ∙ ticks-rows ps,
          subst (λ s. All (λ row. length row ≡ 8 + length s.engine_cols) s.rows) (sym same)
              (ticks-widths fl sprintf_1 sprintf_3 ps),
        )
