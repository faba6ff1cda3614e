-- ===== src/Statscraper/Cells.antt =====
-- scheduler/internal/api/handlers.go and scheduler/cmd/statscraper/main.go: from the server's state to
-- the cells of a row.
use edge_sched.Prelude.{
  ◌≡◌, ◌≢◌, refl, ap, sym, ◌∙◌, List, [], ◌∷◌, All, In, here, there, map, some, Bool-cases, inl,
  inr, some_inj, In-All, arith,
}
use edge_sched.Prelude.Int.{ℤ, pos}
use edge_sched.Prelude.Bytes.{Bytes, str_eq, str_eq_iff}
use edge_sched.Prelude.Decimal.{itoa}
use edge_sched.Prelude.Maps.{GoMap, lookup, put, lookup-put, lookup-put_self}
use edge_sched.Prelude.Sort.{DistinctBy}
use edge_sched.Prelude.Floats.{Floats}
use edge_sched.Json.Value.{Codec}
use edge_sched.Healthcheck.Monitor as Health
use edge_sched.Routing.Pick.{EngineState, engine_name}
use edge_sched.Api.Server.{EnginePool, state_of, states_of}
use edge_sched.Statscraper.{EngineStatus, queues, queue_cell}
use edge_sched.Statscraper.Scraped.{scraped_engine}

abbrev name_of : EngineStatus → Bytes
name_of e = e.name

pub lookup-In : {V : Type 0} (k : Bytes) (v : V) (m : GoMap V) → lookup k m ≡ some v → In (k, v) m
unfolding lookup
lookup-In k v [] h = absurd (cc)
lookup-In k v ((j, w) ∷ m) h = elim (Bool-cases (str_eq j k)) [
  | inl same ↦ here (cc (sym ((str_eq_iff j k).0 same), sym (some_inj (rw same at h))))
  | inr other ↦ there (lookup-In k v m (rw other at h))
]

module _ (fl : Floats) where
  queues-absent :
      (n : Bytes) (es : List EngineStatus) (m : GoMap ℤ)
      → All (λ e. n ≢ name_of e) es
      → lookup n (queues fl es m) ≡ lookup n m
  unfolding queues
  queues-absent n [] m a = refl
  queues-absent n (e ∷ es) m (h, a) =
      queues-absent n es (put e.name e.queue_depth m) a
      ∙ ground (arith, lookup-put e.name n e.queue_depth m, (str_eq_iff e.name n).0, h)

  queues-In :
      (es : List EngineStatus) (m : GoMap ℤ) (e : EngineStatus)
      → DistinctBy name_of es
      → In e es
      → lookup e.name (queues fl es m) ≡ some e.queue_depth
  unfolding queues
  queues-In [] m e d i = elim i [ ]
  queues-In (x ∷ es) m e (h, d) (here same) = rw same (
      queues-absent x.name es (put x.name x.queue_depth m) h
      ∙ lookup-put_self x.name x.queue_depth m)
  queues-In (x ∷ es) m e (h, d) (there i) = queues-In es (put x.name x.queue_depth m) e d i

  module _ (codec : Codec fl) where
    -- The name is valid UTF-8.
    abbrev pub HasText : EngineState → Type 0
    HasText e = codec.valid_text e.name ≡ e.name

    scraped-absent :
        (k : Bytes) (es : List EngineState)
        → All HasText es
        → All (λ e. k ≢ engine_name e) es
        → All (λ e. k ≢ name_of e) (map (scraped_engine fl codec) es)
    scraped-absent k [] v a = tt
    scraped-absent k (e ∷ es) (v, vs) (n, a) = ((λ h. n (h ∙ v)), scraped-absent k es vs a)

    scraped-DistinctBy :
        (es : List EngineState)
        → All HasText es
        → DistinctBy engine_name es
        → DistinctBy name_of (map (scraped_engine fl codec) es)
    scraped-DistinctBy [] v d = tt
    scraped-DistinctBy (e ∷ es) (v, vs) (a, d) =
        (rw v (scraped-absent e.name es vs a), scraped-DistinctBy es vs d)

    scraped-In :
        (es : List EngineState) (e : EngineState)
        → In e es
        → In (scraped_engine fl codec e) (map (scraped_engine fl codec) es)
    scraped-In [] e i = elim i [ ]
    scraped-In (x ∷ es) e (here same) = here (ap (scraped_engine fl codec) same)
    scraped-In (x ∷ es) e (there i) = there (scraped-In es e i)

    -- The cell of an engine among distinct ones with valid names.
    pub queue_cell-scraped :
        (es : List EngineState) (e : EngineState)
        → All HasText es
        → DistinctBy engine_name es
        → In e es
        → queue_cell fl (queues fl (map (scraped_engine fl codec) es) []) e.name
          ≡ itoa (pos e.queue_depth)
    queue_cell-scraped es e v d i =
        let cells = queues fl (map (scraped_engine fl codec) es) [] in
        let found =
          queues-In (map (scraped_engine fl codec) es) [] (scraped_engine fl codec e)
            (scraped-DistinctBy es v d) (scraped-In es e i) in
        ap (λ n. queue_cell fl cells n) (sym (In-All HasText es v i)) ∙ rw found refl

  module _ (Client : Type 0) where
    pub states_of-In :
        (h : Health.Monitor Client) (p : Bytes × EnginePool fl) (ps : GoMap (EnginePool fl))
        → In p ps
        → In (state_of fl Client h p) (states_of fl Client h ps)
    unfolding states_of
    states_of-In h p [] i = elim i [ ]
    states_of-In h p (x ∷ ps) (here same) = here (ap (state_of fl Client h) same)
    states_of-In h p (x ∷ ps) (there i) = there (states_of-In h p ps i)
