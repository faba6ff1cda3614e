-- ===== src/Loadgen/Feed.antt =====
-- scheduler/cmd/loadgen/main.go: the goroutines of `main` in any interleaving. One hands out the
-- paths, the workers send them, and `main` collects the results. Neither channel has a buffer, so a
-- send and its receive are one step. The clock of the sustained mode is left open: it may end at any
-- time.
use edge_sched.Prelude.{
  ℕ, suc, ◌+◌, ◌%◌, ◌≡◌, if◌then◌else◌, Bool, true, false, List, [], ◌∷◌, ◌++◌, some, Result,
  length, replicate, get_elem?, set, All,
}
use edge_sched.Prelude.Int.{ℤ, pos, negsuc, ltz}
use edge_sched.Prelude.Bytes.{Bytes}
use edge_sched.Prelude.Floats.{Floats}
use edge_sched.Loadgen.Send.{FileRead, Posted, PredictReply, Sent, send_one}

-- What the goroutine that hands out paths has left: the rest of the one pass, or the counter of the
-- sustained mode; or it has closed its channel.
pub data Producer : Type 0 where
  one_pass : List Bytes → Producer
  sustained : ℕ → Producer
  paths_closed : Producer

-- `*duration > 0`
abbrev pub producer_of : ℤ → List Bytes → Producer
producer_of duration paths = if ltz (pos 0) duration then sustained 0 else one_pass paths

module _ (fl : Floats) where
  -- A worker asks for a path, sends one, has a result to hand in, or has returned.
  pub data Worker : Type 0 where
    asking : Worker
    fetching : Bytes → Worker
    offering : Sent fl → Worker
    returned : Worker

  -- The rounds of `for i := 0; i < *concurrency; i++`.
  abbrev pub workers_of : ℤ → List Worker
  workers_of (pos n) = replicate n asking
  workers_of (negsuc n) = []

  -- `handed` records the paths that were handed out, in order; `over` is that `main` has seen the
  -- end of the results.
  pub record Run : Type 0 where
    pub producer : Producer
    pub workers : List Worker
    pub results : List (Sent fl)
    pub over : Bool
    pub handed : List Bytes

  abbrev pub begin : ℤ → ℤ → List Bytes → Run
  begin duration concurrency paths = record {
    producer = producer_of duration paths;
    workers = workers_of concurrency;
    results = [];
    over = false;
    handed = [];
  }

  module _ (zero_f : fl.F) (decode : Bytes → Result Bytes (PredictReply fl))
      (paths : List Bytes) where
    pub data Step (s : Run) : Run → Type 0 where
      hands_out :
          (p : Bytes) (rest : List Bytes) (i : ℕ)
          → s.producer ≡ one_pass (p ∷ rest)
          → get_elem? s.workers i ≡ some asking
          → Step s (record s {
            producer = one_pass rest;
            workers = set s.workers i (fetching p);
            handed = s.handed ++ p ∷ [];
          })
      -- `paths[idx%len(paths)]`
      cycles :
          (p : Bytes) (idx i : ℕ)
          → s.producer ≡ sustained idx
          → get_elem? paths (idx % length paths) ≡ some p
          → get_elem? s.workers i ≡ some asking
          → Step s (record s {
            producer = sustained (idx + 1);
            workers = set s.workers i (fetching p);
            handed = s.handed ++ p ∷ [];
          })
      passes : s.producer ≡ one_pass [] → Step s (record s { producer = paths_closed })
      expires :
          (idx : ℕ) → s.producer ≡ sustained idx → Step s (record s { producer = paths_closed })
      sends :
          (p : Bytes) (i : ℕ) (file_read : FileRead) (posted : Posted) (wall_ms : fl.F) (at : ℤ)
          → get_elem? s.workers i ≡ some (fetching p)
          → Step s (record s {
            workers =
                set s.workers i
                  (offering (send_one fl zero_f decode p file_read posted wall_ms at));
          })
      collects :
          (r : Sent fl) (i : ℕ)
          → get_elem? s.workers i ≡ some (offering r)
          → s.over ≡ false
          → Step s (record s { workers = set s.workers i asking; results = s.results ++ r ∷ [] })
      -- The `range` over the closed channel of paths ends.
      returns :
          (i : ℕ)
          → s.producer ≡ paths_closed
          → get_elem? s.workers i ≡ some asking
          → Step s (record s { workers = set s.workers i returned })
      -- `wg.Wait()` and `close(resultsCh)`
      ends : All (λ w. w ≡ returned) s.workers → s.over ≡ false → Step s (record s { over = true })

    -- A state after a number of steps.
    pub data Reach (duration concurrency : ℤ) : ℕ → Run → Type 0 where
      begun : Reach duration concurrency 0 (begin duration concurrency paths)
      later :
          {n : ℕ} {s t : Run}
          → Reach duration concurrency n s
          → Step s t
          → Reach duration concurrency (suc n) t
