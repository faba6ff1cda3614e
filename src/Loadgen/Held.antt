-- ===== src/Loadgen/Held.antt =====
-- scheduler/cmd/loadgen/main.go: the paths that the workers of `main` hold.
use edge_sched.Prelude.{
  ℕ, zero, suc, ◌+◌, ◌<◌, ◌≡◌, refl, ap, if◌then◌else◌, Bool, true, false, true_not_false, ◌==◌, ok,
  err, panic, List, [], ◌∷◌, ◌++◌, Result, length, All, count_if, arith,
}
use edge_sched.Prelude.Int.{ℤ, pos, negsuc, ltz}
use edge_sched.Prelude.Bytes.{Bytes}
use edge_sched.Prelude.Floats.{Floats}
use edge_sched.Prelude.Totals.{total, total-replicate_zero}
use edge_sched.Loadgen.Send.{
  FileRead, unreadable, contents, Posted, no_reply, replied, PredictReply, Sent, decoded, of_reply,
  send_one,
}
use edge_sched.Loadgen.Feed.{Worker, asking, fetching, offering, returned, workers_of}

pub count_if-append :
    {A : Type 0} (f : A → Bool) (xs ys : List A)
    → count_if f (xs ++ ys) ≡ count_if f xs + count_if f ys
count_if-append f [] ys = omega arith
count_if-append f (x ∷ xs) ys = omega (arith, count_if-append f xs ys)

either : {A : Type 0} (P : A → Type 0) (b : Bool) {x y : A} → P x → P y → P (if b then x else y)
either P true h k = h
either P false h k = k

module _ (fl : Floats) (zero_f : fl.F) (decode : Bytes → Result Bytes (PredictReply fl)) where
  decoded-path :
      (r : Sent fl) (d : Result Bytes (PredictReply fl))
      → (decoded fl zero_f decode r d).path ≡ r.path
  unfolding decoded
  decoded-path r (ok resp) = refl
  decoded-path r (err e) = refl
  decoded-path r panic = refl

  -- A result names the path that was sent.
  pub send_one-path :
      (p : Bytes) (file_read : FileRead) (posted : Posted) (wall_ms : fl.F) (at : ℤ)
      → (send_one fl zero_f decode p file_read posted wall_ms at).path ≡ p
  unfolding send_one of_reply
  send_one-path p (unreadable e) posted wall_ms at = refl
  send_one-path p (contents data_read) (no_reply e) wall_ms at = refl
  send_one-path p (contents data_read) (replied code body) wall_ms at =
      either (λ (r : Sent fl). r.path ≡ p) (code == 200) (decoded-path _ (decode body)) refl

-- The paths that a worker holds, counted by a test.
abbrev pub held : {fl : Floats} → (Bytes → Bool) → Worker fl → ℕ
held f asking = 0
held f (fetching p) = if f p then 1 else 0
held f (offering r) = if f r.path then 1 else 0
held f returned = 0

abbrev pub gone : {fl : Floats} → Worker fl → ℕ
gone asking = 0
gone (fetching p) = 0
gone (offering r) = 0
gone returned = 1

pub All-returned :
    {fl : Floats} (ws : List (Worker fl))
    → All (λ w. w ≡ returned) ws
    → (total gone ws ≡ length ws) × ((f : Bytes → Bool) → total (held f) ws ≡ 0)
All-returned [] h = (refl, λ f. refl)
All-returned (w ∷ ws) (e, h) =
    let (n, k) = All-returned ws h in
    (omega (arith, ap gone e, n), λ f. omega (arith, ap (held f) e, k f))

pub gone-replicate :
    (fl : Floats) (concurrency : ℤ) → total (gone {fl = fl}) (workers_of fl concurrency) ≡ 0
gone-replicate fl (pos n) = total-replicate_zero gone n asking refl
gone-replicate fl (negsuc n) = refl

pub held-replicate :
    (fl : Floats) (concurrency : ℤ) (f : Bytes → Bool)
    → total (held {fl = fl} f) (workers_of fl concurrency) ≡ 0
held-replicate fl (pos n) f = total-replicate_zero (held f) n asking refl
held-replicate fl (negsuc n) f = refl

pub length-workers_of :
    (fl : Floats) (concurrency : ℤ)
    → ltz (pos 0) concurrency ≡ true
    → 0 < length (workers_of fl concurrency)
length-workers_of fl (pos zero) h = absurd (true_not_false h refl)
length-workers_of fl (pos (suc n)) h = omega arith
length-workers_of fl (negsuc n) h = absurd (true_not_false h refl)

pub handed_count :
    (f : Bytes → Bool) (handed : List Bytes) (p : Bytes)
    → count_if f (handed ++ p ∷ []) ≡ count_if f handed + (if f p then 1 else 0)
handed_count f handed p = omega (arith, count_if-append f handed (p ∷ []))
