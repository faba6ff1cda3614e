-- ===== src/Loadgen/Main.antt =====
-- scheduler/cmd/loadgen/main.go: `main` up to its goroutines.
use native.Mathlib.Nat.{mod-lt}
use edge_sched.Prelude.{
  ℕ, zero, suc, ◌+◌, ◌<◌, ◌%◌, ◌≡◌, ◌≢◌, refl, sym, ap, ◌∙◌, Bool, true, Bool-cases, inl, inr, List,
  [], ◌∷◌, ◌++◌, any, All, length, get_elem?, get_elem?-total, Option, none, some, Result, ok, err,
  panic, ok-injective, subst, arith,
}
use edge_sched.Prelude.Int.{ℤ, pos, negsuc}
use edge_sched.Prelude.Bytes.{Bytes, str_eq}
use edge_sched.Prelude.Floats.{Floats}
use edge_sched.Loadgen.Send.{
  lower_all, image_exts, ext, Visit, visit_error, directory, file, with_path, find_images,
}
use edge_sched.Loadgen.Feed.{Run, begin}

-- The flags that the sending depends on; a duration is in nanoseconds.
pub record Flags : Type 0 where
  pub addr : Bytes
  pub dir : Bytes
  pub engine : Bytes
  pub latency_budget_ms : ℤ
  pub concurrency : ℤ
  pub duration : ℤ
  pub warmup : ℤ

-- What `log.Fatal` is called with.
pub data Fatal : Type 0 where
  must_specify_dir : Fatal
  failed_to_walk : (dir cause : Bytes) → Fatal
  no_images_found : Bytes → Fatal

abbrev pub images_of : Bytes → Result Bytes (List Bytes) → Result Fatal (List Bytes)
images_of dir (err e) = err (failed_to_walk dir e)
images_of dir (ok []) = err (no_images_found dir)
images_of dir (ok (p ∷ paths)) = ok (p ∷ paths)
images_of dir panic = panic

-- From the check of `-dir` to that of the images, with what the walk shows.
unfoldable pub images : Flags → List Visit → Result Fatal (List Bytes)
unfolding find_images
images f visits = elim f.dir [
  | [] ↦ err must_specify_dir
  | c ∷ s ↦ images_of (c ∷ s) (find_images visits)
]

abbrev pub as_list : Option Bytes → List Bytes
as_list none = []
as_list (some p) = p ∷ []

-- `paths[i%len(paths)]`
abbrev pub nth : List Bytes → ℕ → List Bytes
nth paths i = as_list (get_elem? paths (i % length paths))

-- The rounds that are left of the warm-up, and what they send.
unfoldable pub warm_up_from : ℕ → ℕ → List Bytes → List Bytes
warm_up_from zero i paths = []
warm_up_from (suc n) i paths = nth paths i ++ warm_up_from n (i + 1) paths

unfoldable pub warm_up : ℤ → List Bytes → List Bytes
unfolding warm_up_from
warm_up (pos n) paths = warm_up_from n 0 paths
warm_up (negsuc n) paths = []

-- What the goroutines start from.
abbrev pub run_of : (fl : Floats) → Flags → List Bytes → Run fl
run_of fl f paths = begin fl f.duration f.concurrency paths

abbrev pub is_image : Bytes → Bool
is_image path = any (str_eq (lower_all (ext path))) image_exts

with_path-All :
    (P : Bytes → Type 0) (path : Bytes) (r : Result Bytes (List Bytes)) (paths : List Bytes)
    → P path
    → ((qs : List Bytes) → r ≡ ok qs → All P qs)
    → with_path path r ≡ ok paths
    → All P paths
with_path-All P path (ok qs) paths h k e = subst (All P) (ok-injective e) (h, k qs refl)
with_path-All P path (err x) paths h k e = absurd (cc)
with_path-All P path panic paths h k e = absurd (cc)

find_images-images :
    (visits : List Visit) (paths : List Bytes)
    → find_images visits ≡ ok paths
    → All (λ p. is_image p ≡ true) paths
unfolding find_images
find_images-images [] paths e = subst (All (λ p. is_image p ≡ true)) (ok-injective e) tt
find_images-images (visit_error x ∷ vs) paths e = absurd (cc)
find_images-images (directory d ∷ vs) paths e = find_images-images vs paths e
find_images-images (file p ∷ vs) paths e = elim (Bool-cases (is_image p)) [
  | inl image ↦
      with_path-All (λ p. is_image p ≡ true) p (find_images vs) paths image
        (λ qs h. find_images-images vs qs h) (rw image at e)
  | inr other ↦ find_images-images vs paths (rw other at e)
]

-- If the images are found, the directory was given, there is at least one, and each is a file with
-- the extension of an image.
images-found :
    (f : Flags) (visits : List Visit) (paths : List Bytes)
    → images f visits ≡ ok paths
    → f.dir ≢ [] × 0 < length paths × All (λ p. is_image p ≡ true) paths
unfolding images
images-found f visits paths e = by_dir f.dir e
  where
    some_images :
        (dir : Bytes) (r : Result Bytes (List Bytes))
        → ((qs : List Bytes) → r ≡ ok qs → All (λ p. is_image p ≡ true) qs)
        → images_of dir r ≡ ok paths
        → 0 < length paths × All (λ p. is_image p ≡ true) paths
    some_images dir (err x) k e = absurd (cc)
    some_images dir (ok []) k e = absurd (cc)
    some_images dir (ok (p ∷ ps)) k e =
        subst (λ qs. 0 < length qs × All (λ p. is_image p ≡ true) qs) (ok-injective e)
          (omega arith, k (p ∷ ps) refl)
    some_images dir panic k e = absurd (cc)

    by_dir :
        (dir : Bytes)
        → (elim dir [ [] ↦ err must_specify_dir | c ∷ s ↦ images_of (c ∷ s) (find_images visits) ])
          ≡ ok paths
        → dir ≢ [] × 0 < length paths × All (λ p. is_image p ≡ true) paths
    by_dir [] e = absurd (cc)
    by_dir (c ∷ s) e =
        let (n, all) =
          some_images (c ∷ s) (find_images visits) (λ qs h. find_images-images visits qs h) e in
        ((λ h. cc), n, all)

nth-some :
    (paths : List Bytes) (i : ℕ)
    → 0 < length paths
    → (p : Bytes) × (get_elem? paths (i % length paths) ≡ some p) × (nth paths i ≡ p ∷ [])
nth-some paths i h =
    let (p, e) = get_elem?-total paths (i % length paths) (mod-lt i h) in (p, e, ap as_list e)

-- The warm-up sends as many images as it has rounds, in the order of the images, again from the first
-- after the last.
warm_up_from-get_elem? :
    (n i j : ℕ) (paths : List Bytes)
    → 0 < length paths
    → j < n
    → get_elem? (warm_up_from n i paths) j ≡ get_elem? paths ((i + j) % length paths)
unfolding warm_up_from
warm_up_from-get_elem? zero i j paths h k = absurd (omega arith)
warm_up_from-get_elem? (suc n) i zero paths h k =
    let (p, e, one) = nth-some paths i h in
    rw one (sym e ∙ ap (λ m. get_elem? paths (m % length paths)) (omega arith))
warm_up_from-get_elem? (suc n) i (suc j) paths h k =
    let (p, e, one) = nth-some paths i h in
    rw one (
      warm_up_from-get_elem? n (i + 1) j paths h (omega arith)
      ∙ ap (λ m. get_elem? paths (m % length paths)) (omega arith))
