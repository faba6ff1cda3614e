-- ===== src/Loadgen/Percentiles.antt =====
-- scheduler/cmd/loadgen/main.go: the percentiles that `main` prints.
use mathlib.Core.List.{Permᴰ}
use mathlib.Core.List.Permᴰ
use edge_sched.Prelude.{
  ℕ, ◌≤◌, ◌<◌, ◌≡◌, refl, ap, subst, ◌∙◌, true, false, Bool-cases, List, [], ◌∷◌, some, All,
  All-get_elem?, Permᴰ-All, Permᴰ-In, Permᴰ-length, In, In-get_elem?, get_elem?-total, length,
  get_elem?, arith,
}
use edge_sched.Prelude.Int.{pos, pos_part}
use edge_sched.Prelude.Indexed.{get_elem?-lt, All-of_get_elem?}
use edge_sched.Prelude.Floats.{Floats, IsIeee, Scaling, IsScaling, max_exact}
use edge_sched.Loadgen.Latency.{
  less, float64s, at_index, Latencies, rank, percentile, of_sorted, latencies,
}
use edge_sched.Loadgen.Ascending.{
  float64s-perm, IsAscending, float64s-IsAscending, get_elem?-IsAscending,
}

module _ (fl : Floats) (ops : Scaling fl) (scaling : IsScaling fl ops) where
  abbrev of_nat : ℕ → fl.F
  of_nat n = fl.of_int (pos n)

  -- A percentage as a fraction.
  abbrev share : ℕ → fl.F
  share k = fl.div (of_nat k) (of_nat 100)

  share-bounds :
      (k : ℕ) → k ≤ 100 → (fl.le (of_nat 0) (share k) ≡ true) × (fl.le (share k) (of_nat 1) ≡ true)
  share-bounds k small = (
    subst (λ z. fl.le z (share k) ≡ true) (scaling.zero_div 100 (omega arith))
        (scaling.div_mono (of_nat 0) (of_nat k) 100 (omega arith)
          (scaling.of_int_mono 0 k (omega arith))),
    subst (λ z. fl.le (share k) z ≡ true) (scaling.div_self 100 (omega arith))
        (scaling.div_mono (of_nat k) (of_nat 100) 100 (omega arith)
          (scaling.of_int_mono k 100 small)),
  )

  abbrev part : ℕ → ℕ → fl.F
  part k n = ops.mul (share k) (of_nat n)

  part-low : (k n : ℕ) → k ≤ 100 → fl.le (of_nat 0) (part k n) ≡ true
  part-low k n small =
      let (low, high) = share-bounds k small in
      subst (λ z. fl.le z (part k n) ≡ true) (scaling.zero_mul n)
        (scaling.mul_mono (of_nat 0) (share k) n (scaling.of_int_mono 0 0 (omega arith)) low high)

  part-high : (k n : ℕ) → k ≤ 100 → fl.le (part k n) (of_nat n) ≡ true
  part-high k n small =
      let (low, high) = share-bounds k small in
      subst (λ z. fl.le (part k n) z ≡ true) (scaling.one_mul n)
        (scaling.mul_mono (share k) (of_nat 1) n low high (scaling.of_int_mono 1 1 (omega arith)))

  part_mono : (j k n : ℕ) → j ≤ k → k ≤ 100 → fl.le (part j n) (part k n) ≡ true
  part_mono j k n le small =
      scaling.mul_mono (share j) (share k) n (share-bounds j (omega arith)).0
        (scaling.div_mono (of_nat j) (of_nat k) 100 (omega arith) (scaling.of_int_mono j k le))
        (share-bounds k small).1

  -- The index is in range.
  rank-in : (k n : ℕ) → k ≤ 100 → n ≤ max_exact → (i : ℕ) × (rank fl ops (pos k) n ≡ pos i) × i ≤ n
  rank-in k n small exact =
      scaling.to_int_range (part k n) n (part-low k n small) (part-high k n small) exact

  rank_mono :
      (j k n : ℕ)
      → j ≤ k
      → k ≤ 100
      → n ≤ max_exact
      → pos_part (rank fl ops (pos j) n) ≤ pos_part (rank fl ops (pos k) n)
  rank_mono j k n le small exact =
      scaling.to_int_mono (part j n) (part k n) n (part-low j n (omega arith))
        (part_mono j k n le small) (part-high k n small) exact

  -- A percentile of a list that is not empty is an element, at the index.
  percentile-at :
      (x : fl.F) (xs : List fl.F) (k : ℕ)
      → k ≤ 100
      → length xs ≤ max_exact
      → (a : fl.F) × (percentile fl ops (x ∷ xs) (pos k) ≡ some a)
        × (get_elem? (x ∷ xs) (pos_part (rank fl ops (pos k) (length xs))) ≡ some a)
  unfolding percentile
  percentile-at x xs k small exact =
      let (i, e, in_range) = rank-in k (length xs) small exact in
      let (a, stands) = get_elem?-total (x ∷ xs) i (omega arith) in
      (a, ap (at_index fl (x ∷ xs)) e ∙ stands, rw e stands)

  module _ (ieee : IsIeee fl) where
    -- The values are numbers that stand in the list, in order, and none is above the last.
    abbrev pub AreOrdered : List fl.F → Latencies fl → Type 0
    AreOrdered ws l =
        (fl.le l.p50 l.p95 ≡ true)
        × (fl.le l.p95 l.p99 ≡ true)
        × (fl.le l.p99 l.max_ms ≡ true)
        × All (λ w. fl.le w l.max_ms ≡ true) ws
        × (In l.p50 ws × In l.p95 ws × In l.p99 ws × In l.max_ms ws)

    not_less-le :
        (a b : fl.F)
        → fl.is_nan a ≡ false
        → fl.is_nan b ≡ false
        → less fl b a ≡ false
        → fl.le a b ≡ true
    not_less-le a b p q h = ground (arith, ieee.le-not_lt a b p q, Bool-cases (fl.lt b a), h, p, q)

    ordered :
        (ws : List fl.F)
        → IsAscending fl ws
        → All (λ w. fl.is_nan w ≡ false) ws
        → (i j : ℕ) (a b : fl.F) → i ≤ j
        → get_elem? ws i ≡ some a
        → get_elem? ws j ≡ some b
        → fl.le a b ≡ true
    ordered ws sorted numbers i j a b h e f =
        not_less-le a b (All-get_elem? (λ w. fl.is_nan w ≡ false) ws i a numbers e)
          (All-get_elem? (λ w. fl.is_nan w ≡ false) ws j b numbers f)
          (get_elem?-IsAscending fl ieee ws i j a b sorted h e f)

    of_sorted-AreOrdered :
        (x : fl.F) (xs : List fl.F)
        → IsAscending fl (x ∷ xs)
        → All (λ w. fl.is_nan w ≡ false) (x ∷ xs)
        → length xs ≤ max_exact
        → (l : Latencies fl) × (of_sorted fl ops (x ∷ xs) ≡ some l) × AreOrdered (x ∷ xs) l
    of_sorted-AreOrdered x xs sorted numbers exact =
        let (a, ea, ia) = percentile-at x xs 50 (omega arith) exact in
        let (b, eb, ib) = percentile-at x xs 95 (omega arith) exact in
        let (c, ec, ic) = percentile-at x xs 99 (omega arith) exact in
        let (d, id) = get_elem?-total (x ∷ xs) (length xs) (omega arith) in
        let (i, e, in_range) = rank-in 99 (length xs) (omega arith) exact in
        let up = ordered (x ∷ xs) sorted numbers in
        (
          record { p50 = a; p95 = b; p99 = c; max_ms = d },
          rw (ea, eb, ec, id) refl,
          (
            up _ _ a b (rank_mono 50 95 (length xs) (omega arith) (omega arith) exact) ia ib,
            up _ _ b c (rank_mono 95 99 (length xs) (omega arith) (omega arith) exact) ib ic,
            up _ _ c d (omega (arith, ap pos_part e, in_range)) ic id,
            All-of_get_elem? (λ w. fl.le w d ≡ true) (x ∷ xs)
                (λ m w at. up m _ w d (omega (arith, get_elem?-lt (x ∷ xs) m w at)) at id),
            (
              In-get_elem? (x ∷ xs) _ a ia,
              In-get_elem? (x ∷ xs) _ b ib,
              In-get_elem? (x ∷ xs) _ c ic,
              In-get_elem? (x ∷ xs) _ d id,
            ),
          ),
        )

    AreOrdered-perm :
        {vs ws : List fl.F} (l : Latencies fl) → Permᴰ vs ws → AreOrdered vs l → AreOrdered ws l
    AreOrdered-perm l p (a, b, c, all, (i, j, k, m)) = (
      a,
      b,
      c,
      Permᴰ-All (λ w. fl.le w l.max_ms ≡ true) p all,
      (Permᴰ-In p i, Permᴰ-In p j, Permᴰ-In p k, Permᴰ-In p m),
    )

    of_sorted-total :
        (vs ws : List fl.F)
        → Permᴰ vs ws
        → IsAscending fl vs
        → All (λ w. fl.is_nan w ≡ false) ws
        → 0 < length ws
        → length ws ≤ max_exact
        → (l : Latencies fl) × (of_sorted fl ops vs ≡ some l) × AreOrdered ws l
    of_sorted-total [] ws p sorted numbers some_times exact = absurd (omega (arith, Permᴰ-length p))
    of_sorted-total (x ∷ xs) ws p sorted numbers some_times exact =
        let (l, e, ordered_vs) =
          of_sorted-AreOrdered x xs sorted
            (Permᴰ-All (λ w. fl.is_nan w ≡ false) (Permᴰ.symm p) numbers)
            (omega (arith, Permᴰ-length p)) in
        (l, e, AreOrdered-perm l p ordered_vs)

    -- With IEEE arithmetic, times of which none is NaN, at least one and at most 2 ^ 53, have
    -- percentiles: no index is out of range, and the median, the 95th and the 99th percentile and the
    -- maximum are times of the list, each at most the next, and no time is above the maximum.
    pub latencies-ordered :
        (wall_times : List fl.F)
        → All (λ w. fl.is_nan w ≡ false) wall_times
        → 0 < length wall_times
        → length wall_times ≤ max_exact
        → (l : Latencies fl) × (latencies fl ops wall_times ≡ some l) × AreOrdered wall_times l
    unfolding latencies
    latencies-ordered ws numbers some_times exact =
        of_sorted-total (float64s fl ws) ws (float64s-perm fl ws) (float64s-IsAscending fl ieee ws)
          numbers some_times exact
