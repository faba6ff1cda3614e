-- ===== src/Routing/Windows.antt =====
-- Counting the numbers of a window by their remainder.
use native.Mathlib.Nat.{mod-eq_of_lt, add-mod_right}
use edge_sched.Prelude.{
  ℕ, zero, suc, ◌+◌, ◌*◌, ◌%◌, ◌≤◌, ◌<◌, ◌≡◌, sym, subst, ◌∙◌, ◌==◌, leb, ltb, ◌&&◌, if◌then◌else◌,
  arith,
}

abbrev pub hit : ℕ → ℕ → ℕ → ℕ
hit k j c = if c % k == j then 1 else 0

-- How many of the `n` numbers from `c` on leave the remainder `j` by `k`.
unfoldable pub hits : ℕ → ℕ → ℕ → ℕ → ℕ
hits k j c zero = 0
hits k j c (suc n) = hit k j c + hits k j (suc c) n

hits-add : (k j c m n : ℕ) → hits k j c (m + n) ≡ hits k j c m + hits k j (c + m) n
unfolding hits
hits-add k j c zero n = ground (arith)
hits-add k j c (suc m) n =
    let e : suc m + n ≡ suc (m + n) = omega arith in
    let f : c + suc m ≡ suc c + m = omega arith in
    rw (e, f) (omega (arith, hits-add k j (suc c) m n))

hits-suc : (k j c n : ℕ) → hits k j c (suc n) ≡ hits k j c n + hit k j (c + n)
unfolding hits
hits-suc k j c n =
    let e : suc n ≡ n + 1 = omega arith in
    subst (λ m. hits k j c m ≡ hits k j c n + hit k j (c + n)) (sym e)
      (omega (arith, hits-add k j c n 1))

hits_shift : (k j c n : ℕ) → hit k j c + hits k j (suc c) n ≡ hits k j c n + hit k j (c + n)
unfolding hits
hits_shift k j c n = hits-suc k j c n

-- Below `k` the remainder is the number itself.
hits_below : (k j c n : ℕ) → c + n ≤ k → hits k j c n ≡ (if leb c j && ltb j (c + n) then 1 else 0)
unfolding hits
hits_below k j c zero h = ground arith
hits_below k j c (suc n) h =
    let e : c % k ≡ c = mod-eq_of_lt (omega arith) in
    rw e (ground (arith, hits_below k j (suc c) n (omega arith)))

-- A window of `k` numbers has each remainder once.
hits_window : (k j c : ℕ) → j < k → hits k j c k ≡ 1
hits_window k j zero h = hits_below k j 0 k (omega arith) ∙ ground arith
hits_window k j (suc c) h =
    let shift : hit k j (c + k) ≡ hit k j c = rw (add-mod_right c k) in
    omega (arith, hits_window k j c h, hits_shift k j c k, shift)

pub hits_windows : (k j c n : ℕ) → j < k → hits k j c (n * k) ≡ n
unfolding hits
hits_windows k j c zero h = ground arith
hits_windows k j c (suc n) h =
    let e : suc n * k ≡ k + n * k = grind arith in
    rw e
      (omega (arith, hits-add k j c k (n * k), hits_window k j c h, hits_windows k j (c + k) n h))
