-- ===== src/Loadgen/Joined.antt =====
-- scheduler/cmd/loadgen/main.go: a query that is joined of parameters, and what it is read as.
use edge_sched.Prelude.{
  ℕ, ◌==◌, ◌≡◌, refl, ap, ◌∙◌, false, List, [], ◌∷◌, ◌++◌, append-nil, All, All-append, map, none,
}
use edge_sched.Prelude.Bytes.{Bytes}
use edge_sched.Prelude.Split.{split, split_two, split-last, split-append, split_two-append}
use edge_sched.Api.Params.{raw_query, parse_pair, query_get, first_value}
use edge_sched.Api.Escape.{is_safe, safe-apart, param, IsSafeParam, value_of, first_value-params}
use edge_sched.Loadgen.Url.{join, query_of}

param-apart :
    (sep : ℕ) (p : Bytes × Bytes)
    → is_safe sep ≡ false
    → (b'=' == sep) ≡ false
    → IsSafeParam p
    → All (λ c. (c == sep) ≡ false) (param p)
param-apart sep (k, v) h e (a, b) =
    All-append (λ c. (c == sep) ≡ false) k (b'=' ∷ v) (safe-apart sep h k a)
      (e, safe-apart sep h v b)

join-apart :
    (sep : ℕ) (ps : List (Bytes × Bytes))
    → is_safe sep ≡ false
    → (b'=' == sep) ≡ false
    → (b'&' == sep) ≡ false
    → All IsSafeParam ps
    → All (λ c. (c == sep) ≡ false) (join (map param ps))
unfolding join
join-apart sep [] h e f g = tt
join-apart sep (p ∷ []) h e f (g, _) = param-apart sep p h e g
join-apart sep (p ∷ q ∷ ps) h e f (g, gs) =
    All-append (λ c. (c == sep) ≡ false) (param p) (b'&' ∷ join (map param (q ∷ ps)))
      (param-apart sep p h e g) (f, join-apart sep (q ∷ ps) h e f gs)

split-join :
    (p : Bytes × Bytes) (ps : List (Bytes × Bytes))
    → All IsSafeParam (p ∷ ps)
    → split b'&' (join (map param (p ∷ ps))) ≡ map param (p ∷ ps)
unfolding join
split-join p [] (g, _) = split-last b'&' (param p) (param-apart b'&' p refl refl g)
split-join p (q ∷ ps) (g, gs) =
    split-append b'&' (param p) (join (map param (q ∷ ps))) (param-apart b'&' p refl refl g) refl
    ∙ ap (◌∷◌ (param p)) (split-join q ps gs)

split_two-none : (sep : ℕ) (s : Bytes) → All (λ c. (c == sep) ≡ false) s → split_two sep s ≡ none
unfolding split_two
split_two-none sep [] h = refl
split_two-none sep (c ∷ s) (n, h) = rw (n, split_two-none sep s h) refl

empty_query : (key : Bytes) → first_value key (split b'&' []) ≡ []
unfolding split first_value parse_pair
empty_query key = refl

-- Reading a query that was joined gives the value of a key.
pub query_get-url :
    (key base : Bytes) (ps : List (Bytes × Bytes))
    → All (λ c. (c == b'?') ≡ false) base
    → All (λ c. (c == b'#') ≡ false) base
    → All IsSafeParam ps
    → query_get key (raw_query (base ++ query_of (map param ps))) ≡ value_of key ps
unfolding query_get raw_query
query_get-url key base [] q f g =
    rw (append-nil base, split_two-none b'#' base f, split_two-none b'?' base q) (empty_query key)
query_get-url key base (p ∷ ps) q f g =
    let j = join (map param (p ∷ ps)) in
    let whole =
      All-append (λ c. (c == b'#') ≡ false) base (b'?' ∷ j) f
        (refl, join-apart b'#' (p ∷ ps) refl refl refl g) in
    rw
      (
        split_two-none b'#' (base ++ b'?' ∷ j) whole,
        split_two-append b'?' base j q refl,
        split-join p ps g,
      )
      (first_value-params key (p ∷ ps) g)
