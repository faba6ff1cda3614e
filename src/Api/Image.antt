-- ===== src/Api/Image.antt =====
-- The image that a prediction submits.
use edge_sched.Prelude.{
  ℕ, zero, suc, ◌≤◌, ◌<◌, ◌≡◌, refl, sym, ap, subst, ◌∙◌, ltb, true, Bool-cases, [], ◌∷◌, Option,
  none, some, some_inj, inl, inr, length, length-take, take, arith,
}
use edge_sched.Prelude.Bytes.{Bytes}
use edge_sched.Prelude.Floats.{Floats}
use edge_sched.Api.Predict.{
  max_image_bytes, Reader, read_all, Routed, Outcome, Phase, stop, go, image_of, read_body,
}

below_of_ltb : (a b : ℕ) → ltb a b ≡ true → a ≤ b
below_of_ltb a b h = ground arith

take-length-le : (n : ℕ) (s : Bytes) → length (take n s) ≤ n
take-length-le n s = omega (arith, length-take n s)

take-short : (n : ℕ) (s : Bytes) → length s ≤ n → take n s ≡ s
take-short zero [] h = refl
take-short zero (c ∷ s) h = absurd (omega arith)
take-short (suc n) [] h = refl
take-short (suc n) (c ∷ s) h = ap (◌∷◌ c) (take-short n s (omega arith))

read_all-take :
    (r : Reader) (image : Bytes) → read_all r ≡ some image → take max_image_bytes r.content ≡ image
unfolding read_all
read_all-take r image h = elim (Bool-cases (ltb (length r.content) max_image_bytes)) [
  | inl short ↦ elim (Bool-cases r.fails) [
    | inl fails ↦ absurd (none_not_some (rw (short, fails) at h))
    | inr whole ↦
        take-short max_image_bytes r.content (below_of_ltb _ _ short)
        ∙ some_inj (rw (short, whole) at h)
  ]
  | inr long ↦ some_inj (rw long at h)
]
  where
    none_not_some : {a : Bytes} → none ≡ some a → ⊥
    none_not_some e = cc

module _ (fl : Floats) where
  stop_not_go : {o : Outcome fl} {a : Bytes} → ◌≡◌ {A = Phase fl Bytes} (stop o) (go a) → ⊥
  stop_not_go e = cc

  go-injective : {a b : Bytes} → ◌≡◌ {A = Phase fl Bytes} (go a) (go b) → a ≡ b
  go-injective e = cc

  image_of-go :
      (r : Routed) (o : Option Bytes) (image : Bytes)
      → image_of fl r o ≡ go image
      → (o ≡ some image) × (0 < length image)
  unfolding image_of
  image_of-go r none image h = absurd (stop_not_go h)
  image_of-go r (some []) image h = absurd (stop_not_go h)
  image_of-go r (some (b ∷ rest)) image h =
      let e : b ∷ rest ≡ image = go-injective h in
      (ap some e, subst (λ s. 0 < length s) e (omega arith))

  -- The body of a request is accepted. Then the image is its first 20 MiB, or all of it if it is
  -- shorter, and is not empty.
  pub read_body-image :
      (r : Routed) (body : Reader) (image : Bytes)
      → read_body fl r body ≡ go image
      → (image ≡ take max_image_bytes body.content)
        × (0 < length image)
        × (length image ≤ max_image_bytes)
  unfolding read_body
  read_body-image r body image h =
      let (e, n) = image_of-go r (read_all body) image h in
      let t : take max_image_bytes body.content ≡ image = read_all-take body image e in
      (
        sym t,
        n,
        subst (λ s. length s ≤ max_image_bytes) t (take-length-le max_image_bytes body.content),
      )
