-- ===== src/Dsa/Buckets/Kept.antt =====
-- Sums over the elements, and an order that the keys refine, under the order by buckets.
use derostorm.Base.{
  ℕ, zero, suc, ◌+◌, ◌<◌, ◌≡◌, refl, sym, ◌∙◌, arith, List, [], ◌∷◌, ◌++◌, ltb, ◌==◌, ==_iff,
  if◌then◌else◌, All, All-map, Chain, Chain-append, inl, inr, Bool-cases,
}
use derostorm.Dsa.Buckets.{bucket, buckets}
use derostorm.Dsa.Buckets.Stable.{All-bucket, All-buckets}

module _ {A : Type 0} (f : A → ℕ) where
  abbrev pub total : List A → ℕ
  total [] = 0
  total (x ∷ xs) = f x + total xs

  total-append : (xs ys : List A) → total (xs ++ ys) ≡ total xs + total ys
  total-append [] ys = omega arith
  total-append (x ∷ xs) ys = omega (arith, total-append xs ys)

  -- The sum over the elements with keys below m.
  total_below : (A → ℕ) → ℕ → List A → ℕ
  total_below key m [] = 0
  total_below key m (x ∷ xs) = (if ltb (key x) m then f x else 0) + total_below key m xs

  total_below-zero : (key : A → ℕ) (xs : List A) → total_below key 0 xs ≡ 0
  unfolding total_below
  total_below-zero key [] = refl
  total_below-zero key (x ∷ xs) = ground (arith, total_below-zero key xs)

  total_below-suc :
      (key : A → ℕ) (m : ℕ) (xs : List A)
      → total_below key (suc m) xs ≡ total_below key m xs + total (bucket key m xs)
  unfolding total_below
  total_below-suc key m [] = refl
  total_below-suc key m (x ∷ xs) = elim (Bool-cases (key x == m)) [
    | inl e ↦ rw e (ground (arith, total_below-suc key m xs))
    | inr e ↦ rw e (ground (arith, total_below-suc key m xs))
  ]

  total-buckets_below :
      (key : A → ℕ) (m : ℕ) (xs : List A) → total (buckets key m xs) ≡ total_below key m xs
  total-buckets_below key zero xs = sym (total_below-zero key xs)
  total-buckets_below key (suc m) xs = omega (
    arith,
    total-append (buckets key m xs) (bucket key m xs),
    total-buckets_below key m xs,
    total_below-suc key m xs,
  )

  total_below-everywhere :
      (key : A → ℕ) (m : ℕ) (xs : List A)
      → All (λ x. key x < m) xs
      → total_below key m xs ≡ total xs
  unfolding total_below
  total_below-everywhere key m [] a = refl
  total_below-everywhere key m (x ∷ xs) (h, a) =
      ground (arith, total_below-everywhere key m xs a, h)

  pub total-buckets :
      (key : A → ℕ) (m : ℕ) (xs : List A)
      → All (λ x. key x < m) xs
      → total (buckets key m xs) ≡ total xs
  total-buckets key m xs a = total-buckets_below key m xs ∙ total_below-everywhere key m xs a

-- An order R that holds from smaller to larger keys, and between equal keys where R0 does.
module _ {A : Type 0} (key : A → ℕ) (R0 R : A → A → Type 0)
    (smaller : (x y : A) → key x < key y → R x y)
    (equal : (x y : A) → key x ≡ key y → R0 x y → R x y) where
  bucket-All :
      (v : ℕ) (x : A) (xs : List A) → key x ≡ v → All (R0 x) xs → All (R x) (bucket key v xs)
  bucket-All v x [] e a = tt
  bucket-All v x (y ∷ xs) e (h, a) = elim (Bool-cases (key y == v)) [
    | inl same ↦ rw same (equal x y (ground arith) h, bucket-All v x xs e a)
    | inr other ↦ rw other (bucket-All v x xs e a)
  ]

  bucket-Chain : (v : ℕ) (xs : List A) → Chain R0 xs → Chain R (bucket key v xs)
  bucket-Chain v [] c = tt
  bucket-Chain v (x ∷ xs) (h, c) = elim (Bool-cases (key x == v)) [
    | inl same ↦ rw same (bucket-All v x xs ((==_iff (key x) v).0 same) h, bucket-Chain v xs c)
    | inr other ↦ rw other (bucket-Chain v xs c)
  ]

  pub buckets-Chain : (m : ℕ) (xs : List A) → Chain R0 xs → Chain R (buckets key m xs)
  buckets-Chain zero xs c = tt
  buckets-Chain (suc m) xs c =
      Chain-append R (buckets key m xs) (bucket key m xs) (buckets-Chain m xs c)
        (bucket-Chain m xs c)
        (All-map (λ x. key x < m) (λ x. All (R x) (bucket key m xs)) (buckets key m xs)
          (λ x lt.
            All-map (λ y. key y ≡ m) (R x) (bucket key m xs) (λ y e. smaller x y (omega arith))
              (All-bucket key m xs))
          (All-buckets key m xs))
