-- ===== src/Dsa/Buckets/Stable.antt =====
-- The order by buckets as a stable sort, and two passes over the digits of a key.
use derostorm.Base.{
  ℕ, zero, suc, ◌≤◌, ◌<◌, ◌≡◌, refl, ap, ◌∙◌, arith, true, false, List, [], ◌∷◌, ◌++◌, ltb, ◌==◌,
  ==_iff, if◌then◌else◌, All, All-append, inl, inr, Bool-cases,
}
use mathlib.Core.List.{append-nil}
use derostorm.Dsa.Buckets.{bucket, buckets}

module _ {A : Type 0} (key : A → ℕ) where
  -- The keys ascend.
  abbrev pub SortedBy : List A → Type 0
  SortedBy [] = Unit
  SortedBy (x ∷ xs) = All (λ y. key x ≤ key y) xs × SortedBy xs

  pub bucket-append :
      (v : ℕ) (xs ys : List A) → bucket key v (xs ++ ys) ≡ bucket key v xs ++ bucket key v ys
  bucket-append v [] ys = refl
  bucket-append v (x ∷ xs) ys = elim (Bool-cases (key x == v)) [
    | inl e ↦ rw e (ap (◌∷◌ x) (bucket-append v xs ys))
    | inr e ↦ rw e (bucket-append v xs ys)
  ]

  bucket-bucket :
      (v u : ℕ) (xs : List A)
      → bucket key v (bucket key u xs) ≡ (if u == v then bucket key v xs else [])
  bucket-bucket v u [] = elim (Bool-cases (u == v)) [ inl e ↦ rw e refl | inr e ↦ rw e refl ]
  bucket-bucket v u (x ∷ xs) = elim (Bool-cases (key x == u)) [
    | inl e ↦
        let same : key x ≡ u = (==_iff (key x) u).0 e in
        elim (Bool-cases (u == v)) [
          | inl f ↦
              let both : (key x == v) ≡ true = ground arith in
              rw (e, both, f) (ap (◌∷◌ x) (bucket-bucket v u xs ∙ rw f refl))
          | inr f ↦
              let not_both : (key x == v) ≡ false = ground arith in
              rw (e, not_both, f) (bucket-bucket v u xs ∙ rw f refl)
        ]
    | inr e ↦ elim (Bool-cases (u == v)) [
      | inl f ↦
          let not_both : (key x == v) ≡ false = ground arith in
          rw (e, f, not_both) (bucket-bucket v u xs ∙ rw f refl)
      | inr f ↦ rw (e, f) (bucket-bucket v u xs ∙ rw f refl)
    ]
  ]

  -- The elements with one key keep their order.
  pub bucket-buckets :
      (v m : ℕ) (xs : List A)
      → bucket key v (buckets key m xs) ≡ (if ltb v m then bucket key v xs else [])
  bucket-buckets v zero xs = ground arith
  bucket-buckets v (suc m) xs =
      bucket-append v (buckets key m xs) (bucket key m xs)
      ∙ rw (bucket-buckets v m xs, bucket-bucket v m xs)
          (elim (Bool-cases (ltb v m)) [
            | inl lt ↦
                let ne : (m == v) ≡ false = ground arith in
                let lt' : ltb v (suc m) ≡ true = ground arith in rw (lt, ne, lt', append-nil) refl
            | inr ge ↦ elim (Bool-cases (m == v)) [
              | inl e ↦ let lt' : ltb v (suc m) ≡ true = ground arith in rw (ge, e, lt') refl
              | inr e ↦ let ge' : ltb v (suc m) ≡ false = ground arith in rw (ge, e, ge') refl
            ]
          ])

  pub All-bucket : (v : ℕ) (xs : List A) → All (λ x. key x ≡ v) (bucket key v xs)
  All-bucket v [] = tt
  All-bucket v (x ∷ xs) = elim (Bool-cases (key x == v)) [
    | inl e ↦ rw e ((==_iff (key x) v).0 e, All-bucket v xs)
    | inr e ↦ rw e (All-bucket v xs)
  ]

  All-weaken : (m n : ℕ) (xs : List A) → m ≤ n → All (λ x. key x < m) xs → All (λ x. key x < n) xs
  All-weaken m n [] h a = tt
  All-weaken m n (x ∷ xs) h (hx, a) = (omega arith, All-weaken m n xs h a)

  All-equal_lt : (m : ℕ) (xs : List A) → All (λ x. key x ≡ m) xs → All (λ x. key x < suc m) xs
  All-equal_lt m [] a = tt
  All-equal_lt m (x ∷ xs) (hx, a) = (omega arith, All-equal_lt m xs a)

  pub All-buckets : (m : ℕ) (xs : List A) → All (λ x. key x < m) (buckets key m xs)
  All-buckets zero xs = tt
  All-buckets (suc m) xs =
      All-append _ (buckets key m xs) (bucket key m xs)
        (All-weaken m (suc m) (buckets key m xs) (omega arith) (All-buckets m xs))
        (All-equal_lt m (bucket key m xs) (All-bucket m xs))

  All-equal_le : (k m : ℕ) (xs : List A) → k ≤ m → All (λ x. key x ≡ m) xs → All (λ x. k ≤ key x) xs
  All-equal_le k m [] h a = tt
  All-equal_le k m (x ∷ xs) h (hx, a) = (omega arith, All-equal_le k m xs h a)

  SortedBy-equal : (m : ℕ) (xs : List A) → All (λ x. key x ≡ m) xs → SortedBy xs
  SortedBy-equal m [] a = tt
  SortedBy-equal m (x ∷ xs) (hx, a) =
      (All-equal_le (key x) m xs (omega arith) a, SortedBy-equal m xs a)

  SortedBy-append :
      (m : ℕ) (xs ys : List A)
      → SortedBy xs
      → All (λ x. key x < m) xs
      → All (λ x. key x ≡ m) ys
      → SortedBy (xs ++ ys)
  SortedBy-append m [] ys s low top = SortedBy-equal m ys top
  SortedBy-append m (x ∷ xs) ys (le, s) (hx, low) top = (
    All-append _ xs ys le (All-equal_le (key x) m ys (omega arith) top),
    SortedBy-append m xs ys s low top,
  )

  pub SortedBy-buckets : (m : ℕ) (xs : List A) → SortedBy (buckets key m xs)
  SortedBy-buckets zero xs = tt
  SortedBy-buckets (suc m) xs =
      SortedBy-append m (buckets key m xs) (bucket key m xs) (SortedBy-buckets m xs)
        (All-buckets m xs) (All-bucket m xs)
