-- ===== src/Dsa/Radix.antt =====
-- sortDesc of internal/dsa/dsa.go: a radix sort of the descriptors by their 24-bit keys in two
-- passes of 12 bits. Both histograms are taken before the first pass.
pub mod Sorted
use derostorm.Base.{
  ℕ, zero, suc, ◌+◌, ◌-◌, ◌*◌, ◌/◌, ◌%◌, ◌^◌, ◌≤◌, ◌<◌, ◌≡◌, refl, sym, ap, ◌∙◌, arith, Bool, true,
  false, List, [], ◌∷◌, ◌++◌, ltb, ltb→lt, ltb_false→le, ◌==◌, ==_iff, if◌then◌else◌, length,
  length-append, take, take_all, replicate, All, All-append, inl, inr, Bool-cases,
}
use mathlib.Core.List.{append_assoc, append-nil}
use derostorm.Base.Reverse.{get_or-ext}
use derostorm.Dsa.Words.{Desc, sort_key}
use derostorm.Dsa.Buckets.{bucket, buckets, count_loop, sums, scatter, counting_pass}
use derostorm.Dsa.Buckets.Counting.{
  length-buckets, length-count_loop, length-zeros, length-scatter, get_or-count_loop,
  get_or-replicate,
}
use derostorm.Dsa.Buckets.Order.{counting_pass-buckets}
use derostorm.Dsa.Buckets.Stable.{bucket-append, bucket-buckets, SortedBy, SortedBy-buckets}

abbrev pub rbits : ℕ
rbits = 12

abbrev pub rbins : ℕ
rbins = 4096

-- k & rmask and (k >> rbits) & rmask
abbrev pub low_digit : Desc → ℕ
low_digit d = d.key % rbins

abbrev pub high_digit : Desc → ℕ
high_digit d = d.key / 2 ^ rbits % rbins

-- The passes over two digits below `bins`, for the elements a and the buffer b.
module _ {A : Type 0} (low high : A → ℕ) (bins : ℕ) where
  unfoldable pub radix_passes : List A → List A → List A
  radix_passes a b =
      let hist0 = sums (count_loop low a (replicate bins 0)) 0 in
      let hist1 = sums (count_loop high a (replicate bins 0)) 0 in
      let b' = scatter low a hist0 b in scatter high b' hist1 a

unfoldable pub sort_desc : List Desc → List Desc → List Desc
sort_desc a b = radix_passes low_digit high_digit rbins a b

module _ {A : Type 0} (f g : A → ℕ) where
  bucket-swap : (v u : ℕ) (xs : List A) → bucket f v (bucket g u xs) ≡ bucket g u (bucket f v xs)
  bucket-swap v u [] = refl
  bucket-swap v u (x ∷ xs) = elim (Bool-cases (f x == v)) [
    | inl e ↦ elim (Bool-cases (g x == u)) [
      | inl h ↦ rw (e, h, e) (ap (◌∷◌ x) (bucket-swap v u xs))
      | inr h ↦ rw (e, h) (bucket-swap v u xs)
    ]
    | inr e ↦ elim (Bool-cases (g x == u)) [
      | inl h ↦ rw (e, h, e) (bucket-swap v u xs)
      | inr h ↦ rw (e, h) (bucket-swap v u xs)
    ]
  ]

  pub bucket-buckets_swap :
      (v m : ℕ) (xs : List A) → bucket f v (buckets g m xs) ≡ buckets g m (bucket f v xs)
  bucket-buckets_swap v zero xs = refl
  bucket-buckets_swap v (suc m) xs =
      bucket-append f v (buckets g m xs) (bucket g m xs)
      ∙ rw (bucket-buckets_swap v m xs, bucket-swap v m xs) refl

leading_digit : (x y p f g : ℕ) → x < y → f < p → x * p + f < y * p + g
leading_digit x y p f g lt h = grind arith

module _ {A : Type 0} (hi lo : A → ℕ) (p : ℕ) where
  abbrev pub whole : A → ℕ
  whole x = hi x * p + lo x

  whole_other :
      (x : A) (h l : ℕ) → l < p → lo x < p → (hi x == h) ≡ false → (whole x == h * p + l) ≡ false
  whole_other x h l hl hx e =
      ground (arith, leading_digit (hi x) h p (lo x) l, leading_digit h (hi x) p l (lo x))

  bucket-whole :
      (h l : ℕ) (xs : List A)
      → l < p
      → All (λ x. lo x < p) xs
      → bucket whole (h * p + l) xs ≡ bucket lo l (bucket hi h xs)
  bucket-whole h l [] hl a = refl
  bucket-whole h l (x ∷ xs) hl (hx, a) = elim (Bool-cases (hi x == h)) [
    | inl e ↦
        let same : hi x ≡ h = (==_iff (hi x) h).0 e in
        let shifted : (whole x == h * p + l) ≡ (lo x == l) = rw same (ground arith) in
        elim (Bool-cases (lo x == l)) [
          | inl f ↦ rw (e, shifted, f) (ap (◌∷◌ x) (bucket-whole h l xs hl a))
          | inr f ↦ rw (e, shifted, f) (bucket-whole h l xs hl a)
        ]
    | inr e ↦ rw (e, whole_other x h l hl hx e) (bucket-whole h l xs hl a)
  ]

  -- The buckets of one high digit are the buckets of the low digit in it.
  buckets-whole :
      (h l : ℕ) (xs : List A)
      → l ≤ p
      → All (λ x. lo x < p) xs
      → buckets whole (h * p + l) xs ≡ buckets whole (h * p) xs ++ buckets lo l (bucket hi h xs)
  buckets-whole h zero xs hl a = let e : h * p + 0 ≡ h * p = omega arith in rw (e, append-nil) refl
  buckets-whole h (suc l) xs hl a =
      let e : h * p + suc l ≡ suc (h * p + l) = omega arith in
      rw
        (e, buckets-whole h l xs (omega arith) a, bucket-whole h l xs (omega arith) a, append_assoc)
        refl

  pub buckets-two_digits :
      (m : ℕ) (xs : List A)
      → All (λ x. lo x < p) xs
      → buckets hi m (buckets lo p xs) ≡ buckets whole (m * p) xs
  buckets-two_digits zero xs a = let e : 0 * p ≡ 0 = omega arith in rw e refl
  buckets-two_digits (suc m) xs a =
      let e : suc m * p ≡ m * p + p = grind arith in
      rw
        (
          e,
          buckets-whole m p xs (omega arith) a,
          buckets-two_digits m xs a,
          bucket-buckets_swap hi lo m p xs,
        )
        refl
