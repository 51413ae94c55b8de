-- ===== src/Dsa/Radix/Sorted.antt =====
-- sortDesc as a stable sort.
use derostorm.Base.{
  ℕ, zero, suc, ◌+◌, ◌*◌, ◌^◌, ◌<◌, ◌≡◌, refl, sym, ap, ◌∙◌, arith, List, [], ◌∷◌, lt→ltb, ◌==◌,
  length, take_all, get_or, replicate, All, All-append, inl, inr, Bool-cases,
}
use mathlib.Core.Path.{subst, fun_ext}
use derostorm.Base.Reverse.{get_or-ext}
use derostorm.Dsa.Words.{Desc, sort_key}
use derostorm.Dsa.Buckets.{bucket, buckets, count_loop, sums, scatter, counting_pass}
use derostorm.Dsa.Buckets.Counting.{
  length-buckets, length-count_loop, length-zeros, length-scatter, get_or-count_loop,
  get_or-replicate,
}
use derostorm.Dsa.Buckets.Order.{counting_pass-buckets}
use derostorm.Dsa.Buckets.Stable.{bucket-buckets, SortedBy, SortedBy-buckets}
use derostorm.Dsa.Radix.{
  rbins, low_digit, high_digit, radix_passes, sort_desc, bucket-buckets_swap, buckets-two_digits,
  whole,
}

module _ {A : Type 0} (key : A → ℕ) (P : A → Type 0) where
  All-kept : (v : ℕ) (xs : List A) → All P xs → All P (bucket key v xs)
  All-kept v [] a = tt
  All-kept v (x ∷ xs) (hx, a) = elim (Bool-cases (key x == v)) [
    | inl e ↦ rw e (hx, All-kept v xs a)
    | inr e ↦ rw e (All-kept v xs a)
  ]

  pub All-buckets_kept : (m : ℕ) (xs : List A) → All P xs → All P (buckets key m xs)
  All-buckets_kept zero xs a = tt
  All-buckets_kept (suc m) xs a =
      All-append P (buckets key m xs) (bucket key m xs) (All-buckets_kept m xs a) (All-kept m xs a)

-- Lists with as many elements of every key have one histogram.
count_loop-same :
    {A : Type 0} (key : A → ℕ) (bins : ℕ) (xs ys : List A)
    → All (λ x. key x < bins) xs
    → All (λ x. key x < bins) ys
    → length xs < 2 ^ 32
    → length ys < 2 ^ 32
    → ((v : ℕ) → length (bucket key v xs) ≡ length (bucket key v ys))
    → count_loop key xs (replicate bins 0) ≡ count_loop key ys (replicate bins 0)
count_loop-same key bins xs ys ax ay sx sy same =
    let zeros : List ℕ = replicate bins 0 in
    get_or-ext (count_loop key xs zeros) (count_loop key ys zeros) 0
      (length-count_loop key xs zeros ∙ sym (length-count_loop key ys zeros))
      (λ v _.
        get_or-count_loop key bins xs zeros v (length-zeros bins) ax
          (omega (arith, get_or-replicate bins v))
        ∙ ap (λ n. get_or zeros v 0 + n) (same v)
        ∙ sym (
            get_or-count_loop key bins ys zeros v (length-zeros bins) ay
              (omega (arith, get_or-replicate bins v))))

module _ {A : Type 0} (d : A) (low high : A → ℕ) (bins : ℕ) (a b : List A)
    (small : length a < 2 ^ 32) (room : length b ≡ length a) (al : All (λ x. low x < bins) a)
    (ah : All (λ x. high x < bins) a) where
  first_pass : scatter low a (sums (count_loop low a (replicate bins 0)) 0) b ≡ buckets low bins a
  unfolding counting_pass
  first_pass =
      let b' = scatter low a (sums (count_loop low a (replicate bins 0)) 0) b in
      let len : length b' ≡ length b =
        length-scatter low bins (length a) small d a (sums (count_loop low a (replicate bins 0)) 0)
          b in
      sym (take_all (length a) b' (omega arith))
      ∙ counting_pass-buckets low d bins a b al small (omega arith)

  second_pass : radix_passes low high bins a b ≡ buckets high bins (buckets low bins a)
  unfolding radix_passes counting_pass
  second_pass =
      let ys = buckets low bins a in
      let len : length ys ≡ length a = length-buckets low bins a al in
      let kept : All (λ x. high x < bins) ys =
        All-buckets_kept low (λ x. high x < bins) bins a ah in
      let counts : (v : ℕ) → length (bucket high v a) ≡ length (bucket high v ys) = λ v. sym (
        ap length (bucket-buckets_swap high low v bins a)
        ∙ length-buckets low bins (bucket high v a) (All-kept high (λ x. low x < bins) v a al)) in
      let hist = count_loop-same high bins a ys ah kept small (omega arith) counts in
      let c = scatter high ys (sums (count_loop high ys (replicate bins 0)) 0) a in
      let full : length c ≡ length a =
        length-scatter high bins (length a) small d ys
          (sums (count_loop high ys (replicate bins 0)) 0) a in
      ap (λ s. scatter high s (sums (count_loop high a (replicate bins 0)) 0) a) first_pass
      ∙ ap (λ h. scatter high ys (sums h 0) a) hist
      ∙ sym (take_all (length ys) c (omega arith))
      ∙ counting_pass-buckets high d bins ys a kept (omega arith) (omega arith)

  radix_passes-buckets :
      radix_passes low high bins a b ≡ buckets (whole high low bins) (bins * bins) a
  radix_passes-buckets = second_pass ∙ buckets-two_digits high low bins bins a al

  radix_passes_lem :
      (key : A → ℕ) (v : ℕ)
      → whole high low bins ≡ key
      → v < bins * bins
      → SortedBy key (radix_passes low high bins a b)
        × (bucket key v (radix_passes low high bins a b) ≡ bucket key v a)
        × (length (radix_passes low high bins a b) ≡ length a)
  radix_passes_lem key v same lt =
      let e : radix_passes low high bins a b ≡ buckets key (bins * bins) a =
        radix_passes-buckets ∙ ap (λ (k : A → ℕ). buckets k (bins * bins) a) same in
      let ys = buckets low bins a in
      let len : length (buckets high bins ys) ≡ length a =
        length-buckets high bins ys (All-buckets_kept low (λ x. high x < bins) bins a ah)
        ∙ length-buckets low bins a al in
      (
        subst (λ s. SortedBy key s) (sym e) (SortedBy-buckets key (bins * bins) a),
        ap (bucket key v) e
            ∙ bucket-buckets key v (bins * bins) a
            ∙ rw (lt→ltb v (bins * bins) lt) refl,
        ap length second_pass ∙ len,
      )

All-everywhere : {A : Type 0} (P : A → Type 0) (xs : List A) → ((x : A) → P x) → All P xs
All-everywhere P [] h = tt
All-everywhere P (x ∷ xs) h = (h x, All-everywhere P xs h)

digits-sort_key : whole high_digit low_digit rbins ≡ sort_key
unfolding sort_key
digits-sort_key = fun_ext (λ d. omega arith)

-- sortDesc is the order by buckets of the whole key.
pub sort_desc-buckets :
    (a b : List Desc)
    → length a < 2 ^ 32
    → length b ≡ length a
    → sort_desc a b ≡ buckets sort_key (rbins * rbins) a
unfolding sort_desc
sort_desc-buckets a b small room =
    radix_passes-buckets (record { key = 0; packed = 0 }) low_digit high_digit rbins a b small room
      (All-everywhere _ a (λ x. omega arith)) (All-everywhere _ a (λ x. omega arith))
    ∙ ap (λ (k : Desc → ℕ). buckets k (rbins * rbins) a) digits-sort_key

-- With a buffer as long as the list, and fewer than 2^32 descriptors, sortDesc returns as many
-- descriptors, ordered by the low 24 bits of their keys, and for every key v of 24 bits those with
-- the key v are the same as before, in the same order.
pub sort_desc-SortedBy :
    (a b : List Desc) (v : ℕ)
    → length a < 2 ^ 32
    → length b ≡ length a
    → v < 2 ^ 24
    → SortedBy sort_key (sort_desc a b)
      × (bucket sort_key v (sort_desc a b) ≡ bucket sort_key v a)
      × (length (sort_desc a b) ≡ length a)
unfolding sort_desc
sort_desc-SortedBy a b v small room lt =
    radix_passes_lem (record { key = 0; packed = 0 }) low_digit high_digit rbins a b small room
      (All-everywhere _ a (λ x. omega arith)) (All-everywhere _ a (λ x. omega arith)) sort_key v
      digits-sort_key lt
