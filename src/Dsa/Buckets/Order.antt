-- ===== src/Dsa/Buckets/Order.antt =====
-- A counting pass, next to the order of the buckets.
use derostorm.Base.{
  ℕ, zero, suc, ◌+◌, ◌-◌, ◌^◌, ◌≤◌, ◌<◌, ◌≡◌, refl, ap, ◌∙◌, arith, List, [], ◌∷◌, ltb, ltb→lt,
  ltb_false→le, length, length-append, length-take, get_or, take, replicate, All, inl, inr,
  Bool-cases,
}
use derostorm.Base.Reverse.{get_or-ext, get_or-append}
use derostorm.Dsa.Buckets.{bucket, buckets, count_loop, sums, scatter, counting_pass}
use derostorm.Dsa.Buckets.Counting.{
  length-buckets_le, length-buckets, length-sums, length-count_loop, length-zeros, get_or-sums,
  length-scatter, scatter_lem, Ready,
}

get_or-take :
    {A : Type 0} (n : ℕ) (xs : List A) (i : ℕ) (d : A)
    → i < n
    → get_or (take n xs) i d ≡ get_or xs i d
get_or-take zero xs i d h = absurd (omega arith)
get_or-take (suc n) [] i d h = refl
get_or-take (suc n) (x ∷ xs) zero d h = refl
get_or-take (suc n) (x ∷ xs) (suc i) d h = get_or-take n xs i d (omega arith)

module _ {A : Type 0} (key : A → ℕ) (d : A) where
  buckets_mono :
      (u v : ℕ) (xs : List A)
      → u < v
      → length (buckets key u xs) + length (bucket key u xs) ≤ length (buckets key v xs)
  buckets_mono u zero xs h = absurd (omega arith)
  buckets_mono u (suc v) xs h = elim (Bool-cases (ltb u v)) [
    | inl lt ↦ omega (
      arith,
      buckets_mono u v xs (ltb→lt u v lt),
      length-append (buckets key v xs) (bucket key v xs),
    )
    | inr ge ↦
        let same : u ≡ v = omega (arith, ltb_false→le u v ge) in
        rw same (omega (arith, length-append (buckets key v xs) (bucket key v xs)))
  ]

  module _ (bins : ℕ) (xs out : List A) (below : All (λ x. key x < bins) xs)
      (small : length xs < 2 ^ 32) (long : length xs ≤ length out) where
    slots : List ℕ
    slots = sums (count_loop key xs (replicate bins 0)) 0

    slot_of : (v : ℕ) → v < bins → get_or slots v 0 ≡ length (buckets key v xs)
    unfolding slots
    slot_of v h = get_or-sums key bins xs v below small h

    slots-Ready : Ready key bins xs slots (length xs)
    slots-Ready = record {
      bins_left =
          unfold slots in
          length-sums (count_loop key xs (replicate bins 0)) 0
          ∙ length-count_loop key xs (replicate bins 0)
          ∙ length-zeros bins;
      apart =
          λ u v lt h. omega (arith, slot_of u (omega arith), slot_of v h, buckets_mono u v xs lt);
      fits = λ v h. omega (
        arith,
        slot_of v h,
        length-append (buckets key v xs) (bucket key v xs),
        length-buckets_le key (suc v) xs,
      );
    }

    in_place :
        (m p : ℕ)
        → m ≤ bins
        → p < length (buckets key m xs)
        → get_or (scatter key xs slots out) p d ≡ get_or (buckets key m xs) p d
    in_place zero p h lt = absurd (omega arith)
    in_place (suc m) p h lt = elim (Bool-cases (ltb p (length (buckets key m xs)))) [
      | inl low ↦
          rw (get_or-append (buckets key m xs) (bucket key m xs) p d, low)
            (in_place m p (omega arith) (ltb→lt p (length (buckets key m xs)) low))
      | inr high ↦
          let behind = ltb_false→le p (length (buckets key m xs)) high in
          let j : ℕ = p - length (buckets key m xs) in
          let at_j : p ≡ get_or slots m 0 + j = omega (arith, slot_of m (omega arith)) in
          rw (get_or-append (buckets key m xs) (bucket key m xs) p d, high)
            (ap (λ q. get_or (scatter key xs slots out) q d) at_j
              ∙ scatter_lem key bins (length xs) small d xs slots out m j slots-Ready below long
                  (omega arith) (omega (arith, length-append (buckets key m xs) (bucket key m xs))))
    ]

    pub counting_pass-buckets :
        take (length xs) (counting_pass key bins xs out) ≡ buckets key bins xs
    unfolding counting_pass slots
    counting_pass-buckets =
        let all = length-buckets key bins xs below in
        let len : length (take (length xs) (scatter key xs slots out))
            ≡ length (buckets key bins xs) =
          omega (
            arith,
            length-take (length xs) (scatter key xs slots out),
            length-scatter key bins (length xs) small d xs slots out,
            all,
          ) in
        get_or-ext _ _ d len (λ j lt.
          get_or-take (length xs) (scatter key xs slots out) j d (omega arith)
          ∙ in_place bins j (omega arith) (omega arith))
