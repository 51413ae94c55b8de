-- ===== src/Dsa/Buckets/Counting.antt =====
-- Where a counting pass moves each element.
use derostorm.Base.{
  ℕ, zero, suc, ◌+◌, ◌%◌, ◌^◌, ◌≤◌, ◌<◌, ◌≡◌, ◌⊎◌, refl, sym, ap, ◌∙◌, arith, List, [], ◌∷◌, ltb,
  ◌==◌, ==_iff, if◌then◌else◌, length, length-append, length-set, length-replicate, get_or, set,
  replicate, All, inl, inr, Bool-cases,
}
use native.Mathlib.Nat.{add-zero}
use derostorm.Base.Reverse.{get_or-set}
use derostorm.Dsa.Buckets.{bucket, buckets, count_loop, sums, scatter}

pub get_or-replicate : (n i : ℕ) → ◌≡◌ {A = ℕ} (get_or (replicate n 0) i 0) 0
get_or-replicate zero i = refl
get_or-replicate (suc n) zero = refl
get_or-replicate (suc n) (suc i) = get_or-replicate n i

pub length-zeros : (n : ℕ) → length (replicate {A = ℕ} n 0) ≡ n
length-zeros n = length-replicate n 0

pub length-sums : (cnt : List ℕ) (s : ℕ) → length (sums cnt s) ≡ length cnt
unfolding sums
length-sums [] s = refl
length-sums (c ∷ cnt) s = ap suc (length-sums cnt ((s + c) % 2 ^ 32))

sums-first : (cnt : List ℕ) (s : ℕ) → 0 < length cnt → get_or (sums cnt s) 0 0 ≡ s
unfolding sums
sums-first [] s h = absurd (omega arith)
sums-first (c ∷ cnt) s h = refl

sums-next :
    (cnt : List ℕ) (s v : ℕ)
    → suc v < length cnt
    → get_or (sums cnt s) (suc v) 0 ≡ (get_or (sums cnt s) v 0 + get_or cnt v 0) % 2 ^ 32
unfolding sums
sums-next [] s v h = absurd (omega arith)
sums-next (c ∷ cnt) s zero h = sums-first cnt ((s + c) % 2 ^ 32) (omega arith)
sums-next (c ∷ cnt) s (suc v) h = sums-next cnt ((s + c) % 2 ^ 32) v (omega arith)

module _ {ℓ} {A : Type ℓ} (key : A → ℕ) where
  pub length-buckets_cons :
      (m : ℕ) (x : A) (xs : List A)
      → length (buckets key m (x ∷ xs))
        ≡ length (buckets key m xs) + (if ltb (key x) m then 1 else 0)
  length-buckets_cons zero x xs = ground arith
  length-buckets_cons (suc m) x xs = ground (
    arith,
    length-buckets_cons m x xs,
    length-append (buckets key m (x ∷ xs)) (bucket key m (x ∷ xs)),
    length-append (buckets key m xs) (bucket key m xs),
  )

  pub length-buckets_le : (m : ℕ) (xs : List A) → length (buckets key m xs) ≤ length xs
  length-buckets_le zero [] = omega arith
  length-buckets_le (suc m) [] =
      omega (arith, length-append (buckets key m []) [], length-buckets_le m [])
  length-buckets_le m (x ∷ xs) = ground (arith, length-buckets_cons m x xs, length-buckets_le m xs)

  pub length-buckets :
      (m : ℕ) (xs : List A) → All (λ x. key x < m) xs → length (buckets key m xs) ≡ length xs
  length-buckets m [] h = omega (arith, length-buckets_le m [])
  length-buckets m (x ∷ xs) (hx, h) =
      ground (arith, length-buckets_cons m x xs, length-buckets m xs h)

  pub length-count_loop : (xs : List A) (cnt : List ℕ) → length (count_loop key xs cnt) ≡ length cnt
  unfolding count_loop
  length-count_loop [] cnt = refl
  length-count_loop (x ∷ xs) cnt =
      length-count_loop xs (set cnt (key x) ((get_or cnt (key x) 0 + 1) % 2 ^ 32))
      ∙ length-set cnt (key x) _

  pub length-bucket_cons :
      (v : ℕ) (x : A) (xs : List A)
      → length (bucket key v (x ∷ xs)) ≡ (if key x == v then 1 else 0) + length (bucket key v xs)
  length-bucket_cons v x xs = elim (Bool-cases (key x == v)) [
    | inl e ↦ rw e (omega arith)
    | inr e ↦ rw e (omega arith)
  ]

  pub get_or-count_loop :
      (bins : ℕ) (xs : List A) (cnt : List ℕ) (v : ℕ)
      → length cnt ≡ bins
      → All (λ x. key x < bins) xs
      → get_or cnt v 0 + length xs < 2 ^ 32
      → get_or (count_loop key xs cnt) v 0 ≡ get_or cnt v 0 + length (bucket key v xs)
  unfolding count_loop
  get_or-count_loop bins [] cnt v e a small = omega arith
  get_or-count_loop bins (x ∷ xs) cnt v e (hx, a) small =
      let c = (get_or cnt (key x) 0 + 1) % 2 ^ 32 in
      let cnt' = set cnt (key x) c in
      ground (
        arith,
        get_or-count_loop bins xs cnt' v,
        length-set cnt (key x) c,
        get_or-set cnt (key x) v c 0,
        length-bucket_cons v x xs,
        hx,
        a,
      )

  -- The slot from which the elements with the key v are laid down.
  pub get_or-sums :
      (bins : ℕ) (xs : List A) (v : ℕ)
      → All (λ x. key x < bins) xs
      → length xs < 2 ^ 32
      → v < bins
      → get_or (sums (count_loop key xs (replicate bins 0)) 0) v 0 ≡ length (buckets key v xs)
  get_or-sums bins xs zero a small h =
      sums-first (count_loop key xs (replicate bins 0)) 0
        (omega (arith, length-count_loop xs (replicate bins 0), length-zeros bins))
  get_or-sums bins xs (suc v) a small h =
      let zeros : List ℕ = replicate bins 0 in
      omega (
        arith,
        sums-next (count_loop key xs zeros) 0 v
            (omega (arith, length-count_loop xs zeros, length-zeros bins)),
        get_or-sums bins xs v a small (omega arith),
        get_or-count_loop bins xs zeros v (length-zeros bins) a
            (omega (arith, get_or-replicate bins v)),
        get_or-replicate bins v,
        length-append (buckets key v xs) (bucket key v xs),
        length-buckets_le (suc v) xs,
      )

  -- The slots that are still to be filled: the elements with one key follow each other from the
  -- key's count on, before those of the next key.
  pub record Ready (bins : ℕ) (xs : List A) (cnt : List ℕ) (room : ℕ) : Type 0 where
    pub bins_left : length cnt ≡ bins
    pub apart :
        (u v : ℕ) → u < v → v < bins → get_or cnt u 0 + length (bucket key u xs) ≤ get_or cnt v 0
    pub fits : (v : ℕ) → v < bins → get_or cnt v 0 + length (bucket key v xs) ≤ room

  Ready-next :
      (bins : ℕ) (x : A) (xs : List A) (cnt : List ℕ) (room : ℕ)
      → key x < bins
      → room < 2 ^ 32
      → Ready bins (x ∷ xs) cnt room
      → Ready bins xs (set cnt (key x) ((get_or cnt (key x) 0 + 1) % 2 ^ 32)) room
  Ready-next bins x xs cnt room hx small r =
      let k = key x in
      let c = (get_or cnt k 0 + 1) % 2 ^ 32 in
      let at_k = r.fits k hx in
      let kept : (v : ℕ) → get_or (set cnt k c) v 0 ≡ (if k == v then c else get_or cnt v 0) =
        λ v. get_or-set cnt k v c 0 (omega (arith, r.bins_left)) in
      record {
        bins_left = length-set cnt k c ∙ r.bins_left;
        apart = λ u v lt h. ground (
          arith,
          r.apart u v lt h,
          kept u,
          kept v,
          at_k,
          length-bucket_cons u x xs,
          length-bucket_cons k x xs,
        );
        fits = λ v h.
            ground (
              arith,
              r.fits v h,
              kept v,
              at_k,
              length-bucket_cons v x xs,
              length-bucket_cons k x xs,
            );
      }

  module _ (bins room : ℕ) (small : room < 2 ^ 32) (d : A) where
    pub length-scatter :
        (xs : List A) (cnt : List ℕ) (out : List A) → length (scatter key xs cnt out) ≡ length out
    unfolding scatter
    length-scatter [] cnt out = refl
    length-scatter (x ∷ xs) cnt out =
        length-scatter xs _ (set out (get_or cnt (key x) 0) x)
        ∙ length-set out (get_or cnt (key x) 0) x

    -- A place outside the slots that are left keeps what it holds.
    scatter_outside :
        (xs : List A) (cnt : List ℕ) (out : List A) (p : ℕ)
        → Ready bins xs cnt room
        → All (λ x. key x < bins) xs
        → room ≤ length out
        → ((v : ℕ)
            → v < bins
            → (p < get_or cnt v 0) ⊎ (get_or cnt v 0 + length (bucket key v xs) ≤ p))
        → get_or (scatter key xs cnt out) p d ≡ get_or out p d
    unfolding scatter
    scatter_outside [] cnt out p r a long away = refl
    scatter_outside (x ∷ xs) cnt out p r (hx, a) long away =
        let k = key x in
        let slot = get_or cnt k 0 in
        let c = (slot + 1) % 2 ^ 32 in
        let at_k = r.fits k hx in
        let kept : (v : ℕ) → get_or (set cnt k c) v 0 ≡ (if k == v then c else get_or cnt v 0) =
          λ v. get_or-set cnt k v c 0 (omega (arith, r.bins_left)) in
        scatter_outside xs (set cnt k c) (set out slot x) p
          (Ready-next bins x xs cnt room hx small r) a (omega (arith, length-set out slot x, long))
          (λ v h.
            ground
              (arith, away v h, kept v, at_k, length-bucket_cons v x xs, length-bucket_cons k x xs))
        ∙ ground (arith, away k hx, get_or-set out slot p x d, length-bucket_cons k x xs, at_k)

    place :
        (s ys : List A) (x : A) (base next j : ℕ)
        → next ≡ base + 1
        → get_or s base d ≡ x
        → ((j : ℕ) → j < length ys → get_or s (next + j) d ≡ get_or ys j d)
        → j < suc (length ys)
        → get_or s (base + j) d ≡ get_or (x ∷ ys) j d
    place s ys x base next zero e first rest lt = rw (add-zero base) first
    place s ys x base next (suc j) e first rest lt =
        let moved : base + suc j ≡ next + j = omega arith in
        ap (λ p. get_or s p d) moved ∙ rest j (omega arith)

    -- Every element with the key v ends up at its place behind the count of v.
    pub scatter_lem :
        (xs : List A) (cnt : List ℕ) (out : List A) (v j : ℕ)
        → Ready bins xs cnt room
        → All (λ x. key x < bins) xs
        → room ≤ length out
        → v < bins
        → j < length (bucket key v xs)
        → get_or (scatter key xs cnt out) (get_or cnt v 0 + j) d ≡ get_or (bucket key v xs) j d
    unfolding scatter
    scatter_lem [] cnt out v j r a long h lt = absurd (omega arith)
    scatter_lem (x ∷ xs) cnt out v j r (hx, a) long h lt =
        let k = key x in
        let slot = get_or cnt k 0 in
        let c = (slot + 1) % 2 ^ 32 in
        let at_k = r.fits k hx in
        let r' = Ready-next bins x xs cnt room hx small r in
        let long' : room ≤ length (set out slot x) = omega (arith, length-set out slot x, long) in
        let kept : (v : ℕ) → get_or (set cnt k c) v 0 ≡ (if k == v then c else get_or cnt v 0) =
          λ v. get_or-set cnt k v c 0 (omega (arith, r.bins_left)) in
        let first : get_or (scatter key xs (set cnt k c) (set out slot x)) slot d ≡ x =
          scatter_outside xs (set cnt k c) (set out slot x) slot r' a long' (λ u hu. ground (
            arith,
            kept u,
            at_k,
            r.apart u k,
            r.apart k u,
            hu,
            hx,
            length-bucket_cons u x xs,
            length-bucket_cons k x xs,
          ))
          ∙ ground (arith, get_or-set out slot slot x d, length-bucket_cons k x xs, at_k) in
        let again : (j : ℕ)
            → j < length (bucket key v xs)
            → get_or (scatter key xs (set cnt k c) (set out slot x)) (get_or (set cnt k c) v 0 + j)
                d
              ≡ get_or (bucket key v xs) j d =
          λ j lt. scatter_lem xs (set cnt k c) (set out slot x) v j r' a long' h lt in
        let shorter = length-bucket_cons v x xs in
        elim (Bool-cases (k == v)) [
          | inl e ↦
              let same : k ≡ v = (==_iff k v).0 e in
              rw e (
                place (scatter key xs (set cnt k c) (set out slot x)) (bucket key v xs) x
                  (get_or cnt v 0) (get_or (set cnt k c) v 0) j
                  (ground (arith, kept v, at_k, same, length-bucket_cons k x xs))
                  (ap
                      (λ u.
                        get_or (scatter key xs (set cnt k c) (set out slot x)) (get_or cnt u 0) d)
                      (sym same)
                    ∙ first)
                  again (ground (arith, shorter)))
          | inr e ↦
              let stays : get_or cnt v 0 ≡ get_or (set cnt k c) v 0 = ground (arith, kept v) in
              rw e (
                ap (λ u. get_or (scatter key xs (set cnt k c) (set out slot x)) (u + j) d) stays
                ∙ again j (ground (arith, shorter)))
        ]
