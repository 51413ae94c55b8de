-- ===== src/Dsa/Column/Rank.antt =====
-- The placing of every entry at its rank, next to the counting pass.
use derostorm.Base.{
  ℕ, zero, suc, ◌+◌, ◌*◌, ◌%◌, ◌^◌, ◌≤◌, ◌<◌, ◌≡◌, refl, sym, ap, ◌∙◌, arith, List, [], ◌∷◌, ◌==◌,
  if◌then◌else◌, length, get_or, set, take, take_all, replicate, All, length-replicate, length-set,
}
use derostorm.Base.Bits.{bit_or-add}
use derostorm.Base.Reverse.{get_or-set}
use derostorm.Dsa.Words.{shl32}
use derostorm.Dsa.Buckets.{buckets, count_loop, sums, scatter, counting_pass}
use derostorm.Dsa.Buckets.Counting.{
  length-buckets_cons, length-buckets_le, length-sums, length-count_loop, length-zeros, get_or-sums,
}
use derostorm.Dsa.Buckets.Order.{counting_pass-buckets}
use derostorm.Dsa.Column.{
  Entry, no_entry, top_byte, rank_value, rank_values, one_if_less, rank, rank_four, rank_place,
  rank_sort,
}

-- A rank value is the top byte in front of the entry's number.
rank_value-sum :
    (x : ℕ) (e : Entry) → top_byte e < 256 → x < 512 → rank_value x e ≡ top_byte e * 512 + x
rank_value-sum x e h hx =
    let exact : shl32 (top_byte e) 9 ≡ top_byte e * 2 ^ 9 = omega arith in
    rw (exact, bit_or-add 9 (top_byte e) x hx) refl

-- How many values are v, and the rank of the next number.
count_value : List ℕ → ℕ → ℕ
count_value [] v = 0
count_value (w ∷ vs) v = (if w == v then 1 else 0) + count_value vs v

rank-suc : (vs : List ℕ) (v : ℕ) → rank vs (v + 1) ≡ rank vs v + count_value vs v
unfolding count_value
rank-suc [] v = refl
rank-suc (w ∷ vs) v = ground (arith, rank-suc vs v)

-- The values from number x on hold k * 512 + i only at number i, and if its byte is k.
count_value-below :
    (x k i : ℕ) (es : List Entry)
    → All (λ e. top_byte e < 256) es
    → x + length es ≤ 512
    → i < x
    → count_value (rank_values x es) (k * 512 + i) ≡ 0
unfolding count_value
count_value-below x k i [] a h lt = refl
count_value-below x k i (e ∷ es) (he, a) h lt = ground (
  arith,
  rank_value-sum x e he,
  count_value-below (x + 1) k i es a (omega arith) (omega arith),
  h,
  lt,
)

count_value-drop :
    (es : List Entry) (x k i : ℕ)
    → All (λ e. top_byte e < 256) es
    → x + length es ≤ 512
    → i < length es
    → count_value (rank_values x es) (k * 512 + (x + i))
      ≡ (if top_byte (get_or es i no_entry) == k then 1 else 0)
unfolding count_value
count_value-drop [] x k i a h lt = absurd (omega arith)
count_value-drop (e ∷ es) x k zero (he, a) h lt =
    ground (arith, rank_value-sum x e he, count_value-below (x + 1) k (x + 0) es a, h)
count_value-drop (e ∷ es) x k (suc i) (he, a) h lt =
    let moved : k * 512 + (x + suc i) ≡ k * 512 + (x + 1 + i) = omega arith in
    ground (arith, moved, rank_value-sum x e he, count_value-drop es (x + 1) k i a, h, lt)

-- The rank of the first possible value of a byte is the number of smaller bytes.
rank-start :
    (x k : ℕ) (es : List Entry)
    → All (λ e. top_byte e < 256) es
    → x + length es ≤ 512
    → rank (rank_values x es) (k * 512) ≡ length (buckets top_byte k es)
rank-start x k [] a h = omega (arith, length-buckets_le top_byte k [])
rank-start x k (e ∷ es) (he, a) h = ground (
  arith,
  rank_value-sum x e he,
  length-buckets_cons top_byte k e es,
  rank-start (x + 1) k es a,
  h,
)

rank-le : (vs : List ℕ) (v : ℕ) → rank vs v ≤ length vs
rank-le [] v = omega arith
rank-le (w ∷ vs) v = ground (arith, rank-le vs v)

length-rank_values : (x : ℕ) (es : List Entry) → length (rank_values x es) ≡ length es
length-rank_values x [] = refl
length-rank_values x (e ∷ es) = ap suc (length-rank_values (x + 1) es)

-- With counts that stand at the ranks of number x, the placing by rank is the scatter.
rank_place-scatter :
    (vs : List ℕ) (x : ℕ) (es : List Entry) (cnt : List ℕ) (out : List Entry)
    → length cnt ≡ 256
    → length vs ≤ 512
    → x + length es ≤ 512
    → All (λ e. top_byte e < 256) es
    → ((k : ℕ) → k < 256 → get_or cnt k 0 ≡ rank vs (k * 512 + x))
    → ((k i : ℕ)
        → i < length es
        → count_value vs (k * 512 + (x + i))
          ≡ (if top_byte (get_or es i no_entry) == k then 1 else 0))
    → rank_place vs x es out ≡ scatter top_byte es cnt out
unfolding rank_place scatter
rank_place-scatter vs x [] cnt out bins few room a at once = refl
rank_place-scatter vs x (e ∷ es) cnt out bins few room (he, a) at once =
    let slot = get_or cnt (top_byte e) 0 in
    let c = (slot + 1) % 2 ^ 32 in
    let here : rank vs (rank_value x e) ≡ slot =
      ap (rank vs) (rank_value-sum x e he (omega arith)) ∙ sym (at (top_byte e) he) in
    rw here (
      rank_place-scatter vs (x + 1) es (set cnt (top_byte e) c) (set out slot e)
        (length-set cnt (top_byte e) c ∙ bins) few (omega arith) a
        (λ k hk.
          let next : rank vs (k * 512 + (x + 1))
              ≡ rank vs (k * 512 + x) + count_value vs (k * 512 + (x + 0)) =
            let up : k * 512 + (x + 1) ≡ k * 512 + x + 1 = omega arith in
            let same : k * 512 + (x + 0) ≡ k * 512 + x = omega arith in
            rw (up, same) (rank-suc vs (k * 512 + x)) in
          ground (
            arith,
            get_or-set cnt (top_byte e) k c 0,
            at k hk,
            at (top_byte e) he,
            once k 0,
            next,
            rank-le vs (k * 512 + x),
            few,
            bins,
            he,
          ))
        (λ k i hi.
          let moved : x + 1 + i ≡ x + suc i = omega arith in
          rw moved (once k (suc i) (omega arith))))

-- Fewer than 512 entries with one-byte keys are placed as a counting pass places them.
rank_place-counting_pass :
    (es out : List Entry)
    → All (λ e. top_byte e < 256) es
    → length es ≤ 512
    → rank_place (rank_values 0 es) 0 es out ≡ counting_pass top_byte 256 es out
unfolding counting_pass
rank_place-counting_pass es out a few =
    rank_place-scatter (rank_values 0 es) 0 es (sums (count_loop top_byte es (replicate 256 0)) 0)
      out
      (length-sums (count_loop top_byte es (replicate 256 0)) 0
        ∙ length-count_loop top_byte es (replicate 256 0)
        ∙ length-zeros 256)
      (omega (arith, length-rank_values 0 es)) (omega arith) a
      (λ k hk.
        let same : k * 512 + 0 ≡ k * 512 = omega arith in
        get_or-sums top_byte 256 es k a (omega arith) hk
        ∙ sym (rw same (rank-start 0 k es a (omega arith))))
      (λ k i hi. count_value-drop es 0 k i a (omega arith) hi)

pub rank_sort-buckets :
    (es : List Entry)
    → All (λ e. top_byte e < 256) es
    → length es ≤ 16
    → rank_sort es ≡ buckets top_byte 256 es
unfolding rank_sort
rank_sort-buckets es a few =
    ap (take (length es)) (rank_place-counting_pass es (replicate 16 no_entry) a (omega arith))
    ∙ counting_pass-buckets top_byte no_entry 256 es (replicate 16 no_entry) a (omega arith)
        (omega (arith, length-replicate 16 no_entry))

-- The unrolled ranks leave out the comparison of a value with itself.
four_ranks :
    (v0 v1 v2 v3 : ℕ)
    → let vs = v0 ∷ v1 ∷ v2 ∷ v3 ∷ [] in
      (one_if_less v1 v0 + one_if_less v2 v0 + one_if_less v3 v0 ≡ rank vs v0)
      × (one_if_less v0 v1 + one_if_less v2 v1 + one_if_less v3 v1 ≡ rank vs v1)
      × (one_if_less v0 v2 + one_if_less v1 v2 + one_if_less v3 v2 ≡ rank vs v2)
      × (one_if_less v0 v3 + one_if_less v1 v3 + one_if_less v2 v3 ≡ rank vs v3)
four_ranks v0 v1 v2 v3 = (ground arith, ground arith, ground arith, ground arith)

four_sets :
    (out : List Entry) (e0 e1 e2 e3 : Entry) {r0 r1 r2 r3 s0 s1 s2 s3 : ℕ}
    → r0 ≡ s0
    → r1 ≡ s1
    → r2 ≡ s2
    → r3 ≡ s3
    → set (set (set (set out r0 e0) r1 e1) r2 e2) r3 e3
      ≡ set (set (set (set out s0 e0) s1 e1) s2 e2) s3 e3
four_sets out e0 e1 e2 e3 h0 h1 h2 h3 = rw (h0, h1, h2, h3) refl

length-rank_place :
    (vs : List ℕ) (x : ℕ) (es out : List Entry) → length (rank_place vs x es out) ≡ length out
unfolding rank_place
length-rank_place vs x [] out = refl
length-rank_place vs x (e ∷ es) out =
    length-rank_place vs (x + 1) es (set out (rank vs (rank_value x e)) e)
    ∙ length-set out (rank vs (rank_value x e)) e

pub rank_four-buckets :
    (e0 e1 e2 e3 : Entry)
    → All (λ e. top_byte e < 256) (e0 ∷ e1 ∷ e2 ∷ e3 ∷ [])
    → rank_four e0 e1 e2 e3 ≡ buckets top_byte 256 (e0 ∷ e1 ∷ e2 ∷ e3 ∷ [])
unfolding rank_four
rank_four-buckets e0 e1 e2 e3 a =
    let es : List Entry = e0 ∷ e1 ∷ e2 ∷ e3 ∷ [] in
    let blank : List Entry = replicate 4 no_entry in
    let (h0, h1, h2, h3) =
      four_ranks (rank_value 0 e0) (rank_value 1 e1) (rank_value 2 e2) (rank_value 3 e3) in
    let placed : List Entry = rank_place (rank_values 0 es) 0 es blank in
    let vs : List ℕ = rank_values 0 es in
    let same : set
          (set (set (set blank (rank vs (rank_value 0 e0)) e0) (rank vs (rank_value 1 e1)) e1)
            (rank vs (rank_value 2 e2)) e2)
          (rank vs (rank_value 3 e3)) e3
        ≡ placed =
      unfold rank_place in refl in
    four_sets blank e0 e1 e2 e3 h0 h1 h2 h3
    ∙ same
    ∙ sym (take_all 4 placed (omega (arith, length-rank_place (rank_values 0 es) 0 es blank)))
    ∙ ap (take 4) (rank_place-counting_pass es blank a (omega arith))
    ∙ counting_pass-buckets top_byte no_entry 256 es blank a (omega arith) (omega arith)
