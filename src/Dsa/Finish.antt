-- ===== src/Dsa/Finish.antt =====
-- SuffixArray of internal/dsa/dsa.go from given descriptors on: their sort, the groups and the merges.
use derostorm.Base.{
  ℕ, zero, suc, ◌+◌, ◌*◌, ◌^◌, ◌≤◌, ◌<◌, ◌≡◌, refl, sym, ap, ◌∙◌, arith, Bool, true, false, ◌&&◌,
  List, [], ◌∷◌, ltb, ◌==◌, if◌then◌else◌, length, length-take, take, All, All-map, Chain, count,
  count-append, occurs,
}
use mathlib.Core.Path.{subst}
use derostorm.Base.Bytes.{IsByte}
use derostorm.Dsa.Words.{Desc, dlen, sort_key}
use derostorm.Dsa.Suffix.{UpTo}
use derostorm.Dsa.Buckets.{buckets}
use derostorm.Dsa.Buckets.Stable.{SortedBy, SortedBy-buckets}
use derostorm.Dsa.Buckets.Kept.{total, total-buckets}
use derostorm.Dsa.Radix.{sort_desc}
use derostorm.Dsa.Radix.Sorted.{All-buckets_kept, sort_desc-buckets}
use derostorm.Dsa.Column.{Entry}
use derostorm.Dsa.Emit.{Lists}
use derostorm.Dsa.Emit.Blocks.{emit_tail}
use derostorm.Dsa.Groups.{places, groups, write_groups}
use derostorm.Dsa.Groups.Valid.{IsDesc, all_places}
use derostorm.Dsa.Groups.Written.{merged, write_groups-Wrote}
use derostorm.Dsa.Groups.Ascend.{merged-groups, All-each, concat-groups}
use derostorm.Dsa.Sort.{finish}

-- As many elements as different numbers: every number below n occurs once, and no other.
sum_counts : ℕ → List ℕ → ℕ
sum_counts zero xs = 0
sum_counts (suc n) xs = sum_counts n xs + count n xs

sum_counts_cons :
    (n x : ℕ) (xs : List ℕ) → sum_counts n (x ∷ xs) ≡ (if ltb x n then 1 else 0) + sum_counts n xs
unfolding sum_counts
sum_counts_cons zero x xs = ground arith
sum_counts_cons (suc n) x xs = ground (arith, sum_counts_cons n x xs)

sum_counts-length : (n : ℕ) (xs : List ℕ) → All (λ x. x < n) xs → sum_counts n xs ≡ length xs
unfolding sum_counts
sum_counts-length zero [] a = refl
sum_counts-length (suc n) [] a = omega (arith, sum_counts-length n [] tt)
sum_counts-length n (x ∷ xs) (h, a) =
    ground (arith, sum_counts_cons n x xs, sum_counts-length n xs a, h)

sum_counts-once :
    (m n : ℕ) (xs : List ℕ)
    → m ≤ n
    → ((p : ℕ) → count p xs ≡ (if ltb p n then 1 else 0))
    → sum_counts m xs ≡ m
unfolding sum_counts
sum_counts-once zero n xs h once = refl
sum_counts-once (suc m) n xs h once = ground (arith, sum_counts-once m n xs, once m)

length-once :
    (n : ℕ) (xs : List ℕ) → ((p : ℕ) → count p xs ≡ (if ltb p n then 1 else 0)) → length xs ≡ n
length-once n xs once =
    let inside : All (λ x. x < n) xs =
      All-map (λ x. 1 ≤ count x xs) (λ x. x < n) xs (λ x h. ground (arith, once x)) (occurs xs) in
    sym (sum_counts-length n xs inside) ∙ sum_counts-once n n xs (omega arith) once

-- The order by buckets keeps the places.
module _ (t arena : List ℕ) (p : ℕ) where
  count-all_places :
      (ds : List Desc) → count p (all_places t arena ds) ≡ total (λ d. count p (places arena d)) ds
  count-all_places [] = refl
  count-all_places (d ∷ ds) =
      omega (arith, count-append p (places arena d) (all_places t arena ds), count-all_places ds)

  sorted_places :
      (ds b : List Desc)
      → length ds < 2 ^ 32
      → length b ≡ length ds
      → All (IsDesc t arena) ds
      → SortedBy sort_key (sort_desc ds b)
        × All (IsDesc t arena) (sort_desc ds b)
        × (count p (all_places t arena (sort_desc ds b)) ≡ count p (all_places t arena ds))
  sorted_places ds b small room a =
      let m = 4096 * 4096 in
      let e : sort_desc ds b ≡ buckets sort_key m ds = sort_desc-buckets ds b small room in
      let keys : All (λ d. sort_key d < m) ds =
        All-map (IsDesc t arena) (λ d. sort_key d < m) ds (λ d _. unfold sort_key in omega arith)
          a in
      (
        subst (SortedBy sort_key) (sym e) (SortedBy-buckets sort_key m ds),
        subst (All (IsDesc t arena)) (sym e) (All-buckets_kept sort_key (IsDesc t arena) m ds a),
        ap (λ es. count p (all_places t arena es)) e
            ∙ count-all_places (buckets sort_key m ds)
            ∙ total-buckets (λ d. count p (places arena d)) sort_key m ds keys
            ∙ sym (count-all_places ds),
      )

pub first_true : (a b : Bool) → (a && b) ≡ true → a ≡ true
first_true true b h = refl
first_true false b h = h

-- From fewer than 2^32 valid descriptors that name every place of a text of bytes once, in any order,
-- with s.desc2 and sa large enough: when the merge does not decline, sa[:n] has every place once, in
-- the order of the suffixes.
pub finish_lem :
    (t slack sa : List ℕ) (tmp : List Entry) (spare : List Desc) (s : Lists) (p : ℕ)
    → All IsByte t
    → length t ≤ length sa
    → length (emit_tail t s).descs < 2 ^ 32
    → length (emit_tail t s).descs ≤ length spare
    → All (IsDesc t (emit_tail t s).arena) (emit_tail t s).descs
    → ((q : ℕ)
        → count q (all_places t (emit_tail t s).arena (emit_tail t s).descs)
          ≡ (if ltb q (length t) then 1 else 0))
    → (finish t tmp spare slack s sa).1 ≡ true
    → Chain (UpTo t) (take (length t) (finish t tmp spare slack s sa).0)
      × (count p (take (length t) (finish t tmp spare slack s sa).0)
          ≡ (if ltb p (length t) then 1 else 0))
unfolding finish
finish_lem t slack sa tmp spare s p bytes text small room valid once ok =
    let e = emit_tail t s in
    let b = take (length e.descs) spare in
    let sized : length b ≡ length e.descs = omega (arith, length-take (length e.descs) spare) in
    let ds = sort_desc e.descs b in
    let (sorted, valid', _) = sorted_places t e.arena p e.descs b small sized valid in
    let all : List ℕ = merged t e.arena (groups ds) in
    let counts : (q : ℕ) → count q all ≡ (if ltb q (length t) then 1 else 0) = λ q.
      let (_, _, same) = sorted_places t e.arena q e.descs b small sized valid in
      let (_, kept) = merged-groups t e.arena bytes ds q sorted valid' in kept ∙ same ∙ once q in
    let (chain, _) = merged-groups t e.arena bytes ds p sorted valid' in
    let full : length all ≡ length t = length-once (length t) all counts in
    let w : (List ℕ × ℕ) × Bool = write_groups t e.arena slack (groups ds) (sa, 0) in
    let flag : w.1 ≡ true = first_true w.1 (w.0.1 == length t) ok in
    let sizes : All (All (λ d. length (places e.arena d) ≡ dlen d)) (groups ds) =
      All-each (λ d. length (places e.arena d) ≡ dlen d) (groups ds)
        (rw (concat-groups ds) (
          All-map (IsDesc t e.arena) (λ d. length (places e.arena d) ≡ dlen d) ds (λ d v. v.1)
            valid')) in
    let (front, out, _) =
      write_groups-Wrote t e.arena slack (groups ds) (sa, 0) sizes (omega arith) text flag in
    let result : take (length t) w.0.0 ≡ all =
      ap (λ k. take k w.0.0) {y = w.0.1} (omega arith) ∙ front in
    rw result (chain, counts p)
