-- ===== src/Dsa/Emit/Start.antt =====
-- A run of three and more blocks in emitRun of internal/dsa/dsa.go, from its start to its end.
use derostorm.Base.{
  ℕ, zero, suc, ◌+◌, ◌-◌, ◌*◌, ◌^◌, ◌≤◌, ◌<◌, ◌≡◌, refl, sym, ap, ◌∙◌, arith, true, false, List, [],
  ◌∷◌, map, ◌==◌, ==_iff, if◌then◌else◌, length, length-map, get_or, All, All-map, Chain, count,
  inl, inr, Bool-cases,
}
use mathlib.Core.Path.{subst}
use derostorm.Base.Bytes.{IsByte}
use derostorm.Dsa.Words.{block_size, key32}
use derostorm.Dsa.Suffix.{UpTo}
use derostorm.Dsa.Column.{Entry}
use derostorm.Dsa.Groups.Valid.{HasKey}
use derostorm.Dsa.Emit.{Lists}
use derostorm.Dsa.Emit.Constant.{constant_mask}
use derostorm.Dsa.Emit.Run.{
  block_ends, sort_ends, first_order, first_key, all_same, first_entries, start_columns, emit_many,
}
use derostorm.Dsa.Emit.Valid.{at_column, Holds}
use derostorm.Dsa.Emit.Grouped.{bases}
use derostorm.Dsa.Emit.Emitted.{Ready, keyed-first}
use derostorm.Dsa.Emit.Next.{SameByte, All-same}
use derostorm.Dsa.Emit.Loop.{Outcome, cells, cells-mul, columns_loop_lem}
use derostorm.Dsa.Emit.First.{sort_ends-Chain}
use derostorm.Dsa.Emit.Still.{constant_mask-All}

-- The bases of n blocks from p on.
pub length-block_ends : (n p : ℕ) → length (block_ends n p) ≡ n
unfolding block_ends
length-block_ends zero p = refl
length-block_ends (suc n) p = ap suc (length-block_ends n (p + block_size))

pub All-block_ends :
    (n p m : ℕ)
    → p + n * block_size ≤ m
    → All (λ b. (p ≤ b) × (b + block_size ≤ m)) (block_ends n p)
unfolding block_ends
All-block_ends zero p m h = tt
All-block_ends (suc n) p m h = (
  (omega arith, omega arith),
  All-map (λ b. (p + block_size ≤ b) × (b + block_size ≤ m)) (λ b. (p ≤ b) × (b + block_size ≤ m))
      (block_ends n (p + block_size)) (λ b (lo, hi). (omega arith, hi))
      (All-block_ends n (p + block_size) m (omega arith)),
)

count-block_ends : (n p q : ℕ) → count (q + 255) (block_ends n (p + 255)) ≡ count q (block_ends n p)
unfolding block_ends
count-block_ends zero p q = refl
count-block_ends (suc n) p q =
    let e : p + 255 + block_size ≡ p + block_size + 255 = omega arith in
    rw e (ground (arith, count-block_ends n (p + block_size) q))

count-lowered :
    (q : ℕ) (xs : List ℕ)
    → All (λ p. 255 ≤ p) xs
    → count q (map (λ p. p - 255) xs) ≡ count (q + 255) xs
count-lowered q [] a = refl
count-lowered q (x ∷ xs) (h, a) = ground (arith, count-lowered q xs a, h)

raised-lowered : (xs : List ℕ) → All (λ p. 255 ≤ p) xs → at_column 255 (map (λ p. p - 255) xs) ≡ xs
raised-lowered [] a = refl
raised-lowered (x ∷ xs) (h, a) =
    let e : x - 255 + 255 ≡ x = omega arith in rw (e, raised-lowered xs a) refl

bases-keyed : (f : ℕ → ℕ) (xs : List ℕ) → bases (map (λ b. (b, f b)) xs) ≡ xs
bases-keyed f [] = refl
bases-keyed f (x ∷ xs) = ap (◌∷◌ x) (bases-keyed f xs)

all_same-All : (k : ℕ) (es : List Entry) → all_same k es ≡ true → All (λ e. e.1 ≡ k) es
unfolding all_same
all_same-All k [] h = tt
all_same-All k (e ∷ es) h = elim (Bool-cases (e.1 == k)) [
  | inl same ↦ ((==_iff e.1 k).0 same, all_same-All k es (rw same at h))
  | inr other ↦ let refused : false ≡ true = rw other at h in cc
]

module _ (t : List ℕ) (bytes : All IsByte t) (small : length t ≤ 2 ^ 20) where
  keyed :
      (xs : List ℕ)
      → All (λ b. b + 255 < length t) xs
      → All
          (λ (e : Entry). HasKey t e.1 (e.0 + 255))
          (map (λ b. (b, key32 t (length t) (b + 255))) xs)
  keyed [] a = tt
  keyed (x ∷ xs) (h, a) = ((h, refl), keyed xs a)

  first_order-sorted :
      (base n q : ℕ)
      → base + suc n * block_size ≤ length t
      → Chain (UpTo t) (at_column 255 (first_order t base (suc n)))
        × (count q (first_order t base (suc n)) ≡ count q (block_ends (suc n) base))
        × (length (first_order t base (suc n)) ≡ suc n)
  unfolding first_order block_ends
  first_order-sorted base n q room =
      let ends : List ℕ = block_ends (suc n) (base + 255) in
      let zs : List ℕ = block_ends n (base + 255 + block_size) in
      let rounds : suc n - 1 ≡ length zs =
        omega (arith, length-block_ends n (base + 255 + block_size)) in
      let within : All (λ p. p ≤ length t) ends =
        All-map (λ b. (base + 255 ≤ b) × (b + block_size ≤ length t + 255)) (λ p. p ≤ length t) ends
          (λ b (lo, hi). omega arith)
          (All-block_ends (suc n) (base + 255) (length t + 255) (omega arith)) in
      let sorted : List ℕ = sort_ends t (length zs) 1 ends in
      let counts : (p : ℕ) → count p sorted ≡ count p ends =
        λ p. let (_, same, _) = sort_ends-Chain t bytes (base + 255) zs p within in same in
      let (chain, _, len) = sort_ends-Chain t bytes (base + 255) zs q within in
      let high : All (λ p. 255 ≤ p) sorted =
        All-same (λ p. 255 ≤ p) sorted ends counts
          (All-map (λ b. (base + 255 ≤ b) × (b + block_size ≤ length t + 255)) (λ p. 255 ≤ p) ends
            (λ b (lo, hi). omega arith)
            (All-block_ends (suc n) (base + 255) (length t + 255) (omega arith))) in
      rw rounds (
        subst (Chain (UpTo t)) (sym (raised-lowered sorted high)) chain,
        count-lowered q sorted high ∙ counts (q + 255) ∙ count-block_ends (suc n) base q,
        length-map (λ p. p - 255) sorted ∙ len ∙ length-block_ends (suc n) (base + 255),
      )

  -- The state before the first column, which is the last one of the blocks.
  start-Ready :
      (base n : ℕ) (s : Lists)
      → base + suc n * block_size ≤ length t
      → Ready t bytes small (block_ends (suc n) base) 255 (start_columns t base (suc n) s)
        × ((start_columns t base (suc n) s).dirty ≡ true)
        × ((start_columns t base (suc n) s).lists ≡ s)
  unfolding start_columns first_entries
  start-Ready base n s room =
      let blocks : List ℕ = block_ends (suc n) base in
      let order : List ℕ = first_order t base (suc n) in
      let es : List Entry = map (λ b. (b, key32 t (length t) (b + 255))) order in
      let counts : (q : ℕ) → count q order ≡ count q blocks =
        λ q. let (_, same, _) = first_order-sorted base n q room in same in
      let (chain, _, len) = first_order-sorted base n 0 room in
      let named : bases es ≡ order = bases-keyed (λ b. key32 t (length t) (b + 255)) order in
      let inside : All (λ b. b + 255 < length t) order =
        All-same (λ b. b + 255 < length t) order blocks counts
          (All-map (λ b. (base ≤ b) × (b + block_size ≤ length t)) (λ b. b + 255 < length t) blocks
            (λ b (lo, hi). omega arith) (All-block_ends (suc n) base (length t) room)) in
      let own = keyed order inside in
      let keys : All
          (λ (e : Entry).
            HasKey t (if all_same (first_key es) es then first_key es else e.1) (e.0 + 255))
          es =
        elim (Bool-cases (all_same (first_key es) es)) [
          | inl same ↦
              rw same (keyed-first t bytes small es 255 own (all_same-All (first_key es) es same))
          | inr differ ↦ rw differ own
        ] in
      (
        (
          keys,
          subst (λ l. Chain (UpTo t) (at_column 255 l)) (sym named) chain,
          λ q. ap (count q) named ∙ counts q,
          length-map (λ b. (b, key32 t (length t) (b + 255))) order
              ∙ len
              ∙ sym (length-block_ends (suc n) base),
        ),
        refl,
        refl,
      )

  -- A run of n + 1 blocks.
  pub emit_many_lem :
      (tmp : List Entry) (room base n : ℕ) (s : Lists) (c : ℕ → ℕ)
      → base + suc n * block_size ≤ length t
      → suc n ≤ 512
      → suc n ≤ length tmp
      → length s.arena ≤ base
      → Holds t s c
      → Outcome t bytes small
          (block_ends (suc n) base)
          (constant_mask t base (suc n))
          tmp
          room
          base
          255
          s
          c
          (emit_many t tmp room base (suc n) s)
  unfolding emit_many
  emit_many_lem tmp room base n s c inside few wide space holds =
      let (ready, dirty, same) = start-Ready base n s inside in
      let w = start_columns t base (suc n) s in
      let blocks = block_ends (suc n) base in
      let len = length-block_ends (suc n) base in
      let mask : (r : ℕ)
          → r < 256
          → (get_or (constant_mask t base (suc n)) r 0 == 0) ≡ false
          → SameByte t bytes small base r blocks =
        λ r hr h. constant_mask-All t bytes base (suc n) r (omega arith) hr h in
      let count_cells = cells-mul (length blocks) 255 in
      let fits : length w.lists.arena + cells (length blocks) 255 ≤ 2 ^ 20 =
        rw same (omega arith) in
      let result =
        columns_loop_lem t bytes small blocks (constant_mask t base (suc n)) tmp room base 255 w c
          (omega arith) mask (omega arith) (omega arith) (omega arith) fits (inl dirty)
          (subst (λ l. Holds t l c) (sym same) holds) ready in
      subst
        (λ l.
          Outcome t bytes small blocks (constant_mask t base (suc n)) tmp room base 255 l c
            (emit_many t tmp room base (suc n) s))
        same result
