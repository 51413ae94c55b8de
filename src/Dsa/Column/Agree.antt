-- ===== src/Dsa/Column/Agree.antt =====
-- The four ways of columnStepKeys, next to one stable order.
use derostorm.Base.{
  ℕ, ◌≤◌, ◌<◌, ◌≡◌, refl, sym, ap, ◌∙◌, arith, List, [], ◌∷◌, ltb, lt→ltb, leb, leb→le, length, All,
  inl, inr, Bool-cases,
}
use mathlib.Core.Path.{subst}
use derostorm.Dsa.Buckets.{bucket, buckets}
use derostorm.Dsa.Buckets.Counting.{length-buckets}
use derostorm.Dsa.Buckets.Order.{counting_pass-buckets}
use derostorm.Dsa.Buckets.Stable.{bucket-buckets, SortedBy, SortedBy-buckets}
use derostorm.Dsa.Column.{Entry, no_entry, top_byte, by_size, column_step}
use derostorm.Dsa.Column.Rank.{rank_sort-buckets, rank_four-buckets}
use derostorm.Dsa.Column.Insertion.{insertion_sort-buckets}

by_size-buckets :
    (es tmp : List Entry)
    → All (λ e. top_byte e < 256) es
    → length es ≤ 512
    → length es ≤ length tmp
    → by_size es tmp ≡ buckets top_byte 256 es
unfolding by_size
by_size-buckets es tmp a few room = elim (Bool-cases (leb (length es) 16)) [
  | inl small ↦ rw small (rank_sort-buckets es a (leb→le (length es) 16 small))
  | inr more ↦ elim (Bool-cases (ltb (length es) 48)) [
    | inl medium ↦ rw (more, medium) (insertion_sort-buckets es a)
    | inr large ↦
        rw (more, large) (counting_pass-buckets top_byte no_entry 256 es tmp a (omega arith) room)
  ]
]

pub column_step-buckets :
    (es tmp : List Entry)
    → All (λ e. top_byte e < 256) es
    → length es ≤ 512
    → length es ≤ length tmp
    → column_step es tmp ≡ buckets top_byte 256 es
unfolding column_step
column_step-buckets [] tmp a few room = by_size-buckets [] tmp a few room
column_step-buckets (e0 ∷ []) tmp a few room = by_size-buckets (e0 ∷ []) tmp a few room
column_step-buckets (e0 ∷ e1 ∷ []) tmp a few room = by_size-buckets (e0 ∷ e1 ∷ []) tmp a few room
column_step-buckets (e0 ∷ e1 ∷ e2 ∷ []) tmp a few room =
    by_size-buckets (e0 ∷ e1 ∷ e2 ∷ []) tmp a few room
column_step-buckets (e0 ∷ e1 ∷ e2 ∷ e3 ∷ []) tmp a few room = rank_four-buckets e0 e1 e2 e3 a
column_step-buckets (e0 ∷ e1 ∷ e2 ∷ e3 ∷ e4 ∷ es) tmp a few room =
    by_size-buckets (e0 ∷ e1 ∷ e2 ∷ e3 ∷ e4 ∷ es) tmp a few room

-- For at most 512 blocks with keys of 24 bits, and a buffer that holds them, columnStepKeys puts
-- the blocks in the order of the top bytes of their keys, and keeps those with one top byte in
-- their order, whichever of its four ways the number of blocks selects.
pub column_step-SortedBy :
    (es tmp : List Entry) (v : ℕ)
    → All (λ e. top_byte e < 256) es
    → length es ≤ 512
    → length es ≤ length tmp
    → v < 256
    → SortedBy top_byte (column_step es tmp)
      × (bucket top_byte v (column_step es tmp) ≡ bucket top_byte v es)
      × (length (column_step es tmp) ≡ length es)
column_step-SortedBy es tmp v a few room h =
    let e = column_step-buckets es tmp a few room in
    (
      subst (SortedBy top_byte) (sym e) (SortedBy-buckets top_byte 256 es),
      ap (bucket top_byte v) e ∙ bucket-buckets top_byte v 256 es ∙ rw (lt→ltb v 256 h) refl,
      ap length e ∙ length-buckets top_byte 256 es a,
    )
