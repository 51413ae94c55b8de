-- ===== src/Dsa/Column.antt =====
-- columnStepKeys of internal/dsa/dsa.go: the stable order of a run's blocks by the byte that is new
-- in front of them, which is the top byte of their keys. order[:blocks] and keys[:blocks] move
-- together, so they are one list of pairs (block, key); `tmp` and `ktmp` are the buffer `tmp`.
pub mod Rank
pub mod Insertion
pub mod Agree
use Prim.Native.Nat.{bit_or}
use derostorm.Base.{
  ℕ, zero, suc, ◌+◌, ◌-◌, ◌*◌, ◌/◌, ◌%◌, ◌^◌, Bool, true, false, ◌&&◌, List, [], ◌∷◌, ltb, leb,
  ◌==◌, if◌then◌else◌, length, get_or, set, take, replicate,
}
use derostorm.Dsa.Words.{shl32}
use derostorm.Dsa.Buckets.{counting_pass}

abbrev pub Entry : Type 0
Entry = ℕ × ℕ

abbrev pub no_entry : Entry
no_entry = (0, 0)

-- keys[x] >> top
abbrev pub top_byte : Entry → ℕ
top_byte e = e.1 / 2 ^ 16

-- ((keys[x] >> top) << 9) | x, for every entry from number x on.
abbrev pub rank_value : ℕ → Entry → ℕ
rank_value x e = bit_or (shl32 (top_byte e) 9) x

abbrev pub rank_values : ℕ → List Entry → List ℕ
rank_values x [] = []
rank_values x (e ∷ es) = rank_value x e ∷ rank_values (x + 1) es

-- if v < w { r++ }
abbrev pub one_if_less : ℕ → ℕ → ℕ
one_if_less v w = if ltb v w then 1 else 0

-- The loop over y: how many values are smaller.
abbrev pub rank : List ℕ → ℕ → ℕ
rank [] v = 0
rank (w ∷ vs) v = one_if_less w v + rank vs v

-- blocks == 4, unrolled.
unfoldable pub rank_four : Entry → Entry → Entry → Entry → List Entry
rank_four e0 e1 e2 e3 =
    let v0 = rank_value 0 e0 in
    let v1 = rank_value 1 e1 in
    let v2 = rank_value 2 e2 in
    let v3 = rank_value 3 e3 in
    let r0 = one_if_less v1 v0 + one_if_less v2 v0 + one_if_less v3 v0 in
    let r1 = one_if_less v0 v1 + one_if_less v2 v1 + one_if_less v3 v1 in
    let r2 = one_if_less v0 v2 + one_if_less v1 v2 + one_if_less v3 v2 in
    let r3 = one_if_less v0 v3 + one_if_less v1 v3 + one_if_less v2 v3 in
    set (set (set (set (replicate 4 no_entry) r0 e0) r1 e1) r2 e2) r3 e3

-- blocks <= rankMax: every entry goes to its rank.
pub rank_place : List ℕ → ℕ → List Entry → List Entry → List Entry
rank_place vs x [] out = out
rank_place vs x (e ∷ es) out = rank_place vs (x + 1) es (set out (rank vs (rank_value x e)) e)

unfoldable pub rank_sort : List Entry → List Entry
unfolding rank_place
rank_sort es = take (length es) (rank_place (rank_values 0 es) 0 es (replicate 16 no_entry))

-- blocks < countMin: the inner loop with y places in front of the gap, and the write into the gap.
pub shift_in : Entry → ℕ → List Entry → List Entry
shift_in e zero arr = set arr 0 e
shift_in e (suc y) arr =
    let rest = shift_in e y (set arr (suc y) (get_or arr y no_entry)) in
    if ltb (top_byte e) (top_byte (get_or arr y no_entry)) then rest else set arr (suc y) e

-- The outer loop, with `left` rounds from x on.
pub insertion_loop : ℕ → ℕ → List Entry → List Entry
unfolding shift_in
insertion_loop zero x arr = arr
insertion_loop (suc left) x arr =
    insertion_loop left (x + 1) (shift_in (get_or arr x no_entry) x arr)

unfoldable pub insertion_sort : List Entry → List Entry
unfolding insertion_loop
insertion_sort es = insertion_loop (length es - 1) 1 es

-- columnStepKeys: after the case of four blocks, by the number of blocks.
unfoldable pub by_size : List Entry → List Entry → List Entry
unfolding rank_sort insertion_sort
by_size es tmp =
    if leb (length es) 16
    then rank_sort es
    else if ltb (length es) 48
    then insertion_sort es
    else take (length es) (counting_pass top_byte 256 es tmp)

unfoldable pub column_step : List Entry → List Entry → List Entry
unfolding rank_four by_size
column_step (e0 ∷ e1 ∷ e2 ∷ e3 ∷ []) tmp = rank_four e0 e1 e2 e3
column_step es tmp = by_size es tmp
