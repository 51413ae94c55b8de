-- ===== src/Dsa/Emit/Blocks.antt =====
-- SuffixArray of internal/dsa/dsa.go up to the sort of the descriptors: the runs of blocks that
-- differ in few places, and the tail behind the last whole block.
use Prim.Native.Nat.{bit_or, bit_and, bit_xor}
use derostorm.Base.{
  ℕ, zero, suc, ◌+◌, ◌-◌, ◌*◌, ◌/◌, ◌%◌, ◌^◌, Bool, true, false, ◌&&◌, List, [], ◌∷◌, ◌++◌, ltb,
  leb, if◌then◌else◌, length,
}
use derostorm.Dsa.Words.{block_size, key32, u64le}
use derostorm.Dsa.Column.{Entry}
use derostorm.Dsa.Emit.{Lists, single_loop}
use derostorm.Dsa.Emit.Run.{emit_run}

abbrev pub run_max : ℕ
run_max = 512

abbrev pub run_split : ℕ
run_split = 160

-- bits.OnesCount64
pub ones_count : ℕ → ℕ → ℕ
ones_count zero x = 0
ones_count (suc left) x = x % 2 + ones_count left (x / 2)

-- Every byte that is not zero becomes one.
unfoldable pub collapse : ℕ → ℕ
collapse x =
    let x4 = bit_and (bit_or x (x / 2 ^ 4)) 0x0f0f0f0f0f0f0f0f in
    let x2 = bit_and (bit_or x4 (x4 / 2 ^ 2)) 0x0303030303030303 in
    bit_and (bit_or x2 (x2 / 2)) 0x0101010101010101

-- The loop of blockDiff over the words of the blocks at a and b, from i on.
pub diff_loop : List ℕ → ℕ → ℕ → ℕ → ℕ → ℕ
unfolding ones_count collapse
diff_loop t a b zero i = 0
diff_loop t a b (suc left) i =
    ones_count 64 (collapse (bit_xor (u64le t (a + i)) (u64le t (b + i))))
    + diff_loop t a b left (i + 8)

unfoldable pub block_diff : List ℕ → ℕ → ℕ → ℕ
unfolding diff_loop
block_diff t a b = diff_loop t a b 32 0

-- The length of the run at block g: `left` is runMax - length.
unfoldable pub run_length : List ℕ → ℕ → ℕ → ℕ → ℕ
unfolding block_diff
run_length t g zero len = len
run_length t g (suc left) len =
    let rest = run_length t g left (len + 1) in
    if ltb (g + len) (length t / block_size)
      && leb (block_diff t ((g + len - 1) * block_size) ((g + len) * block_size)) run_split
    then rest
    else len

-- The loop over the runs; it advances at every round, so that fullBlocks rounds are enough.
unfoldable pub emit_runs : List ℕ → List Entry → ℕ → ℕ → ℕ → Lists → Lists × Bool
unfolding run_length emit_run
emit_runs t tmp room zero g s = (s, true)
emit_runs t tmp room (suc rounds) g s =
    let len = run_length t g (run_max - 1) 1 in
    let run = emit_run t tmp room g len s in
    let rest = emit_runs t tmp room rounds (g + len) run.0 in
    if ltb g (length t / block_size) then (if run.1 then rest else (run.0, false)) else (s, true)

-- The tail walk, backwards from the last place.
unfoldable pub emit_tail : List ℕ → Lists → Lists
unfolding single_loop
emit_tail t s =
    let n = length t in
    let tail = (n / block_size) * block_size in
    if ltb tail n
    then record {
      arena = s.arena ++ tail ∷ [];
      descs = single_loop t tail (length s.arena) (n - 1 - tail) (key32 t n (n - 1)) s.descs;
    }
    else s
