-- ===== src/Dsa/Emit/Constant.antt =====
-- emitRun of internal/dsa/dsa.go: the mask of the columns that hold one byte in all the blocks of a run.
use Prim.Native.Nat.{bit_xor}
use derostorm.Base.{
  ℕ, zero, suc, ◌+◌, ◌-◌, ◌*◌, ◌/◌, ◌%◌, ◌^◌, List, if◌then◌else◌, ◌==◌, set, replicate,
}
use derostorm.Dsa.Words.{block_size, u64le}

-- The inner loop over the bytes k of a word's difference.
unfoldable pub clear_bytes : ℕ → ℕ → ℕ → ℕ → List ℕ → List ℕ
clear_bytes xor i zero k mask = mask
clear_bytes xor i (suc left) k mask =
    clear_bytes xor i left (k + 1)
      (if (xor / 2 ^ (8 * k)) % 256 == 0 then mask else set mask (i + k) 0)

module _ (t : List ℕ) where
  -- The words of two blocks, from i on.
  unfoldable pub clear_words : ℕ → ℕ → ℕ → ℕ → List ℕ → List ℕ
  unfolding clear_bytes
  clear_words b0 bg zero i mask = mask
  clear_words b0 bg (suc left) i mask =
      let xor = bit_xor (u64le t (b0 + i)) (u64le t (bg + i)) in
      clear_words b0 bg left (i + 8) (if xor == 0 then mask else clear_bytes xor i 8 0 mask)

  -- The blocks after the first, from number g on.
  unfoldable pub clear_blocks : ℕ → ℕ → ℕ → List ℕ → List ℕ
  unfolding clear_words
  clear_blocks base zero g mask = mask
  clear_blocks base (suc left) g mask =
      clear_blocks base left (g + 1) (clear_words base (base + g * block_size) 32 0 mask)

  -- constant[:] of a run of blocks at base.
  unfoldable pub constant_mask : ℕ → ℕ → List ℕ
  unfolding clear_blocks
  constant_mask base blocks = clear_blocks base (blocks - 1) 1 (replicate block_size 1)
