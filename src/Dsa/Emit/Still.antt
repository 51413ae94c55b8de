-- ===== src/Dsa/Emit/Still.antt =====
-- The mask of emitRun in internal/dsa/dsa.go over all the words and blocks of a run.
use Prim.Native.Nat.{bit_xor}
use derostorm.Base.{
  ℕ, zero, suc, ◌+◌, ◌-◌, ◌*◌, ◌≤◌, ◌<◌, ◌≡◌, refl, sym, ◌∙◌, arith, false, List, ltb, ◌==◌, length,
  length-replicate, get_or, replicate, All, inl, inr, Bool-cases,
}
use derostorm.Base.Bytes.{IsByte}
use derostorm.Dsa.Words.{block_size, u64le}
use derostorm.Dsa.Emit.Constant.{clear_words, clear_blocks, constant_mask}
use derostorm.Dsa.Emit.Mask.{word_step, word_step-kept, length-clear_bytes}
use derostorm.Dsa.Emit.Run.{block_ends}

module _ (t : List ℕ) (bytes : All IsByte t) where
  length-word_step :
      (b0 bg i : ℕ) (mask : List ℕ) → length (word_step t bytes b0 bg i mask) ≡ length mask
  unfolding word_step
  length-word_step b0 bg i mask =
      elim (Bool-cases (bit_xor (u64le t (b0 + i)) (u64le t (bg + i)) == 0)) [
        | inl equal ↦ rw equal refl
        | inr differ ↦
            rw differ
              (length-clear_bytes (bit_xor (u64le t (b0 + i)) (u64le t (bg + i))) i 8 0 mask)
      ]

  length-clear_words :
      (b0 bg left i : ℕ) (mask : List ℕ) → length (clear_words t b0 bg left i mask) ≡ length mask
  unfolding clear_words word_step
  length-clear_words b0 bg zero i mask = refl
  length-clear_words b0 bg (suc left) i mask =
      length-clear_words b0 bg left (i + 8) (word_step t bytes b0 bg i mask)
      ∙ length-word_step b0 bg i mask

  clear_words-kept :
      (b0 bg left i r : ℕ) (mask : List ℕ)
      → i + 8 * left ≤ length mask
      → (get_or (clear_words t b0 bg left i mask) r 0 == 0) ≡ false
      → ((get_or mask r 0 == 0) ≡ false)
        × (i ≤ r → r < i + 8 * left → get_or t (b0 + r) 0 ≡ get_or t (bg + r) 0)
  unfolding clear_words word_step
  clear_words-kept b0 bg zero i r mask room h = (h, λ lo hi. absurd (omega arith))
  clear_words-kept b0 bg (suc left) i r mask room h =
      let (middle, rest) =
        clear_words-kept b0 bg left (i + 8) r (word_step t bytes b0 bg i mask)
          (omega (arith, length-word_step b0 bg i mask)) h in
      let (before, here) = word_step-kept t bytes b0 bg i r mask (omega arith) middle in
      (
        before,
        λ lo hi. elim (Bool-cases (ltb r (i + 8))) [
          | inl word ↦ here lo (ground arith)
          | inr later ↦ rest (ground arith) (omega arith)
        ],
      )

  clear_blocks-kept :
      (base left g r : ℕ) (mask : List ℕ)
      → 256 ≤ length mask
      → r < 256
      → (get_or (clear_blocks t base left g mask) r 0 == 0) ≡ false
      → ((get_or mask r 0 == 0) ≡ false)
        × All
            (λ b. get_or t (b + r) 0 ≡ get_or t (base + r) 0)
            (block_ends left (base + g * block_size))
  unfolding clear_blocks block_ends
  clear_blocks-kept base zero g r mask room hr h = (h, tt)
  clear_blocks-kept base (suc left) g r mask room hr h =
      let bg = base + g * block_size in
      let words = clear_words t base bg 32 0 mask in
      let (middle, rest) =
        clear_blocks-kept base left (g + 1) r words
          (omega (arith, length-clear_words base bg 32 0 mask)) hr h in
      let (before, here) = clear_words-kept base bg 32 0 r mask (omega arith) middle in
      let next : bg + block_size ≡ base + (g + 1) * block_size = omega arith in
      (before, (sym (here (omega arith) (omega arith)), rw next rest))

  -- In a text of bytes, a column below 256 that the mask of one or more blocks leaves constant has one
  -- byte in all the blocks.
  pub constant_mask-All :
      (base blocks r : ℕ)
      → 1 ≤ blocks
      → r < 256
      → (get_or (constant_mask t base blocks) r 0 == 0) ≡ false
      → All (λ b. get_or t (b + r) 0 ≡ get_or t (base + r) 0) (block_ends blocks base)
  unfolding constant_mask block_ends
  constant_mask-All base zero r some hr h = absurd (omega arith)
  constant_mask-All base (suc n) r some hr h =
      let left : suc n - 1 ≡ n = omega arith in
      let first : base + 1 * block_size ≡ base + block_size = omega arith in
      let (_, rest) =
        clear_blocks-kept base n 1 r (replicate block_size 1)
          (omega (arith, length-replicate {A = ℕ} block_size 1)) hr (rw left at h) in
      (refl, rw first at rest)
