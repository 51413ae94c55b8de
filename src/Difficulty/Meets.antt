-- ===== src/Difficulty/Meets.antt =====
-- Target.Meets against CheckPowHashBig.
use derostorm.Base.{
  ℕ, ◌/◌, ◌^◌, ◌<◌, List, [], ◌≡◌, refl, ap, ◌∙◌, arith, some, true, false, ◌==◌, ltb, leb, inl,
  inr, Bool-cases, length, drop, All, All-drop, ltb→lt,
}
use derostorm.Base.Bytes.{IsByte, from_le, from_be, from_le-lt}
use derostorm.Difficulty.{
  IsHash, Target, one_lsh_256, check_pow_hash_big, new_target, meets, target_of_buffer,
  minimal_bytes, right_aligned,
}
use derostorm.Difficulty.HashBytes.{hash_to_big-from_le}
use derostorm.Difficulty.Limbs.{
  join_words, join_words-uint64_at, join_words-from_be, uint64_at-lt, from_be-take_lt,
  target_buffer,
}

-- The number that a target stands for.
abbrev pub target_value : Target → ℕ
target_value t = join_words t.limb0 t.limb1 t.limb2 t.limb3

pub record Is64 (t : Target) : Type 0 where
  pub fits0 : t.limb0 < 2 ^ 64
  pub fits1 : t.limb1 < 2 ^ 64
  pub fits2 : t.limb2 < 2 ^ 64
  pub fits3 : t.limb3 < 2 ^ 64

-- Comparing the words from the most significant down compares the numbers.
meets-leb :
    (t : Target) (h : List ℕ)
    → IsHash h
    → Is64 t
    → t.all ≡ false
    → meets t h ≡ leb (from_le h) (target_value t)
unfolding meets
meets-leb t h (len, bytes) fits a = rw (← join_words-uint64_at h len) (
    ground (
      arith,
      uint64_at-lt h 0 bytes,
      uint64_at-lt h 8 bytes,
      uint64_at-lt h 16 bytes,
      uint64_at-lt h 24 bytes,
    ))

-- A buffer of 32 bytes is kept exactly in the four limbs.
target_of_buffer-exact :
    (buf : List ℕ)
    → length buf ≡ 32
    → All IsByte buf
    → Is64 (target_of_buffer buf) × (target_value (target_of_buffer buf) ≡ from_be buf)
unfolding target_of_buffer
target_of_buffer-exact buf len bytes = (
  record {
    fits0 = from_be-take_lt (drop 24 buf) (All-drop IsByte 24 buf bytes);
    fits1 = from_be-take_lt (drop 16 buf) (All-drop IsByte 16 buf bytes);
    fits2 = from_be-take_lt (drop 8 buf) (All-drop IsByte 8 buf bytes);
    fits3 = from_be-take_lt buf bytes;
  },
  join_words-from_be buf len,
)

-- Meets on the target built from a quotient below 2^256 compares with the quotient.
meets-quotient :
    (h : List ℕ) (q : ℕ)
    → IsHash h
    → q < 2 ^ 256
    → meets (target_of_buffer (right_aligned (minimal_bytes 32 q []))) h ≡ leb (from_le h) q
meets-quotient h q hash lt =
    let (len, bytes, value) = target_buffer q lt in
    let (fits, exact) = target_of_buffer-exact _ len bytes in
    meets-leb _ h hash fits (unfold target_of_buffer in refl) ∙ ap (leb (from_le h)) (exact ∙ value)

-- A hash is below 2^256.
from_le-hash_lt : (h : List ℕ) → IsHash h → from_le h < 2 ^ 256
from_le-hash_lt h (len, bytes) = rw len at (from_le-lt h bytes)

-- For every hash and every difficulty but zero, NewTarget returns a target, and the
-- allocation-free test on it gives the verdict of the big.Int reference test.
pub meets-check_pow_hash_big :
    (h : List ℕ) (d : ℕ)
    → IsHash h
    → 0 < d
    → (t : Target) × (new_target d ≡ some t) × (check_pow_hash_big h d ≡ some (meets t h))
unfolding check_pow_hash_big new_target
meets-check_pow_hash_big h d hash pos =
    let nz : (d == 0) ≡ false = ground arith in
    let q = one_lsh_256 / d in
    elim (Bool-cases (ltb q (2 ^ 256))) [
      | inl fits ↦ (
        target_of_buffer (right_aligned (minimal_bytes 32 q [])),
        rw (nz, fits),
        ground (arith, hash_to_big-from_le h, meets-quotient h q hash (ltb→lt q (2 ^ 256) fits)),
      )
      | inr large ↦ (
        record { limb0 = 0; limb1 = 0; limb2 = 0; limb3 = 0; all = true },
        rw (nz, large),
        unfold meets in ground (arith, hash_to_big-from_le h, from_le-hash_lt h hash),
      )
    ]
