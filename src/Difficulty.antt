-- ===== src/Difficulty.antt =====
-- cmd/derostorm/difficulty.go and cmd/derostorm/target.go: the proof-of-work test. A crypto.Hash is
-- a list of 32 bytes, a big.Int is a native number, a panic is `none`.
pub mod HashBytes
pub mod Limbs
pub mod Meets
use derostorm.Base.{
  ℕ, zero, suc, ◌+◌, ◌-◌, ◌*◌, ◌/◌, ◌%◌, ◌^◌, Bool, true, false, Option, none, some, List, [], ◌∷◌,
  ◌++◌, leb, ltb, ◌==◌, if◌then◌else◌, not, length, get_or, set, take, drop, replicate, ◌≡◌, All,
}
use derostorm.Base.Bytes.{IsByte, from_le, from_be}

-- A [32]byte.
abbrev pub IsHash : List ℕ → Type 0
IsHash h = (length h ≡ 32) × All IsByte h

-- oneLsh256
abbrev pub one_lsh_256 : ℕ
one_lsh_256 = 2 ^ 256

-- The loop of HashToBig, `rounds` rounds from `i`: buf[i], buf[blen-1-i] = buf[blen-1-i], buf[i].
pub swap_rounds : ℕ → ℕ → ℕ → List ℕ → List ℕ
swap_rounds zero i blen buf = buf
swap_rounds (suc rounds) i blen buf =
    swap_rounds rounds (i + 1) blen
      (set (set buf i (get_or buf (blen - 1 - i) 0)) (blen - 1 - i) (get_or buf i 0))

unfoldable pub hash_to_big : List ℕ → ℕ
unfolding swap_rounds
hash_to_big buf = let blen = length buf in from_be (swap_rounds (blen / 2) 0 blen buf)

-- ConvertDifficultyToBig and ConvertIntegerDifficultyToBig; a zero difficulty panics.
unfoldable pub convert_difficulty_to_big : ℕ → Option ℕ
convert_difficulty_to_big difficulty =
    if difficulty == 0 then none else some (one_lsh_256 / (difficulty + 0))

unfoldable pub convert_integer_difficulty_to_big : ℕ → Option ℕ
convert_integer_difficulty_to_big difficulty =
    if difficulty == 0 then none else some (one_lsh_256 / difficulty)

unfoldable pub check_pow_hash_big : List ℕ → ℕ → Option Bool
unfolding convert_integer_difficulty_to_big
check_pow_hash_big pow_hash difficulty =
    let big_pow_hash = hash_to_big pow_hash in
    elim (convert_integer_difficulty_to_big difficulty) [
      | none ↦ none
      | some big_difficulty ↦ some (leb big_pow_hash big_difficulty)
    ]

-- type Target; `limbs` holds limb[0] .. limb[3], limb[3] the most significant.
pub record Target : Type 0 where
  pub limb0 : ℕ
  pub limb1 : ℕ
  pub limb2 : ℕ
  pub limb3 : ℕ
  pub all : Bool

-- big.Int.Bytes: the bytes of a number, big-endian and with no leading zero. The number is below
-- 2^256 where it is called, so that 32 rounds reach its last digit.
unfoldable pub minimal_bytes : ℕ → ℕ → List ℕ → List ℕ
minimal_bytes zero n out = out
minimal_bytes (suc fuel) n out = elim (n == 0) [
  | true ↦ out
  | false ↦ minimal_bytes fuel (n / 256) ((n % 256) ∷ out)
]

-- var buf [32]byte; copy(buf[32-len(b):], b)
unfoldable pub right_aligned : List ℕ → List ℕ
right_aligned b = replicate (32 - length b) 0 ++ b

-- tg.limb[3] .. tg.limb[0]: binary.BigEndian.Uint64 of the four parts of the buffer.
unfoldable pub target_of_buffer : List ℕ → Target
target_of_buffer buf = record {
  limb3 = from_be (take 8 buf);
  limb2 = from_be (take 8 (drop 8 buf));
  limb1 = from_be (take 8 (drop 16 buf));
  limb0 = from_be (take 8 (drop 24 buf));
  all = false;
}

unfoldable pub new_target : ℕ → Option Target
unfolding minimal_bytes right_aligned target_of_buffer
new_target difficulty =
    if difficulty == 0
    then none
    else (let t = one_lsh_256 / difficulty in
        if ltb t (2 ^ 256)
        then some (target_of_buffer (right_aligned (minimal_bytes 32 t [])))
        else some (record { limb0 = 0; limb1 = 0; limb2 = 0; limb3 = 0; all = true }))

-- binary.LittleEndian.Uint64(h[from : from+8])
abbrev pub uint64_at : List ℕ → ℕ → ℕ
uint64_at h from = from_le (take 8 (drop from h))

unfoldable pub meets : Target → List ℕ → Bool
meets t h =
    if t.all
    then true
    else if not (uint64_at h 24 == t.limb3)
    then ltb (uint64_at h 24) t.limb3
    else if not (uint64_at h 16 == t.limb2)
    then ltb (uint64_at h 16) t.limb2
    else if not (uint64_at h 8 == t.limb1)
    then ltb (uint64_at h 8) t.limb1
    else leb (uint64_at h 0) t.limb0
