-- ===== src/Engine/Work.antt =====
-- The work of one job: the first part of the loop of RunMiner in cmd/derostorm/engine.go, and the
-- tags of the nonce space of cmd/derostorm/gpu_worker.go. block.MINIBLOCK_SIZE is the parameter
-- `size`, and a buffer is a list of bytes.
pub mod Nonce
use derostorm.Base.{
  ℕ, zero, suc, ◌+◌, ◌-◌, ◌*◌, ◌/◌, ◌%◌, ◌^◌, ◌≤◌, ◌<◌, Bool, true, false, ◌||◌, ◌&&◌, not, Option,
  none, some, List, [], ◌∷◌, ◌++◌, ltb, leb, ◌==◌, if◌then◌else◌, length, get_or, set, take, drop,
  replicate,
}
use derostorm.Base.Bytes.{from_be}
use derostorm.Base.Int.{ℤ, pos, negsuc, neg}
use derostorm.Difficulty.{Target, new_target}

-- The value of a hexadecimal digit.
unfoldable pub hex_value : ℕ → Option ℕ
hex_value c =
    if leb b'0' c && leb c b'9'
    then some (c - b'0')
    else if leb b'a' c && leb c b'f'
    then some (c - b'a' + 10)
    else if leb b'A' c && leb c b'F'
    then some (c - b'A' + 10)
    else none

-- What hex.Decode(dst, src) does: it returns a count and whether there was an error, with the
-- buffer as it left it, or it panics at the first write past the end of dst.
pub data Decoded : Type 0 where
  panic : Decoded
  decoded : ℕ → Bool → List ℕ → Decoded

pub hex_loop : List ℕ → ℕ → List ℕ → Decoded
unfolding hex_value
hex_loop [] i dst = decoded i false dst
hex_loop (p ∷ []) i dst = decoded i true dst
hex_loop (p ∷ q ∷ src) i dst = elim (hex_value p) [
  | none ↦ decoded i true dst
  | some a ↦ elim (hex_value q) [
    | none ↦ decoded i true dst
    | some b ↦
        (let rest = hex_loop src (i + 1) (set dst i (a * 16 + b)) in
          if ltb i (length dst) then rest else panic)
  ]
]

-- big.Int.SetString(s, 10): an optional sign, then one or more digits.
unfoldable pub decimal_value : List ℕ → ℕ → Option ℕ
decimal_value [] n = some n
decimal_value (c ∷ s) n =
    let rest = decimal_value s (n * 10 + (c - b'0')) in
    if leb b'0' c && leb c b'9' then rest else none

unfoldable pub unsigned_string : List ℕ → Option ℕ
unfolding decimal_value
unsigned_string [] = none
unsigned_string (c ∷ s) = decimal_value (c ∷ s) 0

unfoldable pub set_string : List ℕ → Option ℤ
unfolding unsigned_string
set_string [] = none
set_string (c ∷ s) =
    if c == b'-'
    then elim (unsigned_string s) [ none ↦ none | some n ↦ some (neg (pos n)) ]
    else if c == b'+'
    then elim (unsigned_string s) [ none ↦ none | some n ↦ some (pos n) ]
    else elim (unsigned_string (c ∷ s)) [ none ↦ none | some n ↦ some (pos n) ]

-- copy(dst[at:], src)
unfoldable pub copy_at : List ℕ → ℕ → List ℕ → List ℕ
copy_at dst at src = take at dst ++ (take (length dst - at) src ++ drop (at + length src) dst)

-- binary.BigEndian.PutUint32(dst[at:], v)
unfoldable pub put_uint32 : List ℕ → ℕ → ℕ → List ℕ
put_uint32 dst at v =
    set
      (set (set (set dst at (v / 2 ^ 24 % 256)) (at + 1) (v / 2 ^ 16 % 256)) (at + 2)
        (v / 2 ^ 8 % 256))
      (at + 3) (v % 256)

-- byte(tid) and gpuNonceTag(device).
unfoldable pub cpu_tag : ℕ → ℕ
cpu_tag tid = tid % 256

unfoldable pub gpu_tag : ℕ → ℕ
gpu_tag device = (0xf0 + device) % 256

-- What one round of the outer loop comes to. RunMiner and RunGPUMiner sleep and go round again in
-- every case but the last, and a panic ends the process.
pub data Setup : Type 0 where
  no_blob : Setup
  crash : Setup
  bad_blob : ℕ → Setup
  bad_difficulty : Setup
  bad_version : ℕ → Setup
  ready : List ℕ → ℕ → Target → Setup

-- The checks after the blob was decoded, in the order of the code.
unfoldable pub check_work : List ℕ → List ℕ → Setup
check_work difficulty work = elim (set_string difficulty) [
  | none ↦ bad_difficulty
  | some (negsuc n) ↦ bad_difficulty
  | some (pos d) ↦ elim (new_target d) [
    | none ↦ bad_difficulty
    | some target ↦
        if not (get_or work 0 0 % 16 == 1)
        then bad_version (get_or work 0 0 % 32)
        else ready work (from_be (take 8 work) % 2 ^ 40) target
  ]
]

module _ (size : ℕ) where
  -- copy(work[size-12:], randomBuf[:]); work[size-1] = tag
  unfoldable pub stamp : ℕ → List ℕ → List ℕ → List ℕ
  unfolding copy_at
  stamp tag random work = set (copy_at work (size - 12) random) (size - 1) tag

  -- From the job's blob and difficulty, and the buffer that the worker owns, to the work that is
  -- mined. NewTarget is reached for a positive difficulty only.
  unfoldable pub setup : ℕ → List ℕ → List ℕ → List ℕ → List ℕ → Setup
  unfolding hex_loop stamp check_work
  setup tag random buffer blob difficulty =
      if length blob == 0 then no_blob else elim (hex_loop blob 0 buffer) [
        | panic ↦ crash
        | decoded n failed work ↦
            if failed || not (n == size)
            then bad_blob n
            else check_work difficulty (stamp tag random work)
      ]

  -- The work with a nonce in it: PutUint32(work[size-5:], i).
  unfoldable pub with_nonce : List ℕ → ℕ → List ℕ
  unfolding put_uint32
  with_nonce work i = put_uint32 work (size - 5) i
