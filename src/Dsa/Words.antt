-- ===== src/Dsa/Words.antt =====
-- The packed words of internal/dsa/dsa.go: a descriptor's offset and length in one uint32, its sort
-- key and its column in another.
use Prim.Native.Nat.{bit_or}
use derostorm.Base.{
  ℕ, zero, suc, ◌+◌, ◌*◌, ◌/◌, ◌%◌, ◌^◌, ◌≤◌, ◌<◌, ◌≡◌, refl, arith, List, [], ◌∷◌, ltb, leb,
  if◌then◌else◌, length, get_or, All, inl, inr, Bool-cases,
}
use native.Mathlib.Nat.{add-zero}
use derostorm.Base.Bits.{bit_or-add, bit_or-add_low}
use derostorm.Base.Bytes.{IsByte}

abbrev pub block_size : ℕ
block_size = 256

abbrev pub key_bytes : ℕ
key_bytes = 3

abbrev pub len_bits : ℕ
len_bits = 12

-- uint32 x << k
abbrev pub shl32 : ℕ → ℕ → ℕ
shl32 x k = (x * 2 ^ k) % 2 ^ 32

pub record Desc : Type 0 where
  pub key : ℕ
  pub packed : ℕ

unfoldable pub pack : ℕ → ℕ → ℕ
pack o n = bit_or (shl32 o len_bits) n

-- lenMask and keyMask are the numbers of low ones, so that `&` with them is a remainder.
unfoldable pub off : Desc → ℕ
off d = d.packed / 2 ^ len_bits

unfoldable pub dlen : Desc → ℕ
dlen d = d.packed % 2 ^ len_bits

-- d.key & keyMask and d.key >> 24, as SuffixArray reads them.
unfoldable pub sort_key : Desc → ℕ
sort_key d = d.key % 2 ^ 24

unfoldable pub column : Desc → ℕ
column d = d.key / 2 ^ 24

-- desc{key: key | rel<<24, packed: pack(arenaOff, n)}, as emitRun and SuffixArray build it.
unfoldable pub make_desc : ℕ → ℕ → ℕ → ℕ → Desc
unfolding pack
make_desc key rel arena_off n = record {
  key = bit_or key (shl32 rel 24);
  packed = pack arena_off n;
}

-- Every field of a descriptor is read back as it was stored, for an arena offset below 2^20, a
-- list of at most 4095 positions, a key of 24 bits and a column below 256.
pub make_desc-fields :
    (key rel o n : ℕ)
    → key < 2 ^ 24
    → rel < 256
    → o < 2 ^ 20
    → n < 2 ^ 12
    → (off (make_desc key rel o n) ≡ o)
      × (dlen (make_desc key rel o n) ≡ n)
      × (sort_key (make_desc key rel o n) ≡ key)
      × (column (make_desc key rel o n) ≡ rel)
unfolding make_desc off dlen sort_key column
make_desc-fields key rel o n hk hr ho hn =
    let o' : shl32 o 12 ≡ o * 2 ^ 12 = omega arith in
    let r' : shl32 rel 24 ≡ rel * 2 ^ 24 = omega arith in
    rw (o', r', bit_or-add 12 o n hn, bit_or-add_low 24 rel key hk) (omega arith)

-- The loop of key32 near the end of the text: rounds left, i, k.
pub key32_tail : List ℕ → ℕ → ℕ → ℕ → ℕ → ℕ → ℕ
key32_tail t n p zero i k = k
key32_tail t n p (suc rounds) i k =
    key32_tail t n p rounds (i + 1)
      (if ltb (p + i) n then bit_or (shl32 k 8) (get_or t (p + i) 0) else shl32 k 8)

-- key32: the three bytes at p as a big-endian number, with zeros past the end.
unfoldable pub key32 : List ℕ → ℕ → ℕ → ℕ
unfolding key32_tail
key32 t n p =
    if leb (p + key_bytes) n
    then bit_or (bit_or (shl32 (get_or t p 0) 16) (shl32 (get_or t (p + 1) 0) 8))
        (get_or t (p + 2) 0)
    else key32_tail t n p 3 0 0

-- uint32(c)<<keyShift | key>>8, the key of the position before.
unfoldable pub slide_key : ℕ → ℕ → ℕ
slide_key c key = bit_or (shl32 c 16) (key / 2 ^ 8)

-- u64le: eight bytes, the first the least significant.
unfoldable pub u64le : List ℕ → ℕ → ℕ
u64le t p =
    bit_or
      (bit_or
        (bit_or
          (bit_or
            (bit_or
              (bit_or (bit_or (get_or t p 0) (get_or t (p + 1) 0 * 2 ^ 8))
                (get_or t (p + 2) 0 * 2 ^ 16))
              (get_or t (p + 3) 0 * 2 ^ 24))
            (get_or t (p + 4) 0 * 2 ^ 32))
          (get_or t (p + 5) 0 * 2 ^ 40))
        (get_or t (p + 6) 0 * 2 ^ 48))
      (get_or t (p + 7) 0 * 2 ^ 56)

pub get_or-IsByte : (t : List ℕ) (i : ℕ) → All IsByte t → get_or t i 0 < 256
get_or-IsByte [] i h = omega arith
get_or-IsByte (x ∷ t) zero h = h.0
get_or-IsByte (x ∷ t) (suc i) h = get_or-IsByte t i h.1

pub get_or_past : (t : List ℕ) (i : ℕ) → length t ≤ i → get_or t i 0 ≡ 0
get_or_past [] i h = refl
get_or_past (x ∷ t) zero h = absurd (omega arith)
get_or_past (x ∷ t) (suc i) h = get_or_past t i (omega arith)

-- A round of the tail loop: the byte there, or zero.
key32_tail_round :
    (t : List ℕ) (p i k : ℕ)
    → All IsByte t
    → k < 2 ^ 24
    → (if ltb (p + i) (length t) then bit_or (shl32 k 8) (get_or t (p + i) 0) else shl32 k 8)
      ≡ k * 256 + get_or t (p + i) 0
key32_tail_round t p i k h lt =
    let exact : shl32 k 8 ≡ k * 2 ^ 8 = omega arith in
    rw (exact, bit_or-add 8 k (get_or t (p + i) 0) (get_or-IsByte t (p + i) h))
      (ground (arith, get_or_past t (p + i)))

three_bytes :
    (b0 b1 b2 : ℕ)
    → b0 < 256
    → b1 < 256
    → b2 < 256
    → bit_or (bit_or (shl32 b0 16) (shl32 b1 8)) b2 ≡ b0 * 65536 + b1 * 256 + b2
three_bytes b0 b1 b2 h0 h1 h2 =
    let e0 : shl32 b0 16 ≡ b0 * 2 ^ 16 = omega arith in
    let e1 : shl32 b1 8 ≡ b1 * 2 ^ 8 = omega arith in
    let high : b0 * 2 ^ 16 + b1 * 2 ^ 8 ≡ (b0 * 256 + b1) * 2 ^ 8 = omega arith in
    rw
      (
        e0,
        e1,
        bit_or-add 16 b0 (b1 * 2 ^ 8) (omega arith),
        high,
        bit_or-add 8 (b0 * 256 + b1) b2 h2,
      )
      (omega arith)

-- On every position, near the end or not, key32 is the big-endian number of the three bytes there,
-- where a byte past the end counts as zero.
pub key32-bytes :
    (t : List ℕ) (p : ℕ)
    → All IsByte t
    → key32 t (length t) p ≡ get_or t p 0 * 65536 + get_or t (p + 1) 0 * 256 + get_or t (p + 2) 0
unfolding key32
key32-bytes t p h =
    let b0 = get_or-IsByte t p h in
    let b1 = get_or-IsByte t (p + 1) h in
    let b2 = get_or-IsByte t (p + 2) h in
    elim (Bool-cases (leb (p + key_bytes) (length t))) [
      | inl inside ↦
          rw inside (three_bytes (get_or t p 0) (get_or t (p + 1) 0) (get_or t (p + 2) 0) b0 b1 b2)
      | inr near_end ↦
          rw (near_end, key32_tail_round t p 0 0 h (omega arith), add-zero p)
            (rw (key32_tail_round t p 1 (0 * 256 + get_or t p 0) h (omega arith)) (
              rw
                (key32_tail_round t p 2 ((0 * 256 + get_or t p 0) * 256 + get_or t (p + 1) 0) h
                  (omega arith))
                (omega arith)))
    ]

-- Sliding the byte in front into a position's key gives the key of the position before, so that
-- emitRun and the tail walk read each byte once.
pub slide_key-key32 :
    (t : List ℕ) (p : ℕ)
    → All IsByte t
    → slide_key (get_or t p 0) (key32 t (length t) (p + 1)) ≡ key32 t (length t) p
unfolding slide_key
slide_key-key32 t p h =
    let b0 = get_or-IsByte t p h in
    let b1 = get_or-IsByte t (p + 1) h in
    let b2 = get_or-IsByte t (p + 2) h in
    let b3 = get_or-IsByte t (p + 1 + 2) h in
    let e2 : p + 1 + 1 ≡ p + 2 = omega arith in
    let e0 : shl32 (get_or t p 0) 16 ≡ get_or t p 0 * 2 ^ 16 = omega arith in
    let rest : ℕ =
      (get_or t (p + 1) 0 * 65536 + get_or t (p + 2) 0 * 256 + get_or t (p + 1 + 2) 0) / 2 ^ 8 in
    rw
      (
        key32-bytes t (p + 1) h,
        key32-bytes t p h,
        e2,
        e0,
        bit_or-add 16 (get_or t p 0) rest (omega arith),
      )
      (omega arith)
