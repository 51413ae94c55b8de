-- ===== src/Difficulty/Limbs.antt =====
-- The limbs of NewTarget and the words of Meets as the digits of numbers.
use native.Mathlib.Nat.{pow-suc, pow-le-pow_right, div-add-mod}
use derostorm.Base.{
  ℕ, zero, suc, ◌+◌, ◌-◌, ◌*◌, ◌/◌, ◌%◌, ◌^◌, ◌≤◌, ◌<◌, List, [], ◌∷◌, ◌≡◌, refl, sym, ap, ◌∙◌,
  arith, ◌==◌, Bool-cases, inl, inr, length, take, drop, replicate, All, All-append, All-take,
  All-drop, length-append, length-take, length-drop, length-replicate, drop-drop, take-append-drop,
  ==_iff,
}
use derostorm.Base.Bytes.{
  IsByte, from_le, from_be, from_le-append, from_le-lt, from_be-append, from_be-lt,
}
use derostorm.Difficulty.{uint64_at, minimal_bytes, right_aligned}

-- The numbers that four 64-bit words spell, the first the least significant.
abbrev pub join_words : ℕ → ℕ → ℕ → ℕ → ℕ
join_words w0 w1 w2 w3 = w0 + 2 ^ 64 * w1 + 2 ^ 128 * w2 + 2 ^ 192 * w3

-- Eight more bytes of a little-endian number.
from_le-word :
    (xs : List ℕ) → 8 ≤ length xs → from_le xs ≡ from_le (take 8 xs) + 2 ^ 64 * from_le (drop 8 xs)
from_le-word xs h =
    ap from_le (sym (take-append-drop 8 xs))
    ∙ from_le-append (take 8 xs) (drop 8 xs)
    ∙ ap (λ n. from_le (take 8 xs) + 256 ^ n * from_le (drop 8 xs)) {y = 8}
        (omega (arith, length-take 8 xs))

from_be-word :
    (xs : List ℕ) (k : ℕ)
    → length xs ≡ 8 + k
    → from_be xs ≡ from_be (take 8 xs) * 256 ^ k + from_be (drop 8 xs)
from_be-word xs k h =
    ap from_be (sym (take-append-drop 8 xs))
    ∙ from_be-append (take 8 xs) (drop 8 xs)
    ∙ ap (λ n. from_be (take 8 xs) * 256 ^ n + from_be (drop 8 xs)) {y = k}
        (omega (arith, length-drop 8 xs))

from_le-nil : (xs : List ℕ) → length xs ≡ 0 → from_le xs ≡ 0
from_le-nil [] h = refl
from_le-nil (x ∷ xs) h = absurd (omega arith)

from_be-nil : (xs : List ℕ) → length xs ≡ 0 → from_be xs ≡ 0
from_be-nil [] h = refl
from_be-nil (x ∷ xs) h = absurd (omega arith)

-- The four words that Meets loads spell the hash.
pub join_words-uint64_at :
    (h : List ℕ)
    → length h ≡ 32
    → join_words (uint64_at h 0) (uint64_at h 8) (uint64_at h 16) (uint64_at h 24) ≡ from_le h
join_words-uint64_at h e = omega (
  arith,
  from_le-word h,
  from_le-word (drop 8 h),
  from_le-word (drop 16 h),
  from_le-word (drop 24 h),
  length-drop 8 h,
  length-drop 16 h,
  length-drop 24 h,
  from_le-nil (drop 32 h),
  length-drop 32 h,
  ap from_le (drop-drop 8 8 h),
  ap from_le (drop-drop 16 8 h),
  ap from_le (drop-drop 24 8 h),
)

-- The four words of a big-endian buffer of 32 bytes.
pub join_words-from_be :
    (buf : List ℕ)
    → length buf ≡ 32
    → join_words
        (from_be (take 8 (drop 24 buf)))
        (from_be (take 8 (drop 16 buf)))
        (from_be (take 8 (drop 8 buf)))
        (from_be (take 8 buf))
      ≡ from_be buf
join_words-from_be buf e = omega (
  arith,
  from_be-word buf 24,
  from_be-word (drop 8 buf) 16,
  from_be-word (drop 16 buf) 8,
  from_be-word (drop 24 buf) 0,
  length-drop 8 buf,
  length-drop 16 buf,
  length-drop 24 buf,
  from_be-nil (drop 32 buf),
  length-drop 32 buf,
  ap from_be (drop-drop 8 8 buf),
  ap from_be (drop-drop 16 8 buf),
  ap from_be (drop-drop 24 8 buf),
)

pow256_mono : (n : ℕ) → n ≤ 8 → 256 ^ n ≤ 2 ^ 64
pow256_mono n h = pow-le-pow_right {n = 256} (omega arith) h

pub uint64_at-lt : (h : List ℕ) (i : ℕ) → All IsByte h → uint64_at h i < 2 ^ 64
uint64_at-lt h i b = omega (
  arith,
  from_le-lt (take 8 (drop i h)) (All-take IsByte 8 _ (All-drop IsByte i h b)),
  pow256_mono (length (take 8 (drop i h))),
  length-take 8 (drop i h),
)

pub from_be-take_lt : (buf : List ℕ) → All IsByte buf → from_be (take 8 buf) < 2 ^ 64
from_be-take_lt buf b = omega (
  arith,
  from_be-lt (take 8 buf) (All-take IsByte 8 _ b),
  pow256_mono (length (take 8 buf)),
  length-take 8 buf,
)

-- The digits of a number below 256 ^ fuel, in front of those that are there.
from_be-minimal_bytes :
    (fuel n : ℕ) (out : List ℕ)
    → n < 256 ^ fuel
    → from_be (minimal_bytes fuel n out) ≡ n * 256 ^ length out + from_be out
unfolding minimal_bytes
from_be-minimal_bytes zero n out h = let e : n ≡ 0 = omega arith in rw e (omega arith)
from_be-minimal_bytes (suc fuel) n out h = elim (Bool-cases (n == 0)) [
  | inl done ↦ rw (done, minimal_bytes) (let e : n ≡ 0 = (==_iff n 0).0 done in rw e (omega arith))
  | inr more ↦
      rw (more, minimal_bytes)
        (from_be-minimal_bytes fuel (n / 256) ((n % 256) ∷ out)
            (let h' : n < 256 ^ fuel * 256 = rw (pow-suc 256 fuel) at h in omega arith)
          ∙ rw (pow-suc 256 (length out)) (
              omega (
                arith,
                from_be-append ((n % 256) ∷ []) out,
                ap (λ (m : ℕ). m * 256 ^ length out) (div-add-mod n 256),
              )))
]

length-minimal_bytes :
    (fuel n : ℕ) (out : List ℕ) → length (minimal_bytes fuel n out) ≤ fuel + length out
unfolding minimal_bytes
length-minimal_bytes zero n out = omega arith
length-minimal_bytes (suc fuel) n out =
    ground (arith, length-minimal_bytes fuel (n / 256) ((n % 256) ∷ out))

minimal_bytes-IsByte :
    (fuel n : ℕ) (out : List ℕ) → All IsByte out → All IsByte (minimal_bytes fuel n out)
unfolding minimal_bytes
minimal_bytes-IsByte zero n out h = h
minimal_bytes-IsByte (suc fuel) n out h =
    let rest = minimal_bytes-IsByte fuel (n / 256) ((n % 256) ∷ out) (omega arith, h) in
    elim (Bool-cases (n == 0)) [
      | inl done ↦ rw (done, minimal_bytes) h
      | inr more ↦ rw (more, minimal_bytes) rest
    ]

replicate-IsByte : (n : ℕ) → All IsByte (replicate n 0)
replicate-IsByte zero = tt
replicate-IsByte (suc n) = (omega arith, replicate-IsByte n)

from_be-replicate : (n : ℕ) → from_be (replicate n 0) ≡ 0
from_be-replicate zero = refl
from_be-replicate (suc n) = from_be-replicate n

-- The buffer of NewTarget: 32 bytes that spell the quotient.
pub target_buffer :
    (t : ℕ)
    → t < 2 ^ 256
    → let buf = right_aligned (minimal_bytes 32 t []) in
      (length buf ≡ 32) × All IsByte buf × (from_be buf ≡ t)
unfolding right_aligned
target_buffer t h =
    let b = minimal_bytes 32 t [] in
    let pad = 32 - length b in
    (
      omega (
        arith,
        length-append (replicate pad 0) b,
        length-replicate {A = ℕ} pad 0,
        length-minimal_bytes 32 t [],
      ),
      All-append IsByte (replicate pad 0) b (replicate-IsByte pad)
          (minimal_bytes-IsByte 32 t [] tt),
      omega (
        arith,
        from_be-append (replicate pad 0) b,
        ap (λ (m : ℕ). m * 256 ^ length b) (from_be-replicate pad),
        from_be-minimal_bytes 32 t [] h,
      ),
    )
