-- ===== src/Dsa/Emit/Mask.antt =====
-- One bit of the mask of emitRun in internal/dsa/dsa.go, and the bytes of the column it stands for.
use Prim.Native.Nat.{bit_or, bit_xor}
use derostorm.Base.{
  ℕ, zero, suc, ◌+◌, ◌-◌, ◌*◌, ◌/◌, ◌%◌, ◌^◌, ◌≤◌, ◌<◌, ◌≡◌, refl, sym, ap, ◌∙◌, arith, false, List,
  [], ◌∷◌, ◌==◌, ==_iff, if◌then◌else◌, length, length-set, get_or, set, All, inl, inr, Bool-cases,
}
use native.Mathlib.Nat.{zero-div}
use derostorm.Base.Bits.{bit_or-add_low}
use derostorm.Base.Bytes.{IsByte}
use derostorm.Base.Reverse.{get_or-set}
use derostorm.Base.Xor.{bit_xor-same_byte}
use derostorm.Dsa.Words.{u64le, get_or-IsByte}
use derostorm.Dsa.Emit.Constant.{clear_bytes}

-- Eight bytes in one number, the last byte on top.
eight_bytes :
    (b0 b1 b2 b3 b4 b5 b6 b7 : ℕ)
    → b0 < 256
    → b1 < 256
    → b2 < 256
    → b3 < 256
    → b4 < 256
    → b5 < 256
    → b6 < 256
    → b7 < 256
    → bit_or
        (bit_or
          (bit_or
            (bit_or
              (bit_or (bit_or (bit_or b0 (b1 * 2 ^ 8)) (b2 * 2 ^ 16)) (b3 * 2 ^ 24))
              (b4 * 2 ^ 32))
            (b5 * 2 ^ 40))
          (b6 * 2 ^ 48))
        (b7 * 2 ^ 56)
      ≡ b0 + 256 * (b1 + 256 * (b2 + 256 * (b3 + 256 * (b4 + 256 * (b5 + 256 * (b6 + 256 * b7))))))
eight_bytes b0 b1 b2 b3 b4 b5 b6 b7 h0 h1 h2 h3 h4 h5 h6 h7 =
    let s1 = bit_or-add_low 8 b1 b0 h0 in
    let x1 = b1 * 2 ^ 8 + b0 in
    let s2 = bit_or-add_low 16 b2 x1 (omega arith) in
    let x2 = b2 * 2 ^ 16 + x1 in
    let s3 = bit_or-add_low 24 b3 x2 (omega arith) in
    let x3 = b3 * 2 ^ 24 + x2 in
    let s4 = bit_or-add_low 32 b4 x3 (omega arith) in
    let x4 = b4 * 2 ^ 32 + x3 in
    let s5 = bit_or-add_low 40 b5 x4 (omega arith) in
    let x5 = b5 * 2 ^ 40 + x4 in
    let s6 = bit_or-add_low 48 b6 x5 (omega arith) in
    let x6 = b6 * 2 ^ 48 + x5 in
    let s7 = bit_or-add_low 56 b7 x6 (omega arith) in rw (s1, s2, s3, s4, s5, s6, s7) (omega arith)

-- The byte number k of eight.
pick : ℕ → ℕ → ℕ → ℕ → ℕ → ℕ → ℕ → ℕ → ℕ → ℕ
pick k b0 b1 b2 b3 b4 b5 b6 b7 = get_or (b0 ∷ b1 ∷ b2 ∷ b3 ∷ b4 ∷ b5 ∷ b6 ∷ b7 ∷ []) k 0

nested-byte :
    (k b0 b1 b2 b3 b4 b5 b6 b7 : ℕ)
    → k < 8
    → b0 < 256
    → b1 < 256
    → b2 < 256
    → b3 < 256
    → b4 < 256
    → b5 < 256
    → b6 < 256
    → b7 < 256
    → ((b0 + 256 * (b1 + 256 * (b2 + 256 * (b3 + 256 * (b4 + 256 * (b5 + 256 * (b6 + 256 * b7)))))))
          / 2 ^ (8 * k))
        % 256
      ≡ pick k b0 b1 b2 b3 b4 b5 b6 b7
unfolding pick
nested-byte zero b0 b1 b2 b3 b4 b5 b6 b7 h h0 h1 h2 h3 h4 h5 h6 h7 = omega arith
nested-byte (suc zero) b0 b1 b2 b3 b4 b5 b6 b7 h h0 h1 h2 h3 h4 h5 h6 h7 = omega arith
nested-byte (suc (suc zero)) b0 b1 b2 b3 b4 b5 b6 b7 h h0 h1 h2 h3 h4 h5 h6 h7 = omega arith
nested-byte (suc (suc (suc zero))) b0 b1 b2 b3 b4 b5 b6 b7 h h0 h1 h2 h3 h4 h5 h6 h7 = omega arith
nested-byte (suc (suc (suc (suc zero)))) b0 b1 b2 b3 b4 b5 b6 b7 h h0 h1 h2 h3 h4 h5 h6 h7 =
    omega arith
nested-byte (suc (suc (suc (suc (suc zero))))) b0 b1 b2 b3 b4 b5 b6 b7 h h0 h1 h2 h3 h4 h5 h6 h7 =
    omega arith
nested-byte (suc (suc (suc (suc (suc (suc zero)))))) b0 b1 b2 b3 b4 b5 b6 b7 h h0 h1 h2 h3 h4 h5 h6
      h7 =
    omega arith
nested-byte (suc (suc (suc (suc (suc (suc (suc zero))))))) b0 b1 b2 b3 b4 b5 b6 b7 h h0 h1 h2 h3 h4
      h5 h6 h7 =
    omega arith
nested-byte (suc (suc (suc (suc (suc (suc (suc (suc k)))))))) b0 b1 b2 b3 b4 b5 b6 b7 h h0 h1 h2 h3
      h4 h5 h6 h7 =
    absurd (omega arith)

pick-get_or :
    (t : List ℕ) (p k : ℕ)
    → k < 8
    → pick k
        (get_or t p 0)
        (get_or t (p + 1) 0)
        (get_or t (p + 2) 0)
        (get_or t (p + 3) 0)
        (get_or t (p + 4) 0)
        (get_or t (p + 5) 0)
        (get_or t (p + 6) 0)
        (get_or t (p + 7) 0)
      ≡ get_or t (p + k) 0
unfolding pick
pick-get_or t p zero h = let z : p + 0 ≡ p = omega arith in rw z refl
pick-get_or t p (suc zero) h = refl
pick-get_or t p (suc (suc zero)) h = refl
pick-get_or t p (suc (suc (suc zero))) h = refl
pick-get_or t p (suc (suc (suc (suc zero)))) h = refl
pick-get_or t p (suc (suc (suc (suc (suc zero))))) h = refl
pick-get_or t p (suc (suc (suc (suc (suc (suc zero)))))) h = refl
pick-get_or t p (suc (suc (suc (suc (suc (suc (suc zero))))))) h = refl
pick-get_or t p (suc (suc (suc (suc (suc (suc (suc (suc k)))))))) h = absurd (omega arith)

-- Byte k of a word is the byte at p + k.
u64le-byte :
    (t : List ℕ) (p k : ℕ)
    → All IsByte t
    → k < 8
    → (u64le t p / 2 ^ (8 * k)) % 256 ≡ get_or t (p + k) 0
unfolding u64le
u64le-byte t p k bytes h =
    let b : (i : ℕ) → get_or t i 0 < 256 = λ i. get_or-IsByte t i bytes in
    ap (λ x. (x / 2 ^ (8 * k)) % 256)
      (eight_bytes (get_or t p 0) (get_or t (p + 1) 0) (get_or t (p + 2) 0) (get_or t (p + 3) 0)
        (get_or t (p + 4) 0) (get_or t (p + 5) 0) (get_or t (p + 6) 0) (get_or t (p + 7) 0) (b p)
        (b (p + 1)) (b (p + 2)) (b (p + 3)) (b (p + 4)) (b (p + 5)) (b (p + 6)) (b (p + 7)))
    ∙ nested-byte k (get_or t p 0) (get_or t (p + 1) 0) (get_or t (p + 2) 0) (get_or t (p + 3) 0)
        (get_or t (p + 4) 0) (get_or t (p + 5) 0) (get_or t (p + 6) 0) (get_or t (p + 7) 0) h (b p)
        (b (p + 1)) (b (p + 2)) (b (p + 3)) (b (p + 4)) (b (p + 5)) (b (p + 6)) (b (p + 7))
    ∙ pick-get_or t p k h

-- What the inner loop leaves: a place that stays constant was so before, and its byte of the
-- difference is zero.
clear_bytes-kept :
    (xor i left k r : ℕ) (mask : List ℕ)
    → i + k + left ≤ length mask
    → (get_or (clear_bytes xor i left k mask) r 0 == 0) ≡ false
    → ((get_or mask r 0 == 0) ≡ false)
      × ((j : ℕ) → k ≤ j → j < k + left → r ≡ i + j → (xor / 2 ^ (8 * j)) % 256 ≡ 0)
unfolding clear_bytes
clear_bytes-kept xor i zero k r mask hr h = (h, λ j lo hi e. absurd (omega arith))
clear_bytes-kept xor i (suc left) k r mask hr h =
    elim (Bool-cases ((xor / 2 ^ (8 * k)) % 256 == 0)) [
      | inl same ↦
          let h' : (get_or (clear_bytes xor i left (k + 1) mask) r 0 == 0) ≡ false = rw same at h in
          let (before, rest) = clear_bytes-kept xor i left (k + 1) r mask (omega arith) h' in
          let here : (xor / 2 ^ (8 * k)) % 256 ≡ 0 =
            (==_iff ((xor / 2 ^ (8 * k)) % 256) 0).0 same in
          (
            before,
            λ j lo hi e. elim (Bool-cases (j == k)) [
              | inl eq ↦ let q : j ≡ k = (==_iff j k).0 eq in rw q here
              | inr ne ↦ rest j (ground arith) (omega arith) e
            ],
          )
      | inr other ↦
          let h' : (get_or (clear_bytes xor i left (k + 1) (set mask (i + k) 0)) r 0 == 0) ≡ false =
            rw other at h in
          let (before, rest) =
            clear_bytes-kept xor i left (k + 1) r (set mask (i + k) 0)
              (omega (arith, length-set mask (i + k) 0)) h' in
          let stored = get_or-set mask (i + k) r 0 0 (omega arith) in
          elim (Bool-cases (i + k == r)) [
            | inl hit ↦ absurd (ground (arith, before, stored))
            | inr miss ↦
                let same : get_or (set mask (i + k) 0) r 0 ≡ get_or mask r 0 = rw miss at stored in
                (
                  rw same at before,
                  λ j lo hi e. elim (Bool-cases (j == k)) [
                    | inl eq ↦ absurd (ground arith)
                    | inr ne ↦ rest j (ground arith) (omega arith) e
                  ],
                )
          ]
    ]

pub length-clear_bytes :
    (xor i left k : ℕ) (mask : List ℕ) → length (clear_bytes xor i left k mask) ≡ length mask
unfolding clear_bytes
length-clear_bytes xor i zero k mask = refl
length-clear_bytes xor i (suc left) k mask = elim (Bool-cases ((xor / 2 ^ (8 * k)) % 256 == 0)) [
  | inl same ↦ rw same (length-clear_bytes xor i left (k + 1) mask)
  | inr other ↦
      rw other
        (length-clear_bytes xor i left (k + 1) (set mask (i + k) 0) ∙ length-set mask (i + k) 0)
]

module _ (t : List ℕ) (bytes : All IsByte t) where
  unfoldable pub word_step : ℕ → ℕ → ℕ → List ℕ → List ℕ
  word_step b0 bg i mask =
      let xor = bit_xor (u64le t (b0 + i)) (u64le t (bg + i)) in
      if xor == 0 then mask else clear_bytes xor i 8 0 mask

  -- A word: where the mask stays, the two bytes are the same.
  pub word_step-kept :
      (b0 bg i r : ℕ) (mask : List ℕ)
      → i + 8 ≤ length mask
      → (get_or (word_step b0 bg i mask) r 0 == 0) ≡ false
      → ((get_or mask r 0 == 0) ≡ false)
        × (i ≤ r → r < i + 8 → get_or t (b0 + r) 0 ≡ get_or t (bg + r) 0)
  unfolding word_step
  word_step-kept b0 bg i r mask room h =
      let x = u64le t (b0 + i) in
      let y = u64le t (bg + i) in
      let bytes_equal : (j : ℕ)
          → j < 8
          → r ≡ i + j
          → (bit_xor x y / 2 ^ (8 * j)) % 256 ≡ 0
          → get_or t (b0 + r) 0 ≡ get_or t (bg + r) 0 =
        λ j hj e z.
          let e0 : b0 + r ≡ b0 + i + j = omega arith in
          let eg : bg + r ≡ bg + i + j = omega arith in
          rw (e0, eg)
            (sym (u64le-byte t (b0 + i) j bytes hj)
              ∙ bit_xor-same_byte j x y z
              ∙ u64le-byte t (bg + i) j bytes hj) in
      elim (Bool-cases (bit_xor x y == 0)) [
        | inl equal ↦
            let z : bit_xor x y ≡ 0 = (==_iff (bit_xor x y) 0).0 equal in
            let h' : (get_or mask r 0 == 0) ≡ false = rw equal at h in
            (
              h',
              λ lo hi. bytes_equal (r - i) (omega arith) (omega arith) (
                  ap (λ v. (v / 2 ^ (8 * (r - i))) % 256) z
                  ∙ ap (λ v. v % 256) (zero-div (2 ^ (8 * (r - i))))),
            )
        | inr differ ↦
            let h' : (get_or (clear_bytes (bit_xor x y) i 8 0 mask) r 0 == 0) ≡ false =
              rw differ at h in
            let (before, cleared) = clear_bytes-kept (bit_xor x y) i 8 0 r mask (omega arith) h' in
            (
              before,
              λ lo hi.
                  bytes_equal (r - i) (omega arith) (omega arith)
                    (cleared (r - i) (omega arith) (omega arith) (omega arith)),
            )
      ]
