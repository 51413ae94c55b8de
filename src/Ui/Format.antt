-- ===== src/Ui/Format.antt =====
-- internal/ui/format.go: Commas, which groups the decimal digits of a count in threes.
use derostorm.Base.{
  ℕ, zero, suc, ◌+◌, ◌-◌, ◌*◌, ◌/◌, ◌%◌, ◌^◌, ◌≤◌, ◌<◌, ◌≡◌, refl, sym, ap, ◌∙◌, ◌≢◌, arith, true,
  false, ◌&&◌, List, [], ◌∷◌, ltb, leb, ◌==◌, if◌then◌else◌, length, get_or, Bool, All, inl, inr,
  Bool-cases,
}
use native.Mathlib.Nat.{pow-suc}

-- strconv.FormatUint(v, 10): the digits, the first the most significant. A uint64 has at most 20.
pub decimal_digits : ℕ → ℕ → List ℕ → List ℕ
decimal_digits zero n out = out
decimal_digits (suc fuel) n out = elim (n == 0) [
  | true ↦ out
  | false ↦ decimal_digits fuel (n / 10) ((b'0' + n % 10) ∷ out)
]

unfoldable pub format_uint : ℕ → List ℕ
unfolding decimal_digits
format_uint v = if v == 0 then b'0' ∷ [] else decimal_digits 20 v []

-- The loop of Commas, from place i of a string of `len` digits.
pub commas_loop : List ℕ → ℕ → ℕ → List ℕ
commas_loop [] len i = []
commas_loop (c ∷ s) len i =
    let rest = c ∷ commas_loop s len (i + 1) in
    if ltb 0 i && ((len - i) % 3 == 0) then b',' ∷ rest else rest

unfoldable pub commas : ℕ → List ℕ
unfolding commas_loop
commas v = let s = format_uint v in if leb (length s) 3 then s else commas_loop s (length s) 0

-- The number that a string of digits and commas spells.
abbrev pub read_grouped : List ℕ → ℕ → ℕ
read_grouped [] n = n
read_grouped (c ∷ s) n =
    if c == b',' then read_grouped s n else read_grouped s (n * 10 + (c - b'0'))

abbrev IsDigit : ℕ → Type 0
IsDigit c = (b'0' ≤ c) × (c ≤ b'9')

decimal_digits-IsDigit :
    (fuel n : ℕ) (out : List ℕ) → All IsDigit out → All IsDigit (decimal_digits fuel n out)
unfolding decimal_digits
decimal_digits-IsDigit zero n out h = h
decimal_digits-IsDigit (suc fuel) n out h =
    let rest = decimal_digits-IsDigit fuel (n / 10) ((b'0' + n % 10) ∷ out) ((omega arith), h) in
    elim (Bool-cases (n == 0)) [
      | inl z ↦ rw (z, decimal_digits) h
      | inr nz ↦ rw (nz, decimal_digits) rest
    ]

read_grouped-decimal_digits :
    (fuel n : ℕ) (out : List ℕ)
    → n < 10 ^ fuel
    → read_grouped (decimal_digits fuel n out) 0 ≡ read_grouped out n
unfolding decimal_digits
read_grouped-decimal_digits zero n out h = let z : n ≡ 0 = omega arith in rw z
read_grouped-decimal_digits (suc fuel) n out h =
    let h' : n < 10 ^ fuel * 10 = rw (pow-suc 10 fuel) at h in
    let back : n / 10 * 10 + (b'0' + n % 10 - b'0') ≡ n = omega arith in
    ground (arith, read_grouped-decimal_digits fuel (n / 10) ((b'0' + n % 10) ∷ out), back, h')

format_uint-read : (v : ℕ) → v < 2 ^ 64 → read_grouped (format_uint v) 0 ≡ v
unfolding format_uint
format_uint-read v h = ground (arith, read_grouped-decimal_digits 20 v [])

read_grouped-commas_loop :
    (s : List ℕ) (len i n : ℕ)
    → All IsDigit s
    → read_grouped (commas_loop s len i) n ≡ read_grouped s n
unfolding commas_loop
read_grouped-commas_loop [] len i n h = refl
read_grouped-commas_loop (c ∷ s) len i n (hc, hs) =
    ground (arith, read_grouped-commas_loop s len (i + 1) (n * 10 + (c - b'0')) hs)

-- How many places of a string, from place i of len on, stand in front of a group.
length-commas_loop :
    (s : List ℕ) (len i : ℕ)
    → i + length s ≡ len
    → 0 < i
    → length (commas_loop s len i) ≡ length s + (length s) / 3
unfolding commas_loop
length-commas_loop [] len i e pos = omega arith
length-commas_loop (c ∷ s) len i e pos = ground (arith, length-commas_loop s len (i + 1))

format_uint-IsDigit : (v : ℕ) → All IsDigit (format_uint v)
unfolding format_uint
format_uint-IsDigit v = elim (Bool-cases (v == 0)) [
  | inl z ↦ rw z (omega arith)
  | inr nz ↦ rw nz (decimal_digits-IsDigit 20 v [] tt)
]

length-commas_loop_start :
    (s : List ℕ) → length (commas_loop s (length s) 0) ≡ length s + (length s - 1) / 3
unfolding commas_loop
length-commas_loop_start [] = omega arith
length-commas_loop_start (c ∷ s) = omega (arith, length-commas_loop s (suc (length s)) 1)

-- Whether a character is a comma.
abbrev pub comma_at : List ℕ → ℕ → Bool
comma_at s i = get_or s i 0 == b','

-- The characters that the commas of a grouped string stand at, counted from its end: every fourth.
abbrev pub fourth_from_end : ℕ → ℕ → Bool
fourth_from_end len i = ltb i len && ((len - i) % 4 == 0)

comma_at-digits : (s : List ℕ) (i : ℕ) → All IsDigit s → comma_at s i ≡ false
comma_at-digits [] i h = refl
comma_at-digits (c ∷ s) zero (hc, hs) = ground arith
comma_at-digits (c ∷ s) (suc i) (hc, hs) = comma_at-digits s i hs

-- A group more, and a digit more within a group, in front of `l` grouped digits.
comma_at-group :
    (c l : ℕ) (out : List ℕ)
    → IsDigit c
    → length out ≡ l + l / 3
    → (l + 1) % 3 ≡ 0
    → ((j : ℕ) → comma_at out j ≡ fourth_from_end (length out) j)
    → (i : ℕ) → comma_at (b',' ∷ c ∷ out) i ≡ fourth_from_end (length out + 2) i
comma_at-group c l out hc e whole rest zero = ground arith
comma_at-group c l out hc e whole rest (suc zero) = ground arith
comma_at-group c l out hc e whole rest (suc (suc i)) = rest i ∙ ground arith

comma_at-digit :
    (c l : ℕ) (out : List ℕ)
    → IsDigit c
    → length out ≡ l + l / 3
    → (l + 1) % 3 ≢ 0
    → ((j : ℕ) → comma_at out j ≡ fourth_from_end (length out) j)
    → (i : ℕ) → comma_at (c ∷ out) i ≡ fourth_from_end (length out + 1) i
comma_at-digit c l out hc e within rest zero = ground arith
comma_at-digit c l out hc e within rest (suc i) = rest i ∙ ground arith

comma_at-commas_loop :
    (s : List ℕ) (len k i : ℕ)
    → All IsDigit s
    → k + length s ≡ len
    → 0 < k
    → comma_at (commas_loop s len k) i ≡ fourth_from_end (length (commas_loop s len k)) i
unfolding commas_loop
comma_at-commas_loop [] len k i h e pos = ground arith
comma_at-commas_loop (c ∷ s) len k i (hc, hs) e pos =
    let out = commas_loop s len (k + 1) in
    let size = length-commas_loop s len (k + 1) (omega arith) (omega arith) in
    let rest = λ (j : ℕ). comma_at-commas_loop s len (k + 1) j hs (omega arith) (omega arith) in
    elim (Bool-cases (ltb 0 k && ((len - k) % 3 == 0))) [
      | inl here ↦ rw here (
          comma_at-group c (length s) out hc size (ground arith) rest i
          ∙ ap (λ n. fourth_from_end n i) (omega arith))
      | inr not_here ↦ rw not_here (
          comma_at-digit c (length s) out hc size (ground arith) rest i
          ∙ ap (λ n. fourth_from_end n i) (omega arith))
    ]

fourth_from_end-suc : (len i : ℕ) → fourth_from_end len i ≡ fourth_from_end (suc len) (suc i)
fourth_from_end-suc len i = ground arith

comma_at-commas_loop_start :
    (s : List ℕ) (i : ℕ)
    → All IsDigit s
    → comma_at (commas_loop s (length s) 0) i
      ≡ fourth_from_end (length (commas_loop s (length s) 0)) i
unfolding commas_loop
comma_at-commas_loop_start [] i h = ground arith
comma_at-commas_loop_start (c ∷ s) zero (hc, hs) =
    ground (arith, length-commas_loop s (suc (length s)) 1)
comma_at-commas_loop_start (c ∷ s) (suc i) (hc, hs) =
    comma_at-commas_loop s (suc (length s)) 1 i hs (omega arith) (omega arith)
    ∙ fourth_from_end-suc (length (commas_loop s (suc (length s)) 1)) i

fourth_from_end-short : (len i : ℕ) → len ≤ 3 → fourth_from_end len i ≡ false
fourth_from_end-short len i h = ground arith

-- For every uint64, the grouped string spells the number when the commas are skipped; it has one
-- comma for every three digits after the first; and its commas are the fourth character from the
-- end, the eighth, and so on, and no others, so that the digits stand in threes from the right.
pub commas-read :
    (v i : ℕ)
    → v < 2 ^ 64
    → (read_grouped (commas v) 0 ≡ v)
      × (length (commas v) ≡ length (format_uint v) + (length (format_uint v) - 1) / 3)
      × (comma_at (commas v) i ≡ fourth_from_end (length (commas v)) i)
unfolding commas
commas-read v i h =
    let digits = format_uint-IsDigit v in
    let s = format_uint v in
    (
      ground (arith, format_uint-read v h, read_grouped-commas_loop s (length s) 0 0 digits),
      ground (arith, length-commas_loop_start s),
      elim (Bool-cases (leb (length s) 3)) [
        | inl short ↦
            rw short
              (comma_at-digits s i digits ∙ sym (fourth_from_end-short (length s) i (ground arith)))
        | inr long ↦ rw long (comma_at-commas_loop_start s i digits)
      ],
    )
