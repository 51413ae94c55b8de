-- ===== src/Dsa/Compare.antt =====
-- suffixLessFrom of internal/dsa/dsa.go. A suffix is `drop p t`; a slice t[lo:hi] is `slice t lo hi`.
use derostorm.Base.{
  ℕ, zero, suc, ◌+◌, ◌-◌, ◌*◌, ◌/◌, ◌^◌, ◌≤◌, ◌<◌, min, ◌≡◌, refl, sym, ap, ◌∙◌, arith, Bool, true,
  false, List, [], ◌∷◌, ltb, leb, leb→le, ◌==◌, ==_iff, if◌then◌else◌, length, take, drop, take_all,
  drop-drop, All, All-take, All-drop, length-drop, length-take, inl, inr, Bool-cases,
}
use derostorm.Base.Bytes.{IsByte, from_be, from_be-lt, from_be-cons}
use native.Mathlib.Nat.{add-zero}

abbrev pub slice {ℓ} : {A : Type ℓ} → List A → ℕ → ℕ → List A
slice t lo hi = take (hi - lo) (drop lo t)

-- bytes.Compare(a, b) < 0: the lexicographic order, where a proper prefix is the smaller.
abbrev pub lex_less : List ℕ → List ℕ → Bool
lex_less [] [] = false
lex_less [] (y ∷ ys) = true
lex_less (x ∷ xs) [] = false
lex_less (x ∷ xs) (y ∷ ys) = if x == y then lex_less xs ys else ltb x y

-- The loop over eight-byte words, and the comparison of the rest; `rounds` rounds are left, and
-- the next words stand at p and q.
pub word_loop : List ℕ → ℕ → ℕ → ℕ → ℕ → Bool
word_loop t n zero p q = lex_less (slice t p n) (slice t q n)
word_loop t n (suc rounds) p q =
    let rest = word_loop t n rounds (p + 8) (q + 8) in
    let x = from_be (slice t p (p + 8)) in
    let y = from_be (slice t q (q + 8)) in if x == y then rest else ltb x y

unfoldable pub suffix_less_from : List ℕ → ℕ → ℕ → ℕ → ℕ → Bool
unfolding word_loop
suffix_less_from t n a b from =
    let m = min (n - a) (n - b) in
    let i = if leb from m then from else 0 in
    let q = min (m - i) 32 in word_loop t n (q / 8) (a + i) (b + i)

unfoldable pub suffix_less : List ℕ → ℕ → ℕ → ℕ → Bool
unfolding suffix_less_from
suffix_less t n a b = suffix_less_from t n a b 0

-- The leading digits decide.
leading_digit : (x y p f : ℕ) → x < y → f < p → x * p + f < y * p
leading_digit x y p f h lt = grind arith

-- Two numbers of one length compare by their leading digits, then by the rest.
compare_digits :
    (x y p f g : ℕ) (rest : Bool)
    → f < p
    → g < p
    → (if x == y then (if f == g then rest else ltb f g) else ltb x y)
      ≡ (if x * p + f == y * p + g then rest else ltb (x * p + f) (y * p + g))
compare_digits x y p f g rest hf hg = elim (Bool-cases (x == y)) [
  | inl e ↦ let same : x ≡ y = (==_iff x y).0 e in rw same (ground arith)
  | inr ne ↦ ground (arith, leading_digit x y p f, leading_digit y x p g)
]

from_be-take :
    (k x : ℕ) (xs : List ℕ)
    → k ≤ length xs
    → from_be (take (suc k) (x ∷ xs)) ≡ x * 256 ^ k + from_be (take k xs)
from_be-take k x xs h =
    from_be-cons x (take k xs)
    ∙ ap (λ n. x * 256 ^ n + from_be (take k xs)) {y = k} (omega (arith, length-take k xs))

from_be-take_lt :
    (k : ℕ) (xs : List ℕ) → All IsByte xs → k ≤ length xs → from_be (take k xs) < 256 ^ k
from_be-take_lt k xs b h =
    let e : length (take k xs) ≡ k = omega (arith, length-take k xs) in
    rw e at (from_be-lt (take k xs) (All-take IsByte k xs b))

-- A chunk of k bytes decides by its number, and equal numbers leave the rest to decide.
lex_less-word :
    (k : ℕ) (xs ys : List ℕ)
    → All IsByte xs
    → All IsByte ys
    → k ≤ length xs
    → k ≤ length ys
    → lex_less xs ys ≡ (
        if from_be (take k xs) == from_be (take k ys)
        then lex_less (drop k xs) (drop k ys)
        else ltb (from_be (take k xs)) (from_be (take k ys)))
lex_less-word zero xs ys bx by hx hy = refl
lex_less-word (suc k) [] ys bx by hx hy = absurd (omega arith)
lex_less-word (suc k) (x ∷ xs) [] bx by hx hy = absurd (omega arith)
lex_less-word (suc k) (x ∷ xs) (y ∷ ys) (bx, bxs) (by, bys) hx hy =
    rw
      (
        from_be-take k x xs (omega arith),
        from_be-take k y ys (omega arith),
        lex_less-word k xs ys bxs bys (omega arith) (omega arith),
      )
      (compare_digits x y (256 ^ k) (from_be (take k xs)) (from_be (take k ys)) _
        (from_be-take_lt k xs bxs (omega arith)) (from_be-take_lt k ys bys (omega arith)))

-- The word loop is the plain comparison of the two suffixes, as far as its words lie in the text.
word_loop-lex_less :
    (t : List ℕ) (rounds p q : ℕ)
    → All IsByte t
    → p + 8 * rounds ≤ length t
    → q + 8 * rounds ≤ length t
    → word_loop t (length t) rounds p q ≡ lex_less (drop p t) (drop q t)
unfolding word_loop
word_loop-lex_less t zero p q b hp hq = rw (
  take_all (length t - p) (drop p t) (omega (arith, length-drop p t)),
  take_all (length t - q) (drop q t) (omega (arith, length-drop q t)),
)
word_loop-lex_less t (suc r) p q b hp hq =
    let ep : p + 8 - p ≡ 8 = omega arith in
    let eq : q + 8 - q ≡ 8 = omega arith in
    rw
      (
        ep,
        eq,
        word_loop-lex_less t r (p + 8) (q + 8) b (omega arith) (omega arith),
        ← drop-drop p 8 t,
        ← drop-drop q 8 t,
      )
      (sym (
        lex_less-word 8 (drop p t) (drop q t) (All-drop IsByte p t b) (All-drop IsByte q t b)
          (omega (arith, length-drop p t)) (omega (arith, length-drop q t))))

-- Suffixes that agree on their first k bytes compare as what follows.
lex_less-drop :
    (k : ℕ) (xs ys : List ℕ)
    → k ≤ length xs
    → k ≤ length ys
    → take k xs ≡ take k ys
    → lex_less xs ys ≡ lex_less (drop k xs) (drop k ys)
lex_less-drop zero xs ys hx hy e = refl
lex_less-drop (suc k) [] ys hx hy e = absurd (omega arith)
lex_less-drop (suc k) (x ∷ xs) [] hx hy e = absurd (omega arith)
lex_less-drop (suc k) (x ∷ xs) (y ∷ ys) hx hy e =
    let heads : x ≡ y = cc in
    let tails : take k xs ≡ take k ys = cc in
    ground (arith, heads, lex_less-drop k xs ys (omega arith) (omega arith) tails)

-- The chunked comparison is the lexicographic comparison of the two suffixes, for every skip
-- `from` over bytes on which the two are known to agree whenever both are that long.
pub suffix_less_from-lex_less :
    (t : List ℕ) (a b from : ℕ)
    → All IsByte t
    → a ≤ length t
    → b ≤ length t
    → (a + from ≤ length t → b + from ≤ length t → slice t a (a + from) ≡ slice t b (b + from))
    → suffix_less_from t (length t) a b from ≡ lex_less (drop a t) (drop b t)
unfolding suffix_less_from
suffix_less_from-lex_less t a b from bytes ha hb agree = elim (Bool-cases (leb from m)) [
  | inl long ↦ rw long (from_skip from (leb→le from m long) ∙ skipped (leb→le from m long))
  | inr short ↦ rw (short, from_skip 0 (omega arith), add-zero a, add-zero b)
]
  where
    m : ℕ
    m = min (length t - a) (length t - b)

    from_skip :
        (i : ℕ)
        → i ≤ m
        → word_loop t (length t) (min (m - i) 32 / 8) (a + i) (b + i)
          ≡ lex_less (drop (a + i) t) (drop (b + i) t)
    from_skip i h =
        word_loop-lex_less t (min (m - i) 32 / 8) (a + i) (b + i) bytes (omega arith) (omega arith)

    skipped :
        from ≤ m → lex_less (drop (a + from) t) (drop (b + from) t) ≡ lex_less (drop a t) (drop b t)
    skipped h =
        let ea : a + from - a ≡ from = omega arith in
        let eb : b + from - b ≡ from = omega arith in
        let same : slice t a (a + from) ≡ slice t b (b + from) =
          agree (omega arith) (omega arith) in
        rw (← drop-drop a from t, ← drop-drop b from t)
          (sym (
            lex_less-drop from (drop a t) (drop b t) (omega (arith, length-drop a t))
              (omega (arith, length-drop b t)) (rw (ea, eb) at same)))
