-- ===== src/Base/Xor.antt =====
-- A byte of an exclusive or is zero only where the bytes are the same.
use Prim.Native.Nat.{
  ℕ, zero, suc, ◌+◌, ◌*◌, ◌/◌, ◌%◌, ◌^◌, ◌≤◌, ◌<◌, digits, differ, bit_xor, bit_xor-bitwise,
}
use mathlib.Core.Path.{◌≡◌, refl, sym, ap, ◌∙◌}
use native.Mathlib.Omega.{arith}
use native.Mathlib.Nat.{two-pow-succ, div-div-eq-div-mul}

abbrev xor_digits : ℕ → ℕ → ℕ → ℕ
xor_digits fuel a b = digits (λ rest. rest) differ fuel a b

xor_digits-fuel : (n m a b : ℕ) → a ≤ n → a ≤ m → xor_digits n a b ≡ xor_digits m a b
xor_digits-fuel zero zero a b h g = refl
xor_digits-fuel zero (suc m) zero b h g = refl
xor_digits-fuel zero (suc m) (suc a) b h g = absurd (omega arith)
xor_digits-fuel (suc n) zero zero b h g = refl
xor_digits-fuel (suc n) zero (suc a) b h g = absurd (omega arith)
xor_digits-fuel (suc n) (suc m) zero b h g = refl
xor_digits-fuel (suc n) (suc m) (suc a) b h g =
    omega (arith, xor_digits-fuel n m (suc a / 2) (b / 2) (omega arith) (omega arith))

xor_digits-last :
    (n a b : ℕ)
    → a ≤ n
    → xor_digits n a b ≡ 2 * xor_digits n (a / 2) (b / 2) + differ (a % 2) (b % 2)
xor_digits-last zero zero b h = omega arith
xor_digits-last zero (suc a) b h = absurd (omega arith)
xor_digits-last (suc n) zero b h = omega arith
xor_digits-last (suc n) (suc a) b h =
    omega (arith, xor_digits-fuel n (suc n) (suc a / 2) (b / 2) (omega arith) (omega arith))

bit_xor-last : (a b : ℕ) → bit_xor a b ≡ 2 * bit_xor (a / 2) (b / 2) + differ (a % 2) (b % 2)
bit_xor-last a b = omega (
  arith,
  bit_xor-bitwise a b,
  bit_xor-bitwise (a / 2) (b / 2),
  xor_digits-last a a b (omega arith),
  xor_digits-fuel a (a / 2) (a / 2) (b / 2) (omega arith) (omega arith),
)

differ-digits : (x y : ℕ) → x < 2 → y < 2 → (differ x y < 2) × (differ x y ≡ 0 → x ≡ y)
differ-digits zero zero h g = (omega arith, λ _. refl)
differ-digits zero (suc zero) h g = (omega arith, λ e. absurd (omega arith))
differ-digits (suc zero) zero h g = (omega arith, λ e. absurd (omega arith))
differ-digits (suc zero) (suc zero) h g = (omega arith, λ _. refl)
differ-digits zero (suc (suc y)) h g = absurd (omega arith)
differ-digits (suc zero) (suc (suc y)) h g = absurd (omega arith)
differ-digits (suc (suc x)) y h g = absurd (omega arith)

bit_xor-half : (a b : ℕ) → bit_xor a b / 2 ≡ bit_xor (a / 2) (b / 2)
bit_xor-half a b =
    let (small, _) = differ-digits (a % 2) (b % 2) (omega arith) (omega arith) in
    omega (arith, bit_xor-last a b)

bit_xor-even : (a b : ℕ) → bit_xor a b % 2 ≡ 0 → a % 2 ≡ b % 2
bit_xor-even a b h =
    let (small, same) = differ-digits (a % 2) (b % 2) (omega arith) (omega arith) in
    same (omega (arith, bit_xor-last a b))

-- The low k digits, and what stands above them.
low : ℕ → ℕ → ℕ
low zero x = 0
low (suc k) x = x % 2 + 2 * low k (x / 2)

half : ℕ → ℕ → ℕ
half zero x = x
half (suc k) x = half k (x / 2)

low-bit_xor : (k a b : ℕ) → low k (bit_xor a b) ≡ 0 → low k a ≡ low k b
unfolding low
low-bit_xor zero a b h = refl
low-bit_xor (suc k) a b h =
    let rest : low k (bit_xor (a / 2) (b / 2)) ≡ 0 = omega (arith, ap (low k) (bit_xor-half a b)) in
    omega (arith, bit_xor-even a b (omega arith), low-bit_xor k (a / 2) (b / 2) rest)

half-bit_xor : (k a b : ℕ) → half k (bit_xor a b) ≡ bit_xor (half k a) (half k b)
unfolding half
half-bit_xor zero a b = refl
half-bit_xor (suc k) a b = ap (half k) (bit_xor-half a b) ∙ half-bit_xor k (a / 2) (b / 2)

low-byte : (x : ℕ) → low 8 x ≡ x % 256
unfolding low
low-byte x = omega arith

half-byte : (x : ℕ) → half 8 x ≡ x / 256
unfolding half
half-byte x = omega arith

bit_xor-byte : (a b : ℕ) → bit_xor a b / 256 ≡ bit_xor (a / 256) (b / 256)
bit_xor-byte a b =
    sym (half-byte (bit_xor a b))
    ∙ half-bit_xor 8 a b
    ∙ ap (λ x. bit_xor x (half 8 b)) (half-byte a)
    ∙ ap (bit_xor (a / 256)) (half-byte b)

-- The bytes above the lowest k.
above : ℕ → ℕ → ℕ
above zero x = x
above (suc k) x = above k (x / 256)

pow-add_8 : (m : ℕ) → 2 ^ (m + 8) ≡ 256 * 2 ^ m
pow-add_8 m =
    let e : m + 8 ≡ suc (suc (suc (suc (suc (suc (suc (suc m))))))) = omega arith in
    rw e (
      omega (
        arith,
        two-pow-succ m,
        two-pow-succ (suc m),
        two-pow-succ (suc (suc m)),
        two-pow-succ (suc (suc (suc m))),
        two-pow-succ (suc (suc (suc (suc m)))),
        two-pow-succ (suc (suc (suc (suc (suc m))))),
        two-pow-succ (suc (suc (suc (suc (suc (suc m)))))),
        two-pow-succ (suc (suc (suc (suc (suc (suc (suc m))))))),
      ))

above-div : (k x : ℕ) → x / 2 ^ (8 * k) ≡ above k x
unfolding above
above-div zero x = omega arith
above-div (suc k) x =
    let split : 2 ^ (8 * suc k) ≡ 256 * 2 ^ (8 * k) =
      ap (λ n. 2 ^ n) {y = 8 * k + 8} (omega arith) ∙ pow-add_8 (8 * k) in
    ap (λ d. x / d) split ∙ sym (div-div-eq-div-mul x 256 (2 ^ (8 * k))) ∙ above-div k (x / 256)

above-bit_xor : (k a b : ℕ) → above k (bit_xor a b) ≡ bit_xor (above k a) (above k b)
unfolding above
above-bit_xor zero a b = refl
above-bit_xor (suc k) a b = ap (above k) (bit_xor-byte a b) ∙ above-bit_xor k (a / 256) (b / 256)

pub bit_xor-same_byte :
    (k a b : ℕ)
    → (bit_xor a b / 2 ^ (8 * k)) % 256 ≡ 0
    → (a / 2 ^ (8 * k)) % 256 ≡ (b / 2 ^ (8 * k)) % 256
bit_xor-same_byte k a b h =
    let zero_byte : low 8 (bit_xor (above k a) (above k b)) ≡ 0 =
      low-byte (bit_xor (above k a) (above k b))
      ∙ ap (λ x. x % 256) (sym (above-bit_xor k a b) ∙ sym (above-div k (bit_xor a b)))
      ∙ h in
    ap (λ x. x % 256) (above-div k a)
    ∙ sym (low-byte (above k a))
    ∙ low-bit_xor 8 (above k a) (above k b) zero_byte
    ∙ low-byte (above k b)
    ∙ ap (λ x. x % 256) (sym (above-div k b))
