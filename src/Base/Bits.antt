-- ===== src/Base/Bits.antt =====
-- `|` of two fields that do not overlap is their sum.
use Prim.Native.Nat.{
  ℕ, zero, suc, ◌+◌, ◌*◌, ◌/◌, ◌^◌, ◌≤◌, ◌<◌, max, digits, bit_or, bit_or-bitwise,
}
use mathlib.Core.Path.{◌≡◌, refl, ◌∙◌}
use native.Mathlib.Omega.{arith}
use native.Mathlib.Nat.{pow-suc}

-- The digits that `bit_or` stands for, on `fuel` digits.
abbrev or_digits : ℕ → ℕ → ℕ → ℕ
or_digits fuel a b = digits (λ rest. rest) max fuel a b

or_digits-add :
    (fuel k q a r : ℕ) → a ≡ q * 2 ^ k → a ≤ fuel → r < 2 ^ k → or_digits fuel a r ≡ a + r
or_digits-add zero k q a r e h lt = let z : a ≡ 0 = omega arith in rw z (omega arith)
or_digits-add (suc fuel) k q zero r e h lt = omega arith
or_digits-add (suc fuel) zero q (suc a) r e h lt = omega (
  arith,
  or_digits-add fuel zero (suc a / 2) (suc a / 2) (r / 2) (omega arith) (omega arith) (omega arith),
)
or_digits-add (suc fuel) (suc k) q (suc a) r e h lt =
    let twice : q * 2 ^ suc k ≡ 2 * (q * 2 ^ k) = rw (pow-suc 2 k) (omega arith) in
    let room : 2 ^ suc k ≡ 2 * 2 ^ k = rw (pow-suc 2 k) (omega arith) in
    omega
      (arith, or_digits-add fuel k q (suc a / 2) (r / 2) (omega arith) (omega arith) (omega arith))

-- (q << k) | r is a sum when r fits in k bits.
pub bit_or-add : (k q r : ℕ) → r < 2 ^ k → bit_or (q * 2 ^ k) r ≡ q * 2 ^ k + r
bit_or-add k q r lt =
    bit_or-bitwise (q * 2 ^ k) r ∙ or_digits-add (q * 2 ^ k) k q (q * 2 ^ k) r refl (omega arith) lt

or_digits-add_low :
    (fuel k q a r : ℕ) → a ≡ q * 2 ^ k → r ≤ fuel → r < 2 ^ k → or_digits fuel r a ≡ a + r
or_digits-add_low zero k q a r e h lt = let z : r ≡ 0 = omega arith in rw z (omega arith)
or_digits-add_low (suc fuel) k q a zero e h lt = omega arith
or_digits-add_low (suc fuel) zero q a (suc r) e h lt = absurd (omega arith)
or_digits-add_low (suc fuel) (suc k) q a (suc r) e h lt =
    let twice : q * 2 ^ suc k ≡ 2 * (q * 2 ^ k) = rw (pow-suc 2 k) (omega arith) in
    let room : 2 ^ suc k ≡ 2 * 2 ^ k = rw (pow-suc 2 k) (omega arith) in
    omega (
      arith,
      or_digits-add_low fuel k q (a / 2) (suc r / 2) (omega arith) (omega arith) (omega arith),
    )

-- The same with the low field in front.
pub bit_or-add_low : (k q r : ℕ) → r < 2 ^ k → bit_or r (q * 2 ^ k) ≡ q * 2 ^ k + r
bit_or-add_low k q r lt =
    bit_or-bitwise r (q * 2 ^ k) ∙ or_digits-add_low r k q (q * 2 ^ k) r refl (omega arith) lt
