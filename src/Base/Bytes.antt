-- ===== src/Base/Bytes.antt =====
-- Bytes as numbers below 256, and the two readings of a byte string as a number.
use Prim.Native.Nat.{ℕ, ◌+◌, ◌*◌, ◌^◌, ◌<◌}
use mathlib.Core.Path.{◌≡◌, refl, ◌∙◌}
use mathlib.Core.List.{List, [], ◌∷◌, ◌++◌}
use native.Mathlib.Omega.{arith}
use native.Mathlib.Nat.{pow-suc}
use derostorm.Base.Lists.{length, All}

abbrev pub IsByte : ℕ → Type 0
IsByte b = b < 256

-- binary.LittleEndian: the first byte is the least significant.
abbrev pub from_le : List ℕ → ℕ
from_le [] = 0
from_le (b ∷ bs) = b + 256 * from_le bs

-- big.Int.SetBytes and binary.BigEndian: the first byte is the most significant.
abbrev pub from_be_acc : ℕ → List ℕ → ℕ
from_be_acc acc [] = acc
from_be_acc acc (b ∷ bs) = from_be_acc (256 * acc + b) bs

abbrev pub from_be : List ℕ → ℕ
from_be bs = from_be_acc 0 bs

pub from_be_acc-append :
    (xs ys : List ℕ) (acc : ℕ) → from_be_acc acc (xs ++ ys) ≡ from_be_acc (from_be_acc acc xs) ys
from_be_acc-append [] ys acc = refl
from_be_acc-append (x ∷ xs) ys acc = from_be_acc-append xs ys (256 * acc + x)

from_be_acc-shift :
    (xs : List ℕ) (acc : ℕ) → from_be_acc acc xs ≡ acc * 256 ^ length xs + from_be xs
from_be_acc-shift [] acc = omega arith
from_be_acc-shift (x ∷ xs) acc =
    rw (pow-suc 256 (length xs))
      (omega (arith, from_be_acc-shift xs (256 * acc + x), from_be_acc-shift xs (256 * 0 + x)))

-- What stands in front of `ys` counts 256 ^ length ys times.
pub from_be-append :
    (xs ys : List ℕ) → from_be (xs ++ ys) ≡ from_be xs * 256 ^ length ys + from_be ys
from_be-append xs ys = from_be_acc-append xs ys 0 ∙ from_be_acc-shift ys (from_be xs)

pub from_be-lt : (xs : List ℕ) → All IsByte xs → from_be xs < 256 ^ length xs
from_be-lt [] h = omega arith
from_be-lt (x ∷ xs) (hx, hxs) =
    grind (arith, from_be_acc-shift xs (256 * 0 + x), from_be-lt xs hxs, pow-suc 256 (length xs))

pub from_le-append :
    (xs ys : List ℕ) → from_le (xs ++ ys) ≡ from_le xs + 256 ^ length xs * from_le ys
from_le-append [] ys = omega arith
from_le-append (x ∷ xs) ys = rw (pow-suc 256 (length xs)) (omega (arith, from_le-append xs ys))

pub from_le-lt : (xs : List ℕ) → All IsByte xs → from_le xs < 256 ^ length xs
from_le-lt [] h = omega arith
from_le-lt (x ∷ xs) (hx, hxs) = grind (arith, from_le-lt xs hxs, pow-suc 256 (length xs))

pub from_be-cons : (x : ℕ) (xs : List ℕ) → from_be (x ∷ xs) ≡ x * 256 ^ length xs + from_be xs
from_be-cons x xs = omega (arith, from_be_acc-shift xs (256 * 0 + x))
