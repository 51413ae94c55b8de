-- ===== src/Base/Reverse.antt =====
-- Reading and writing one place of a list, and lists that agree at every place.
use Prim.Native.Nat.{ℕ, zero, suc, ◌-◌, ◌<◌}
use mathlib.Core.Path.{◌≡◌, refl, ap₂}
use mathlib.Core.List.{List, [], ◌∷◌, ◌++◌}
use native.Mathlib.Omega.{arith}
use derostorm.Base.Tests.{◌==◌, ltb, if◌then◌else◌}
use derostorm.Base.Lists.{length, get_or, set}

module _ {ℓ} {A : Type ℓ} where
  pub get_or-set :
      (xs : List A) (i j : ℕ) (v d : A)
      → i < length xs
      → get_or (set xs i v) j d ≡ (if i == j then v else get_or xs j d)
  get_or-set [] i j v d h = elim h [ ]
  get_or-set (x ∷ xs) zero zero v d h = refl
  get_or-set (x ∷ xs) zero (suc j) v d h = ground arith
  get_or-set (x ∷ xs) (suc i) zero v d h = ground arith
  get_or-set (x ∷ xs) (suc i) (suc j) v d h = ground (arith, get_or-set xs i j v d)

  -- Lists of one length that agree at every place are equal.
  pub get_or-ext :
      (xs ys : List A) (d : A)
      → length xs ≡ length ys
      → ((j : ℕ) → j < length xs → get_or xs j d ≡ get_or ys j d)
      → xs ≡ ys
  get_or-ext [] [] d e h = refl
  get_or-ext [] (y ∷ ys) d e h = absurd (omega arith)
  get_or-ext (x ∷ xs) [] d e h = absurd (omega arith)
  get_or-ext (x ∷ xs) (y ∷ ys) d e h =
      ap₂ (λ a l. a ∷ l) (h 0 (omega arith))
        (get_or-ext xs ys d (omega arith) (λ j lt. h (suc j) (omega arith)))

  pub get_or-append :
      (xs ys : List A) (j : ℕ) (d : A)
      → get_or (xs ++ ys) j d
        ≡ (if ltb j (length xs) then get_or xs j d else get_or ys (j - length xs) d)
  get_or-append [] ys j d = ground arith
  get_or-append (x ∷ xs) ys zero d = ground arith
  get_or-append (x ∷ xs) ys (suc j) d = ground (arith, get_or-append xs ys j d)
