-- ===== src/Base/Chains.antt =====
-- Lists in which every element is related to all later ones, and how often a number occurs.
use Prim.Native.Nat.{ℕ, ◌+◌, ◌≤◌}
use mathlib.Core.Path.{◌≡◌, refl, ap}
use mathlib.Core.List.{List, [], ◌∷◌, ◌++◌}
use native.Mathlib.Omega.{arith}
use derostorm.Base.Tests.{◌==◌, if◌then◌else◌}
use derostorm.Base.Lists.{All, All-append}

abbrev pub Chain {ℓ κ} : {A : Type ℓ} → (A → A → Type κ) → List A → Type κ
Chain R [] = Unit
Chain R (x ∷ xs) = All (R x) xs × Chain R xs

abbrev pub count : ℕ → List ℕ → ℕ
count p [] = 0
count p (x ∷ xs) = (if x == p then 1 else 0) + count p xs

pub count-append : (p : ℕ) (xs ys : List ℕ) → count p (xs ++ ys) ≡ count p xs + count p ys
count-append p [] ys = omega arith
count-append p (x ∷ xs) ys = omega (arith, count-append p xs ys)

pub All-map {ℓ κ} :
    {A : Type ℓ} (P Q : A → Type κ) (xs : List A) → ((x : A) → P x → Q x) → All P xs → All Q xs
All-map P Q [] f a = tt
All-map P Q (x ∷ xs) f (h, a) = (f x h, All-map P Q xs f a)

pub Chain-append {ℓ κ} :
    {A : Type ℓ} (R : A → A → Type κ) (xs ys : List A)
    → Chain R xs
    → Chain R ys
    → All (λ x. All (R x) ys) xs
    → Chain R (xs ++ ys)
Chain-append R [] ys cx cy h = cy
Chain-append R (x ∷ xs) ys (hx, cx) cy (h, hs) =
    (All-append (R x) xs ys hx h, Chain-append R xs ys cx cy hs)

-- Every element occurs.
pub occurs : (xs : List ℕ) → All (λ x. 1 ≤ count x xs) xs
occurs [] = tt
occurs (x ∷ xs) = (
  ground arith,
  All-map (λ y. 1 ≤ count y xs) (λ y. 1 ≤ count y (x ∷ xs)) xs (λ y h. omega arith) (occurs xs),
)

pub append_assoc {ℓ} : {A : Type ℓ} (xs ys zs : List A) → (xs ++ ys) ++ zs ≡ xs ++ (ys ++ zs)
append_assoc [] ys zs = refl
append_assoc (x ∷ xs) ys zs = ap (◌∷◌ x) (append_assoc xs ys zs)
