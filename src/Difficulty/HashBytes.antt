-- ===== src/Difficulty/HashBytes.antt =====
-- HashToBig: the loop that swaps the ends of the buffer, and the two readings of the bytes.
use Prim.Native.Nat.{ℕ, zero, suc, ◌+◌, ◌-◌, ◌/◌, ◌<◌, ◌≤◌}
use mathlib.Core.List.{reverse, reverse-cons}
use derostorm.Base.{
  List, [], ◌∷◌, ◌≡◌, refl, sym, ap, ◌∙◌, arith, ◌==◌, if◌then◌else◌, ◌⊎◌, inl, inr, length, get_or,
  set, length-append, length-set,
}
use derostorm.Base.Reverse.{get_or-set, get_or-ext, get_or-append}
use derostorm.Base.Bytes.{from_le, from_be, from_be_acc-append}
use derostorm.Difficulty.{swap_rounds, hash_to_big}

length-swap_rounds : (k i n : ℕ) (buf : List ℕ) → length (swap_rounds k i n buf) ≡ length buf
unfolding swap_rounds
length-swap_rounds zero i n buf = refl
length-swap_rounds (suc k) i n buf =
    length-swap_rounds k (i + 1) n _ ∙ length-set _ (n - 1 - i) _ ∙ length-set buf i _

-- One round exchanges place `i` and its mirror image, and touches no other.
get_or-swap_round :
    (i n j : ℕ) (buf : List ℕ)
    → n ≡ length buf
    → i < n - 1 - i
    → get_or (set (set buf i (get_or buf (n - 1 - i) 0)) (n - 1 - i) (get_or buf i 0)) j 0 ≡ (
        if i == j
        then get_or buf (n - 1 - j) 0
        else if n - 1 - i == j
        then get_or buf (n - 1 - j) 0
        else get_or buf j 0)
get_or-swap_round i n j buf e h =
    let v = get_or buf (n - 1 - i) 0 in
    ground (
      arith,
      get_or-set (set buf i v) (n - 1 - i) j (get_or buf i 0) 0,
      get_or-set buf i j v 0,
      length-set buf i v,
    )

length-reverse : (xs : List ℕ) → length (reverse xs) ≡ length xs
length-reverse [] = refl
length-reverse (x ∷ xs) =
    rw (reverse-cons x xs) (omega (arith, length-append (reverse xs) (x ∷ []), length-reverse xs))

get_or-reverse :
    (xs : List ℕ) (j : ℕ)
    → j < length xs
    → get_or (reverse xs) j 0 ≡ get_or xs (length xs - 1 - j) 0
get_or-reverse [] j h = elim h [ ]
get_or-reverse (x ∷ xs) j h =
    rw (reverse-cons x xs, get_or-append (reverse xs) (x ∷ []) j 0)
      (ground (arith, length-reverse xs, get_or-reverse xs j, shift j (length xs)))
  where
    shift : (j n : ℕ) → j < n → suc n - 1 - j ≡ suc (n - 1 - j)
    shift j n h = omega arith

pub from_be-reverse : (xs : List ℕ) → from_be (reverse xs) ≡ from_le xs
from_be-reverse [] = refl
from_be-reverse (x ∷ xs) =
    rw (reverse-cons x xs, from_be_acc-append (reverse xs) (x ∷ []) 0)
      (omega (arith, from_be-reverse xs))

-- The rounds from `i` leave alone what lies outside the part from `i` to its mirror image.
get_or-swap_rounds_outside :
    (k i n j : ℕ) (buf : List ℕ)
    → n ≡ length buf
    → i + k ≡ n / 2
    → (j < i) ⊎ (n - 1 - i < j)
    → get_or (swap_rounds k i n buf) j 0 ≡ get_or buf j 0
unfolding swap_rounds
get_or-swap_rounds_outside zero i n j buf e h out = refl
get_or-swap_rounds_outside (suc k) i n j buf e h out =
    let v = get_or buf (n - 1 - i) 0 in
    let u = get_or buf i 0 in
    let next = set (set buf i v) (n - 1 - i) u in
    get_or-swap_rounds_outside k (i + 1) n j next
      (omega (arith, length-set (set buf i v) (n - 1 - i) u, length-set buf i v)) (omega arith)
      (omega arith)
    ∙ ground (arith, get_or-swap_round i n j buf)

-- The rounds up to the middle mirror that part.
get_or-swap_rounds_inside :
    (k i n j : ℕ) (buf : List ℕ)
    → n ≡ length buf
    → i + k ≡ n / 2
    → i ≤ j
    → j ≤ n - 1 - i
    → j < n
    → get_or (swap_rounds k i n buf) j 0 ≡ get_or buf (n - 1 - j) 0
unfolding swap_rounds
get_or-swap_rounds_inside zero i n j buf e h lo hi lt = ap (λ m. get_or buf m 0) (omega arith)
get_or-swap_rounds_inside (suc k) i n j buf e h lo hi lt = elim (ends i j n (omega arith)) [
  | inl edge ↦
      get_or-swap_rounds_outside k (i + 1) n j next next_length (omega arith) (omega arith)
      ∙ ground (arith, get_or-swap_round i n j buf)
  | inr (after, before) ↦
      get_or-swap_rounds_inside k (i + 1) n j next next_length (omega arith) (omega arith)
        (omega arith) lt
      ∙ ground (arith, get_or-swap_round i n (n - 1 - j) buf)
]
  where
    v : ℕ
    v = get_or buf (n - 1 - i) 0

    next : List ℕ
    next = set (set buf i v) (n - 1 - i) (get_or buf i 0)

    next_length : n ≡ length next
    next_length =
        omega (arith, length-set (set buf i v) (n - 1 - i) (get_or buf i 0), length-set buf i v)

    ends :
        (i j n : ℕ)
        → (i ≤ j) × (j ≤ n - 1 - i)
        → ((i ≡ j) ⊎ (n - 1 - i ≡ j)) ⊎ ((i < j) × (j < n - 1 - i))
    ends i j n h = grind arith

swap_rounds-reverse : (buf : List ℕ) → swap_rounds (length buf / 2) 0 (length buf) buf ≡ reverse buf
swap_rounds-reverse buf =
    get_or-ext _ _ 0
      (length-swap_rounds (length buf / 2) 0 (length buf) buf ∙ sym (length-reverse buf))
      (λ j h. same j (omega (arith, length-swap_rounds (length buf / 2) 0 (length buf) buf)))
  where
    same :
        (j : ℕ)
        → j < length buf
        → get_or (swap_rounds (length buf / 2) 0 (length buf) buf) j 0 ≡ get_or (reverse buf) j 0
    same j h =
        get_or-swap_rounds_inside (length buf / 2) 0 (length buf) j buf refl (omega arith)
          (omega arith) (omega arith) h
        ∙ sym (get_or-reverse buf j h)

-- HashToBig of any number of bytes, 32 or not, is the little-endian number that they spell.
pub hash_to_big-from_le : (h : List ℕ) → hash_to_big h ≡ from_le h
unfolding hash_to_big
hash_to_big-from_le h = rw (swap_rounds-reverse h) (from_be-reverse h)
