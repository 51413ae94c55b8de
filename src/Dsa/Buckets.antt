-- ===== src/Dsa/Buckets.antt =====
-- The stable order by a key, bucket by bucket, and the counting sort that internal/dsa/dsa.go runs
-- in sortDesc and in columnStepKeys: count the keys, add the counts up, and move every element to
-- the slot of its key.
pub mod Counting
pub mod Order
pub mod Stable
pub mod Kept
use derostorm.Base.{
  ℕ, zero, suc, ◌+◌, ◌-◌, ◌*◌, ◌%◌, ◌^◌, ◌≤◌, ◌<◌, ◌≡◌, refl, sym, ap, ◌∙◌, arith, Bool, true,
  false, List, [], ◌∷◌, ◌++◌, ltb, ◌==◌, if◌then◌else◌, length, length-append, get_or, set, take,
  drop, replicate, All, inl, inr, Bool-cases,
}

module _ {ℓ} {A : Type ℓ} (key : A → ℕ) where
  -- The elements with the key v, in their order.
  abbrev pub bucket : ℕ → List A → List A
  bucket v [] = []
  bucket v (x ∷ xs) = let rest = bucket v xs in if key x == v then x ∷ rest else rest

  -- The elements with the keys below m, the smallest key first.
  abbrev pub buckets : ℕ → List A → List A
  buckets zero xs = []
  buckets (suc m) xs = buckets m xs ++ bucket m xs

  -- hist[key]++ for every element.
  unfoldable pub count_loop : List A → List ℕ → List ℕ
  count_loop [] cnt = cnt
  count_loop (x ∷ xs) cnt = count_loop xs (set cnt (key x) ((get_or cnt (key x) 0 + 1) % 2 ^ 32))

  -- The move of every element to its slot.
  unfoldable pub scatter : List A → List ℕ → List A → List A
  scatter [] cnt out = out
  scatter (x ∷ xs) cnt out =
      let slot = get_or cnt (key x) 0 in
      scatter xs (set cnt (key x) ((slot + 1) % 2 ^ 32)) (set out slot x)

-- Every count becomes the sum of those before it.
unfoldable pub sums : List ℕ → ℕ → List ℕ
sums [] sum = []
sums (c ∷ cnt) sum = sum ∷ sums cnt ((sum + c) % 2 ^ 32)

module _ {ℓ} {A : Type ℓ} (key : A → ℕ) where
  -- One pass over `bins` keys into the buffer `out`.
  unfoldable pub counting_pass : ℕ → List A → List A → List A
  unfolding count_loop sums scatter
  counting_pass bins xs out = scatter key xs (sums (count_loop key xs (replicate bins 0)) 0) out
