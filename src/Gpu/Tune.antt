-- ===== src/Gpu/Tune.antt =====
-- cmd/derostorm/gpu_tune.go: the block counts that are tried on a card, and the one that mining
-- uses. The card's multiprocessors and its ceiling of blocks are counts of the library, which are
-- not negative.
use derostorm.Base.{
  ℕ, zero, suc, ◌*◌, ◌/◌, ◌<◌, ◌≡◌, refl, ap, ◌∙◌, arith, Bool, false, ◌||◌, ◌&&◌, List, [], ◌∷◌,
  ◌++◌, ltb, leb, ◌==◌, if◌then◌else◌, All, inl, inr, Bool-cases,
}
use derostorm.Base.Int.{ℤ, pos, negsuc}

-- seen[c]
abbrev pub contains : List ℕ → ℕ → Bool
contains [] c = false
contains (x ∷ xs) c = x == c || contains xs c

abbrev pub raw_candidates : ℕ → ℕ → List ℕ
raw_candidates sms max_blocks =
    sms / 4 ∷ sms / 2 ∷ sms ∷ sms * 2 ∷ sms * 4 ∷ sms * 5 ∷ sms * 6 ∷ sms * 8 ∷ max_blocks ∷ []

-- The loop of blockCandidates; `out` holds exactly the settings that are marked in `seen`.
pub keep_new : ℕ → List ℕ → List ℕ → List ℕ
keep_new max_blocks [] out = out
keep_new max_blocks (c ∷ raw) out =
    if ltb c 1 || (ltb max_blocks c || contains out c)
    then keep_new max_blocks raw out
    else keep_new max_blocks raw (out ++ c ∷ [])

-- sort.Ints
pub insert : ℕ → List ℕ → List ℕ
insert c [] = c ∷ []
insert c (x ∷ xs) = let rest = insert c xs in if leb c x then c ∷ x ∷ xs else x ∷ rest

pub sort_ints : List ℕ → List ℕ
unfolding insert
sort_ints [] = []
sort_ints (x ∷ xs) = insert x (sort_ints xs)

unfoldable pub block_candidates : ℕ → ℕ → List ℕ
unfolding keep_new sort_ints
block_candidates sms max_blocks = sort_ints (keep_new max_blocks (raw_candidates sms max_blocks) [])

-- newBlockTuner: the block count that it sets on the card.
unfoldable pub mining_blocks : ℤ → ℕ → ℕ
mining_blocks (pos (suc n)) max_blocks = if ltb max_blocks (suc n) then max_blocks else suc n
mining_blocks (pos zero) max_blocks = max_blocks
mining_blocks (negsuc n) max_blocks = max_blocks

-- Every element is below all that follow.
abbrev pub Ascending : List ℕ → Type 0
Ascending [] = Unit
Ascending (x ∷ xs) = All (λ y. x < y) xs × Ascending xs

contains-append :
    (xs ys : List ℕ) (c : ℕ) → contains (xs ++ ys) c ≡ (contains xs c || contains ys c)
contains-append [] ys c = refl
contains-append (x ∷ xs) ys c = ground (arith, contains-append xs ys c)

contains-insert :
    (x : ℕ) (xs : List ℕ) (c : ℕ) → contains (insert x xs) c ≡ (x == c || contains xs c)
unfolding insert
contains-insert x [] c = refl
contains-insert x (y ∷ ys) c = ground (arith, contains-insert x ys c)

contains-sort_ints : (xs : List ℕ) (c : ℕ) → contains (sort_ints xs) c ≡ contains xs c
unfolding sort_ints
contains-sort_ints [] c = refl
contains-sort_ints (x ∷ xs) c =
    contains-insert x (sort_ints xs) c ∙ ap (λ b. x == c || b) (contains-sort_ints xs c)

contains-keep_new :
    (m : ℕ) (raw out : List ℕ) (c : ℕ)
    → contains (keep_new m raw out) c ≡ (contains out c || (contains raw c && (leb 1 c && leb c m)))
unfolding keep_new
contains-keep_new m [] out c = ground arith
contains-keep_new m (x ∷ raw) out c = ground (
  arith,
  contains-keep_new m raw out c,
  contains-keep_new m raw (out ++ x ∷ []) c,
  contains-append out (x ∷ []) c,
)

-- No element occurs twice.
abbrev Distinct : List ℕ → Type 0
Distinct [] = Unit
Distinct (x ∷ xs) = (contains xs x ≡ false) × Distinct xs

Distinct-append_one :
    (xs : List ℕ) (c : ℕ) → Distinct xs → contains xs c ≡ false → Distinct (xs ++ c ∷ [])
Distinct-append_one [] c d h = (refl, tt)
Distinct-append_one (x ∷ xs) c (hx, d) h =
    (ground (arith, contains-append xs (c ∷ []) x), Distinct-append_one xs c d (ground arith))

Distinct-keep_new : (m : ℕ) (raw out : List ℕ) → Distinct out → Distinct (keep_new m raw out)
unfolding keep_new
Distinct-keep_new m [] out d = d
Distinct-keep_new m (c ∷ raw) out d = elim (Bool-cases (ltb c 1 || (ltb m c || contains out c))) [
  | inl skip ↦ rw (skip, keep_new) (Distinct-keep_new m raw out d)
  | inr keep ↦
      rw (keep, keep_new)
        (Distinct-keep_new m raw (out ++ c ∷ []) (Distinct-append_one out c d (ground arith)))
]

All-below : (x y : ℕ) (xs : List ℕ) → x < y → All (λ z. y < z) xs → All (λ z. x < z) xs
All-below x y [] h a = tt
All-below x y (z ∷ xs) h (hz, a) = (omega arith, All-below x y xs h a)

All-insert : (b x : ℕ) (xs : List ℕ) → b < x → All (λ z. b < z) xs → All (λ z. b < z) (insert x xs)
unfolding insert
All-insert b x [] h a = (h, tt)
All-insert b x (y ∷ ys) h (hy, a) = elim (Bool-cases (leb x y)) [
  | inl le ↦ rw (le, insert) (h, (hy, a))
  | inr gt ↦ rw (gt, insert) (hy, All-insert b x ys h a)
]

Ascending-insert :
    (x : ℕ) (xs : List ℕ) → contains xs x ≡ false → Ascending xs → Ascending (insert x xs)
unfolding insert
Ascending-insert x [] h a = (tt, tt)
Ascending-insert x (y ∷ ys) h (ay, a) = elim (Bool-cases (leb x y)) [
  | inl le ↦
      let lt : x < y = ground arith in rw (le, insert) ((lt, All-below x y ys lt ay), (ay, a))
  | inr gt ↦
      rw (gt, insert) (All-insert y x ys (ground arith) ay, Ascending-insert x ys (ground arith) a)
]

Ascending-sort_ints : (xs : List ℕ) → Distinct xs → Ascending (sort_ints xs)
unfolding sort_ints
Ascending-sort_ints [] d = tt
Ascending-sort_ints (x ∷ xs) (h, d) =
    Ascending-insert x (sort_ints xs) (contains-sort_ints xs x ∙ h) (Ascending-sort_ints xs d)

-- The settings that --bench sweeps ascend with no repetition; a setting is among them exactly when
-- it is one of the raw fractions and multiples and lies between 1 and the ceiling; and so the
-- ceiling is among them unless it is 0.
pub block_candidates_lem :
    (sms max_blocks c : ℕ)
    → Ascending (block_candidates sms max_blocks)
      × (contains (block_candidates sms max_blocks) c
          ≡ (contains (raw_candidates sms max_blocks) c && (leb 1 c && leb c max_blocks)))
      × (contains (block_candidates sms max_blocks) max_blocks ≡ leb 1 max_blocks)
unfolding block_candidates
block_candidates_lem sms m c =
    let member : (c : ℕ)
        → contains (sort_ints (keep_new m (raw_candidates sms m) [])) c
          ≡ (contains (raw_candidates sms m) c && (leb 1 c && leb c m)) =
      λ c.
        contains-sort_ints (keep_new m (raw_candidates sms m) []) c
        ∙ contains-keep_new m (raw_candidates sms m) [] c in
    (
      Ascending-sort_ints (keep_new m (raw_candidates sms m) [])
          (Distinct-keep_new m (raw_candidates sms m) [] tt),
      member c,
      member m ∙ ground arith,
    )
