-- ===== src/Dsa/Groups/Merge.antt =====
-- The merges of SuffixArray in internal/dsa/dsa.go: one round over the lists, and the rounds together.
use derostorm.Base.{
  ℕ, zero, suc, ◌+◌, ◌≤◌, ◌<◌, ◌≡◌, refl, ◌∙◌, arith, Bool, true, false, List, [], ◌∷◌, ◌++◌, ltb,
  length, All, All-map, Chain, count, count-append, inl, inr, Bool-cases,
}
use derostorm.Dsa.Groups.{merge_places, merge_round, merge_tree}

abbrev pub concat {ℓ} : {A : Type ℓ} → List (List A) → List A
concat [] = []
concat (l ∷ ls) = l ++ concat ls

module _ (less : ℕ → ℕ → Bool) where
  merge_second :
      (x y : ℕ) (xs ys : List ℕ)
      → less y x ≡ true
      → merge_places less (x ∷ xs) (y ∷ ys) ≡ y ∷ merge_places less (x ∷ xs) ys
  unfolding merge_places
  merge_second x y xs ys e = rw (merge_places, e) refl

  merge_first :
      (x y : ℕ) (xs ys : List ℕ)
      → less y x ≡ false
      → merge_places less (x ∷ xs) (y ∷ ys) ≡ x ∷ merge_places less xs (y ∷ ys)
  unfolding merge_places
  merge_first x y xs ys e = rw (merge_places, e) refl

  pub count-merge_places :
      (p : ℕ) (xs ys : List ℕ) → count p (merge_places less xs ys) ≡ count p xs + count p ys
  unfolding merge_places
  count-merge_places p [] ys = omega arith
  count-merge_places p (x ∷ xs) [] = omega arith
  count-merge_places p (x ∷ xs) (y ∷ ys) = elim (Bool-cases (less y x)) [
    | inl e ↦ rw (merge_second x y xs ys e) (omega (arith, count-merge_places p (x ∷ xs) ys))
    | inr e ↦ rw (merge_first x y xs ys e) (omega (arith, count-merge_places p xs (y ∷ ys)))
  ]

  pub All-merge_places :
      (P : ℕ → Type 0) (xs ys : List ℕ) → All P xs → All P ys → All P (merge_places less xs ys)
  unfolding merge_places
  All-merge_places P [] ys ax ay = ay
  All-merge_places P (x ∷ xs) [] ax ay = ax
  All-merge_places P (x ∷ xs) (y ∷ ys) (hx, ax) (hy, ay) = elim (Bool-cases (less y x)) [
    | inl e ↦ rw (merge_second x y xs ys e) (hy, All-merge_places P (x ∷ xs) ys (hx, ax) ay)
    | inr e ↦ rw (merge_first x y xs ys e) (hx, All-merge_places P xs (y ∷ ys) ax (hy, ay))
  ]

  pub length-merge_places :
      (xs ys : List ℕ) → length (merge_places less xs ys) ≡ length xs + length ys
  unfolding merge_places
  length-merge_places [] ys = omega arith
  length-merge_places (x ∷ xs) [] = omega arith
  length-merge_places (x ∷ xs) (y ∷ ys) = elim (Bool-cases (less y x)) [
    | inl e ↦ rw (merge_second x y xs ys e) (omega (arith, length-merge_places (x ∷ xs) ys))
    | inr e ↦ rw (merge_first x y xs ys e) (omega (arith, length-merge_places xs (y ∷ ys)))
  ]

  count-merge_round :
      (p : ℕ) (ls : List (List ℕ)) → count p (concat (merge_round less ls)) ≡ count p (concat ls)
  unfolding merge_round
  count-merge_round p [] = refl
  count-merge_round p (a ∷ []) = refl
  count-merge_round p (a ∷ b ∷ ls) = omega (
    arith,
    count-append p (merge_places less a b) (concat (merge_round less ls)),
    count-append p a (b ++ concat ls),
    count-append p b (concat ls),
    count-merge_places p a b,
    count-merge_round p ls,
  )

  length-merge_round :
      (ls : List (List ℕ))
      → (length (merge_round less ls) ≤ length ls)
        × (2 ≤ length ls → length (merge_round less ls) < length ls)
        × (1 ≤ length ls → 1 ≤ length (merge_round less ls))
  unfolding merge_round
  length-merge_round [] = (omega arith, λ h. absurd (omega arith), λ h. absurd (omega arith))
  length-merge_round (a ∷ []) = (omega arith, λ h. absurd (omega arith), λ h. h)
  length-merge_round (a ∷ b ∷ ls) =
      let (shorter, _, _) = length-merge_round ls in
      (omega arith, λ h. omega arith, λ h. omega arith)

  -- The loop of the merge tree ends: with as many rounds as there are lists at most one list is
  -- left, whatever the comparison answers.
  pub length-merge_tree :
      (rounds : ℕ) (ls : List (List ℕ))
      → length ls ≤ rounds
      → length (merge_tree less rounds ls) ≤ 1
  unfolding merge_tree
  length-merge_tree zero ls h = omega arith
  length-merge_tree (suc rounds) ls h = elim (Bool-cases (ltb 1 (length ls))) [
    | inl more ↦ rw more (
        let (_, shorter, _) = length-merge_round ls in
        let more' : 2 ≤ length ls = ground arith in
        let fewer = shorter more' in length-merge_tree rounds (merge_round less ls) (omega arith))
    | inr few ↦ rw few (ground arith)
  ]

  pub count-merge_tree :
      (p rounds : ℕ) (ls : List (List ℕ))
      → count p (concat (merge_tree less rounds ls)) ≡ count p (concat ls)
  unfolding merge_tree
  count-merge_tree p zero ls = refl
  count-merge_tree p (suc rounds) ls = elim (Bool-cases (ltb 1 (length ls))) [
    | inl more ↦ rw more (count-merge_tree p rounds (merge_round less ls) ∙ count-merge_round p ls)
    | inr few ↦ rw few refl
  ]

-- A comparison that decides an order R between the places that satisfy P.
module _ (less : ℕ → ℕ → Bool) (R : ℕ → ℕ → Type 0) (P : ℕ → Type 0)
    (trans : (a b c : ℕ) → R a b → R b c → R a c)
    (yes : (a b : ℕ) → P a → P b → less b a ≡ true → R b a)
    (no : (a b : ℕ) → P a → P b → less b a ≡ false → R a b) where
  below : (a b : ℕ) (xs : List ℕ) → R a b → All (R b) xs → All (R a) xs
  below a b xs h = All-map (R b) (R a) xs (λ c g. trans a b c h g)

  pub merge_places-Chain :
      (xs ys : List ℕ)
      → All P xs
      → All P ys
      → Chain R xs
      → Chain R ys
      → Chain R (merge_places less xs ys)
  unfolding merge_places
  merge_places-Chain [] ys ax ay cx cy = cy
  merge_places-Chain (x ∷ xs) [] ax ay cx cy = cx
  merge_places-Chain (x ∷ xs) (y ∷ ys) (hx, ax) (hy, ay) (rx, cx) (ry, cy) =
      elim (Bool-cases (less y x)) [
        | inl e ↦
            let first = yes x y hx hy e in
            rw (merge_second less x y xs ys e) (
              All-merge_places less (R y) (x ∷ xs) ys (first, below y x xs first rx) ry,
              merge_places-Chain (x ∷ xs) ys (hx, ax) ay (rx, cx) cy,
            )
        | inr e ↦
            let first = no x y hx hy e in
            rw (merge_first less x y xs ys e) (
              All-merge_places less (R x) xs (y ∷ ys) rx (first, below x y ys first ry),
              merge_places-Chain xs (y ∷ ys) ax (hy, ay) cx (ry, cy),
            )
      ]

  merge_round-Chain :
      (ls : List (List ℕ))
      → All (All P) ls
      → All (Chain R) ls
      → All (All P) (merge_round less ls) × All (Chain R) (merge_round less ls)
  unfolding merge_round
  merge_round-Chain [] a c = (tt, tt)
  merge_round-Chain (l ∷ []) a c = (a, c)
  merge_round-Chain (l ∷ m ∷ ls) (al, (am, a)) (cl, (cm, c)) =
      let (a', c') = merge_round-Chain ls a c in
      ((All-merge_places less P l m al am, a'), (merge_places-Chain l m al am cl cm, c'))

  pub merge_tree-Chain :
      (rounds : ℕ) (ls : List (List ℕ))
      → All (All P) ls
      → All (Chain R) ls
      → All (All P) (merge_tree less rounds ls) × All (Chain R) (merge_tree less rounds ls)
  unfolding merge_tree
  merge_tree-Chain zero ls a c = (a, c)
  merge_tree-Chain (suc rounds) ls a c = elim (Bool-cases (ltb 1 (length ls))) [
    | inl more ↦ rw more (
        let (a', c') = merge_round-Chain ls a c in
        merge_tree-Chain rounds (merge_round less ls) a' c')
    | inr few ↦ rw few (a, c)
  ]
