-- ===== src/Dsa/Groups/Ascend.antt =====
-- The groups of SuffixArray in internal/dsa/dsa.go from one to the next: their sort keys, and the order of
-- the suffixes.
use derostorm.Base.{
  ℕ, ◌+◌, ◌≤◌, ◌<◌, ◌≡◌, refl, ap, ◌∙◌, arith, List, [], ◌∷◌, ◌++◌, ◌==◌, ==_iff, length, All,
  All-append, All-map, Chain, Chain-append, count, count-append, inl, inr, Bool-cases,
}
use derostorm.Base.Bytes.{IsByte}
use derostorm.Dsa.Words.{Desc, sort_key, key32}
use derostorm.Dsa.Suffix.{UpTo, UpTo-key32}
use derostorm.Dsa.Buckets.Stable.{SortedBy}
use derostorm.Dsa.Groups.{places, join_group, groups, merge_group}
use derostorm.Dsa.Groups.Merge.{concat}
use derostorm.Dsa.Groups.Valid.{HasKey, IsDesc, all_places, merge_group-IsRun}
use derostorm.Dsa.Groups.Written.{merged}

-- Every group has one key, smaller than the keys of the later groups.
Ascends : List (List Desc) → Type 0
Ascends [] = Unit
Ascends ([] ∷ gs) = ⊥
Ascends ((d ∷ g) ∷ gs) =
    All (λ e. sort_key e ≡ sort_key d) g × All (All (λ e. sort_key d < sort_key e)) gs × Ascends gs

concat-join_group : (d : Desc) (gs : List (List Desc)) → concat (join_group d gs) ≡ d ∷ concat gs
unfolding join_group
concat-join_group d [] = refl
concat-join_group d ([] ∷ gs) = refl
concat-join_group d ((e ∷ g) ∷ gs) = elim (Bool-cases (sort_key e == sort_key d)) [
  | inl eq ↦ rw eq refl
  | inr ne ↦ rw ne refl
]

pub concat-groups : (ds : List Desc) → concat (groups ds) ≡ ds
unfolding groups
concat-groups [] = refl
concat-groups (d ∷ ds) = concat-join_group d (groups ds) ∙ ap (◌∷◌ d) (concat-groups ds)

All-concat :
    (P : Desc → Type 0) (g : List Desc) (gs : List (List Desc))
    → All P (g ++ concat gs)
    → All P g × All P (concat gs)
All-concat P [] gs a = (tt, a)
All-concat P (d ∷ g) gs (h, a) = let (front, rest) = All-concat P g gs a in ((h, front), rest)

pub All-each : (P : Desc → Type 0) (gs : List (List Desc)) → All P (concat gs) → All (All P) gs
All-each P [] a = tt
All-each P (g ∷ gs) a = let (front, rest) = All-concat P g gs a in (front, All-each P gs rest)

join_group-Ascends :
    (d : Desc) (gs : List (List Desc))
    → Ascends gs
    → All (All (λ e. sort_key d ≤ sort_key e)) gs
    → Ascends (join_group d gs)
unfolding join_group Ascends
join_group-Ascends d [] h le = (tt, tt, tt)
join_group-Ascends d ([] ∷ gs) h le = elim h [ ]
join_group-Ascends d ((e ∷ g) ∷ gs) (same, later, h) ((le, les), lgs) =
    elim (Bool-cases (sort_key e == sort_key d)) [
      | inl eq ↦
          let k : sort_key e ≡ sort_key d = (==_iff (sort_key e) (sort_key d)).0 eq in
          rw eq (
            (
              k,
              All-map (λ f. sort_key f ≡ sort_key e) (λ f. sort_key f ≡ sort_key d) g (λ f q. q ∙ k)
                  same,
            ),
            rw k at later,
            h,
          )
      | inr ne ↦
          let lt : sort_key d < sort_key e = ground arith in
          let above : All (λ f. sort_key d < sort_key f) g =
            All-map (λ f. sort_key f ≡ sort_key e) (λ f. sort_key d < sort_key f) g
              (λ f q. omega arith) same in
          let beyond : All (All (λ f. sort_key d < sort_key f)) gs =
            All-map (All (λ f. sort_key e < sort_key f)) (All (λ f. sort_key d < sort_key f)) gs
              (λ l.
                All-map (λ f. sort_key e < sort_key f) (λ f. sort_key d < sort_key f) l
                  (λ f q. omega arith))
              later in
          rw ne (tt, ((lt, above), beyond), (same, later, h))
    ]

groups-Ascends : (ds : List Desc) → SortedBy sort_key ds → Ascends (groups ds)
unfolding groups Ascends
groups-Ascends [] s = tt
groups-Ascends (d ∷ ds) (h, s) =
    join_group-Ascends d (groups ds) (groups-Ascends ds s)
      (All-each (λ e. sort_key d ≤ sort_key e) (groups ds) (rw (concat-groups ds) h))

module _ (t arena : List ℕ) (bytes : All IsByte t) where
  -- Places of later groups have larger keys.
  after_key :
      (k : ℕ) (gs : List (List Desc))
      → Ascends gs
      → All (All (λ e. k < sort_key e)) gs
      → All (All (IsDesc t arena)) gs
      → All (λ q. k < key32 t (length t) q) (merged t arena gs)
  unfolding Ascends
  after_key k [] h lt a = tt
  after_key k ([] ∷ gs) h lt a = elim h [ ]
  after_key k ((d ∷ g) ∷ gs) (same, later, h) ((lt, lts), ltgs) (valid, a) =
      let ((keys, _), _) =
        merge_group-IsRun t arena (sort_key d) 0 bytes (d ∷ g) (refl, same) valid in
      All-append (λ q. k < key32 t (length t) q) (merge_group t arena (d ∷ g)) (merged t arena gs)
        (All-map (HasKey t (sort_key d)) (λ q. k < key32 t (length t) q)
          (merge_group t arena (d ∷ g)) (λ q (_, e). omega arith) keys)
        (after_key k gs h ltgs a)

  -- The merged groups are in the order of the suffixes.
  merged-Chain :
      (gs : List (List Desc))
      → Ascends gs
      → All (All (IsDesc t arena)) gs
      → Chain (UpTo t) (merged t arena gs)
  unfolding Ascends
  merged-Chain [] h a = tt
  merged-Chain ([] ∷ gs) h a = elim h [ ]
  merged-Chain ((d ∷ g) ∷ gs) (same, later, h) (valid, a) =
      let ((keys, chain), _) =
        merge_group-IsRun t arena (sort_key d) 0 bytes (d ∷ g) (refl, same) valid in
      let rest = after_key (sort_key d) gs h later a in
      Chain-append (UpTo t) (merge_group t arena (d ∷ g)) (merged t arena gs) chain
        (merged-Chain gs h a)
        (All-map (HasKey t (sort_key d)) (λ p. All (UpTo t p) (merged t arena gs))
          (merge_group t arena (d ∷ g))
          (λ p (_, e).
            All-map (λ q. sort_key d < key32 t (length t) q) (UpTo t p) (merged t arena gs)
              (λ q lt. UpTo-key32 t bytes p q (omega arith)) rest)
          keys)

  all_places-append :
      (ds es : List Desc) (p : ℕ)
      → count p (all_places t arena (ds ++ es))
        ≡ count p (all_places t arena ds) + count p (all_places t arena es)
  all_places-append [] es p = omega arith
  all_places-append (d ∷ ds) es p = omega (
    arith,
    count-append p (places arena d) (all_places t arena (ds ++ es)),
    count-append p (places arena d) (all_places t arena ds),
    all_places-append ds es p,
  )

  -- Merging keeps the places.
  count-merged :
      (gs : List (List Desc)) (p : ℕ)
      → Ascends gs
      → All (All (IsDesc t arena)) gs
      → count p (merged t arena gs) ≡ count p (all_places t arena (concat gs))
  unfolding Ascends
  count-merged [] p h a = refl
  count-merged ([] ∷ gs) p h a = elim h [ ]
  count-merged ((d ∷ g) ∷ gs) p (same, later, h) (valid, a) =
      let (_, here) = merge_group-IsRun t arena (sort_key d) p bytes (d ∷ g) (refl, same) valid in
      omega (
        arith,
        count-append p (merge_group t arena (d ∷ g)) (merged t arena gs),
        count-merged gs p h a,
        here,
        all_places-append (d ∷ g) (concat gs) p,
      )

  -- For descriptors in the order of their keys.
  pub merged-groups :
      (ds : List Desc) (p : ℕ)
      → SortedBy sort_key ds
      → All (IsDesc t arena) ds
      → Chain (UpTo t) (merged t arena (groups ds))
        × (count p (merged t arena (groups ds)) ≡ count p (all_places t arena ds))
  merged-groups ds p sorted a =
      let h = groups-Ascends ds sorted in
      let valid : All (All (IsDesc t arena)) (groups ds) =
        All-each (IsDesc t arena) (groups ds) (rw (concat-groups ds) a) in
      (
        merged-Chain (groups ds) h valid,
        count-merged (groups ds) p h valid
            ∙ ap (λ es. count p (all_places t arena es)) (concat-groups ds),
      )
