-- ===== src/Dsa/Groups/Valid.antt =====
-- What a descriptor of internal/dsa/dsa.go stands for, and what the merge of a group makes of it.
use derostorm.Base.{
  ℕ, ◌+◌, ◌≤◌, ◌<◌, ◌≡◌, refl, sym, ap, ◌∙◌, arith, true, false, List, [], ◌∷◌, ◌++◌, map, length,
  length-map, All, Chain, count, count-append,
}
use mathlib.Core.List.{append-nil}
use derostorm.Base.Bytes.{IsByte}
use derostorm.Dsa.Words.{Desc, dlen, sort_key, key32}
use derostorm.Dsa.Suffix.{UpTo, UpTo-trans, UpTo-less, UpTo-not_less}
use derostorm.Dsa.Groups.{places, merge_tree, first_list, less_in_group, merge_group}
use derostorm.Dsa.Groups.Merge.{
  concat, count-merge_places, All-merge_places, count-merge_tree, length-merge_tree,
  merge_places-Chain, merge_tree-Chain,
}

module _ (t : List ℕ) where
  -- A place of the text with the given key.
  abbrev pub HasKey : ℕ → ℕ → Type 0
  HasKey k p = (p < length t) × (key32 t (length t) p ≡ k)

  -- A list of places of one key, in the order of their suffixes.
  abbrev pub IsRun : ℕ → List ℕ → Type 0
  IsRun k ps = All (HasKey k) ps × Chain (UpTo t) ps

  -- The descriptor names such a list, of the length it says.
  abbrev pub IsDesc : List ℕ → Desc → Type 0
  IsDesc arena d = IsRun (sort_key d) (places arena d) × (length (places arena d) ≡ dlen d)

  -- The places of all descriptors.
  abbrev pub all_places : List ℕ → List Desc → List ℕ
  all_places arena ds = concat (map (places arena) ds)

  decides_less :
      (k : ℕ)
      → All IsByte t
      → (a b : ℕ) → HasKey k a
      → HasKey k b
      → less_in_group t b a ≡ true
      → UpTo t b a
  unfolding less_in_group
  decides_less k bytes a b (ha, ea) (hb, eb) h =
      UpTo-less t bytes b a (omega arith) (omega arith) (eb ∙ sym ea) h

  decides_more :
      (k : ℕ)
      → All IsByte t
      → (a b : ℕ) → HasKey k a
      → HasKey k b
      → less_in_group t b a ≡ false
      → UpTo t a b
  unfolding less_in_group
  decides_more k bytes a b (ha, ea) (hb, eb) h =
      UpTo-not_less t bytes b a (omega arith) (omega arith) (eb ∙ sym ea) h

  one_left :
      (P : List ℕ → Type 0) (p : ℕ) (ls : List (List ℕ))
      → length ls ≤ 1
      → P []
      → All P ls
      → P (first_list ls) × (count p (first_list ls) ≡ count p (concat ls))
  unfolding first_list
  one_left P p [] few none a = (none, refl)
  one_left P p (l ∷ []) few none (h, a) = (h, sym (ap (count p) (append-nil l)))
  one_left P p (l ∷ m ∷ ls) few none a = absurd (omega arith)

  split_runs :
      (k : ℕ) (arena : List ℕ) (ds : List Desc)
      → All (λ d. sort_key d ≡ k) ds
      → All (IsDesc arena) ds
      → All (All (HasKey k)) (map (places arena) ds) × All (Chain (UpTo t)) (map (places arena) ds)
  split_runs k arena [] e a = (tt, tt)
  split_runs k arena (d ∷ ds) (e, es) (((keys, chain), len), a) =
      let (keys', chains) = split_runs k arena ds es a in
      let here : All (HasKey k) (places arena d) = rw e at keys in ((here, keys'), (chain, chains))

  module _ (arena : List ℕ) (k p : ℕ) (bytes : All IsByte t) where
    Merged : List ℕ → List Desc → Type 0
    Merged ps ds = IsRun k ps × (count p ps ≡ count p (all_places arena ds))

    by_tree :
        (ds : List Desc)
        → All (λ d. sort_key d ≡ k) ds
        → All (IsDesc arena) ds
        → Merged (first_list (merge_tree (less_in_group t) (length ds) (map (places arena) ds))) ds
    unfolding Merged
    by_tree ds e a =
        let less = less_in_group t in
        let lists = map (places arena) ds in
        let (keys, chains) = split_runs k arena ds e a in
        let (keys', chains') =
          merge_tree-Chain less (UpTo t) (HasKey k) (UpTo-trans t) (decides_less k bytes)
            (decides_more k bytes) (length ds) lists keys chains in
        let few =
          length-merge_tree less (length ds) lists (omega (arith, length-map (places arena) ds)) in
        let result = merge_tree less (length ds) lists in
        let (have_key, same) = one_left (All (HasKey k)) p result few tt keys' in
        let (chain, _) = one_left (Chain (UpTo t)) p result few tt chains' in
        ((have_key, chain), same ∙ count-merge_tree less p (length ds) lists)

    -- Over a text of bytes, the merge of a group of valid descriptors with one key has the places of the
    -- descriptors, as often as these have them, in the order of the suffixes; they all have the key.
    pub merge_group-IsRun :
        (ds : List Desc)
        → All (λ d. sort_key d ≡ k) ds
        → All (IsDesc arena) ds
        → IsRun k (merge_group t arena ds)
          × (count p (merge_group t arena ds) ≡ count p (all_places arena ds))
    unfolding merge_group Merged
    merge_group-IsRun [] e a = by_tree [] e a
    merge_group-IsRun (d ∷ []) e a = by_tree (d ∷ []) e a
    merge_group-IsRun (d0 ∷ d1 ∷ []) e a =
        let less = less_in_group t in
        let ((k0, (k1, _)), (c0, (c1, _))) = split_runs k arena (d0 ∷ d1 ∷ []) e a in
        (
          (
            All-merge_places less (HasKey k) (places arena d0) (places arena d1) k0 k1,
            merge_places-Chain less (UpTo t) (HasKey k) (UpTo-trans t) (decides_less k bytes)
                (decides_more k bytes) (places arena d0) (places arena d1) k0 k1 c0 c1,
          ),
          count-merge_places less p (places arena d0) (places arena d1)
              ∙ sym (
                  count-append p (places arena d0) (places arena d1 ++ [])
                  ∙ ap (λ l. count p (places arena d0) + count p l) (append-nil (places arena d1))),
        )
    merge_group-IsRun (d0 ∷ d1 ∷ d2 ∷ ds) e a = by_tree (d0 ∷ d1 ∷ d2 ∷ ds) e a
