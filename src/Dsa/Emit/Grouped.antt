-- ===== src/Dsa/Emit/Grouped.antt =====
-- The group loop of emitRun in internal/dsa/dsa.go: the descriptors of one column.
use derostorm.Base.{
  append_assoc, ℕ, ◌+◌, ◌^◌, ◌≤◌, ◌<◌, ◌≡◌, refl, sym, ap, ◌∙◌, arith, List, [], ◌∷◌, ◌++◌, map,
  ◌==◌, ==_iff, length, length-append, take, drop, drop-drop, All, All-append, Chain, inl, inr,
  Bool-cases,
}
use mathlib.Core.Path.{subst}
use mathlib.Core.List.{append-nil}
use derostorm.Base.Bytes.{IsByte}
use derostorm.Dsa.Suffix.{UpTo}
use derostorm.Dsa.Column.{Entry}
use derostorm.Dsa.Groups.Valid.{HasKey, IsRun, IsDesc, all_places}
use derostorm.Dsa.Emit.Run.{group_loop, group_descs}
use derostorm.Dsa.Emit.Valid.{at_column, key32-lt, make_desc-IsDesc}

-- The arena has xs from o on.
abbrev pub Slice : List ℕ → ℕ → List ℕ → Type 0
Slice arena o xs = take (length xs) (drop o arena) ≡ xs

take-split :
    (xs ys zs : List ℕ)
    → take (length (xs ++ ys)) zs ≡ xs ++ ys
    → (take (length xs) zs ≡ xs) × (take (length ys) (drop (length xs) zs) ≡ ys)
take-split [] ys zs h = (refl, h)
take-split (x ∷ xs) ys [] h = cc
take-split (x ∷ xs) ys (z ∷ zs) h =
    let tails : take (length (xs ++ ys)) zs ≡ xs ++ ys = cc in
    let heads : z ≡ x = cc in let (a, b) = take-split xs ys zs tails in (rw (heads, a) refl, b)

pub Slice-append :
    (arena xs ys : List ℕ) (o : ℕ)
    → Slice arena o (xs ++ ys)
    → Slice arena o xs × Slice arena (o + length xs) ys
Slice-append arena xs ys o h =
    let (a, b) = take-split xs ys (drop o arena) h in (a, rw (← drop-drop o (length xs) arena) b)

map_append : (f : ℕ → ℕ) (xs ys : List ℕ) → map f (xs ++ ys) ≡ map f xs ++ map f ys
map_append f [] ys = refl
map_append f (x ∷ xs) ys = ap (◌∷◌ (f x)) (map_append f xs ys)

Chain-split : (R : ℕ → ℕ → Type 0) (xs ys : List ℕ) → Chain R (xs ++ ys) → Chain R xs × Chain R ys
Chain-split R [] ys c = (tt, c)
Chain-split R (x ∷ xs) ys (h, c) = let (a, b) = Chain-split R xs ys c in ((front xs h, a), b)
  where
    front : (zs : List ℕ) → All (R x) (zs ++ ys) → All (R x) zs
    front [] h = tt
    front (z ∷ zs) (g, h) = (g, front zs h)

-- The bases of the blocks.
abbrev pub bases : List Entry → List ℕ
bases es = map (λ e. e.0) es

module _ (t arena : List ℕ) (bytes : All IsByte t) (small : length t ≤ 2 ^ 20) (rel off : ℕ)
    (column : rel < 256) where
  -- The entries have the keys of their places.
  abbrev pub Keyed : List Entry → Type 0
  Keyed es = All (λ e. HasKey t e.1 (e.0 + rel)) es

  group_loop-IsDesc :
      (i k m : ℕ) (ps : List ℕ) (es : List Entry)
      → length ps ≡ m
      → 1 ≤ m
      → All (HasKey t k) (at_column rel ps)
      → Keyed es
      → Chain (UpTo t) (at_column rel (ps ++ bases es))
      → Slice arena (off + i) (ps ++ bases es)
      → off + i + (m + length es) ≤ 2 ^ 20
      → m + length es < 2 ^ 12
      → All (IsDesc t arena) (group_loop rel off i k m es)
        × (all_places t arena (group_loop rel off i k m es) ≡ at_column rel (ps ++ bases es))
  unfolding group_loop
  group_loop-IsDesc i k m [] es len some keys keyed chain slice room few = absurd (omega arith)
  group_loop-IsDesc i k m (p ∷ ps) [] len some (here, keys) keyed chain slice room few =
      let xs : List ℕ = p ∷ ps in
      let whole : xs ++ [] ≡ xs = append-nil xs in
      let run : IsRun t k (at_column rel xs) =
        ((here, keys), subst (λ l. Chain (UpTo t) (at_column rel l)) whole chain) in
      let bound : k < 2 ^ 24 = omega (arith, key32-lt t (p + rel) bytes, here) in
      let slice' : Slice arena (off + i) xs = subst (Slice arena (off + i)) whole slice in
      let (d, named) =
        make_desc-IsDesc t arena xs k rel (off + i) m small bound column (omega arith) (omega arith)
          (rw len at slice') len run in
      (
        (d, tt),
        ap (λ l. l ++ []) named ∙ append-nil (at_column rel xs) ∙ ap (at_column rel) (sym whole),
      )
  group_loop-IsDesc i k m (p ∷ ps) (e ∷ es) len some (here, keys) (he, keyed) chain slice room few =
      let xs : List ℕ = p ∷ ps in
      let rest = bases es in
      elim (Bool-cases (e.1 == k)) [
        | inl same ↦
            let eq : e.1 ≡ k = (==_iff e.1 k).0 same in
            let all : (xs ++ e.0 ∷ []) ++ rest ≡ xs ++ e.0 ∷ rest =
              append_assoc xs (e.0 ∷ []) rest in
            let mine : All (HasKey t e.1) (at_column rel xs) =
              subst (λ l. All (HasKey t l) (at_column rel xs)) (sym eq) (here, keys) in
            let longer : All (HasKey t e.1) (at_column rel (xs ++ e.0 ∷ [])) =
              subst (All (HasKey t e.1)) (sym (map_append (λ b. b + rel) xs (e.0 ∷ [])))
                (All-append (HasKey t e.1) (at_column rel xs) ((e.0 + rel) ∷ []) mine (he, tt)) in
            let (a, b) =
              group_loop-IsDesc i e.1 (m + 1) (xs ++ e.0 ∷ []) es
                (omega (arith, length-append xs (e.0 ∷ []))) (omega arith) longer keyed
                (subst (λ l. Chain (UpTo t) (at_column rel l)) (sym all) chain)
                (subst (Slice arena (off + i)) (sym all) slice) (omega arith) (omega arith) in
            rw same (a, b ∙ ap (at_column rel) all)
        | inr new ↦
            let (mine, theirs) = Slice-append arena xs (e.0 ∷ rest) (off + i) slice in
            let moved : off + i + length xs ≡ off + (i + m) = omega arith in
            let theirs' : Slice arena (off + (i + m)) (e.0 ∷ rest) = rw moved at theirs in
            let (c1, c2) =
              Chain-split (UpTo t) (at_column rel xs) (at_column rel (e.0 ∷ rest))
                (subst (Chain (UpTo t)) (map_append (λ b. b + rel) xs (e.0 ∷ rest)) chain) in
            let bound : k < 2 ^ 24 = omega (arith, key32-lt t (p + rel) bytes, here) in
            let (d, named) =
              make_desc-IsDesc t arena xs k rel (off + i) m small bound column (omega arith)
                (omega arith) (rw len at mine) len ((here, keys), c1) in
            let (a, b) =
              group_loop-IsDesc (i + m) e.1 1 (e.0 ∷ []) es refl (omega arith) (he, tt) keyed c2
                theirs' (omega arith) (omega arith) in
            rw new (
              (d, a),
              ap (λ l. l ++ all_places t arena (group_loop rel off (i + m) e.1 1 es)) named
                  ∙ ap (λ l. at_column rel xs ++ l) b
                  ∙ sym (map_append (λ b. b + rel) xs (e.0 ∷ rest)),
            )
      ]

  -- The descriptors of a column name the column of every block once, in the order of the blocks.
  pub group_descs-IsDesc :
      (es : List Entry)
      → Keyed es
      → Chain (UpTo t) (at_column rel (bases es))
      → Slice arena off (bases es)
      → off + length es ≤ 2 ^ 20
      → length es < 2 ^ 12
      → All (IsDesc t arena) (group_descs rel off es)
        × (all_places t arena (group_descs rel off es) ≡ at_column rel (bases es))
  unfolding group_descs
  group_descs-IsDesc [] keyed chain slice room few = (tt, refl)
  group_descs-IsDesc (e ∷ es) (he, keyed) chain slice room few =
      let z : off + 0 ≡ off = omega arith in
      group_loop-IsDesc 0 e.1 1 (e.0 ∷ []) es refl (omega arith) (he, tt) keyed chain (rw z slice)
        (omega arith) (omega arith)
