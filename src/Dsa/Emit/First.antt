-- ===== src/Dsa/Emit/First.antt =====
-- The first order of a run in emitRun of internal/dsa/dsa.go: the insertion sort of the last places
-- of the blocks.
use derostorm.Base.{
  ℕ, suc, ◌+◌, ◌-◌, ◌≤◌, ◌≡◌, refl, sym, ap, ◌∙◌, arith, List, [], ◌∷◌, if◌then◌else◌, length,
  get_or, set, drop, All, All-map, Chain, count, inl, inr, Bool-cases,
}
use derostorm.Base.Bytes.{IsByte}
use derostorm.Dsa.Compare.{lex_less, suffix_less, suffix_less_from-lex_less}
use derostorm.Dsa.Suffix.{UpTo, UpTo-trans, lex_less_asym}
use derostorm.Dsa.Emit.Run.{place_end, sort_ends}

-- The elements of rp, the last first, and then zs.
rev_append : List ℕ → List ℕ → List ℕ
rev_append [] zs = zs
rev_append (y ∷ rp) zs = rev_append rp (y ∷ zs)

get_or-rev_append :
    (rp zs : List ℕ) (k : ℕ) → get_or (rev_append rp zs) (length rp + k) 0 ≡ get_or zs k 0
unfolding rev_append
get_or-rev_append [] zs k = let z : length {A = ℕ} [] + k ≡ k = omega arith in rw z refl
get_or-rev_append (y ∷ rp) zs k =
    let e : length (y ∷ rp) + k ≡ length rp + suc k = omega arith in
    rw e (get_or-rev_append rp (y ∷ zs) (suc k))

set-rev_append :
    (rp zs : List ℕ) (k v : ℕ)
    → set (rev_append rp zs) (length rp + k) v ≡ rev_append rp (set zs k v)
unfolding rev_append
set-rev_append [] zs k v = let z : length {A = ℕ} [] + k ≡ k = omega arith in rw z refl
set-rev_append (y ∷ rp) zs k v =
    let e : length (y ∷ rp) + k ≡ length rp + suc k = omega arith in
    rw e (set-rev_append rp (y ∷ zs) (suc k) v)

count-rev_append : (p : ℕ) (rp zs : List ℕ) → count p (rev_append rp zs) ≡ count p rp + count p zs
unfolding rev_append
count-rev_append p [] zs = omega arith
count-rev_append p (y ∷ rp) zs = omega (arith, count-rev_append p rp (y ∷ zs))

length-rev_append : (rp zs : List ℕ) → length (rev_append rp zs) ≡ length rp + length zs
unfolding rev_append
length-rev_append [] zs = omega arith
length-rev_append (y ∷ rp) zs = omega (arith, length-rev_append rp (y ∷ zs))

All-rev_append : (P : ℕ → Type 0) (rp zs : List ℕ) → All P rp → All P zs → All P (rev_append rp zs)
unfolding rev_append
All-rev_append P [] zs a b = b
All-rev_append P (y ∷ rp) zs (h, a) b = All-rev_append P rp (y ∷ zs) a (h, b)

Chain-rev_append :
    (R : ℕ → ℕ → Type 0) (rp zs : List ℕ)
    → Chain (λ x y. R y x) rp
    → Chain R zs
    → All (λ y. All (R y) zs) rp
    → Chain R (rev_append rp zs)
unfolding rev_append
Chain-rev_append R [] zs c d a = d
Chain-rev_append R (y ∷ rp) zs (h, c) d (hy, a) =
    Chain-rev_append R rp (y ∷ zs) c (hy, d) (both rp h a)
  where
    both :
        (xs : List ℕ)
        → All (λ x. R x y) xs
        → All (λ x. All (R x) zs) xs
        → All (λ x. All (R x) (y ∷ zs)) xs
    both [] h a = tt
    both (x ∷ xs) (g, h) (b, a) = ((g, b), both xs h a)

module _ (t : List ℕ) where
  -- The insertion into the places in front, the nearest first.
  insert_back : ℕ → List ℕ → List ℕ
  insert_back v [] = v ∷ []
  insert_back v (y ∷ rp) =
      let rest = insert_back v rp in if suffix_less t (length t) v y then y ∷ rest else v ∷ y ∷ rp

  place_end-insert_back :
      (v x : ℕ) (rp zs : List ℕ)
      → place_end t v (length rp) (rev_append rp (x ∷ zs)) ≡ rev_append (insert_back v rp) zs
  unfolding place_end rev_append insert_back
  place_end-insert_back v x [] zs = refl
  place_end-insert_back v x (y ∷ rp) zs =
      let near : get_or (rev_append rp (y ∷ x ∷ zs)) (length rp) 0 ≡ y =
        ap (λ k. get_or (rev_append rp (y ∷ x ∷ zs)) k 0) {y = length rp + 0} (omega arith)
        ∙ get_or-rev_append rp (y ∷ x ∷ zs) 0 in
      let gap : (u : ℕ)
          → set (rev_append rp (y ∷ x ∷ zs)) (suc (length rp)) u ≡ rev_append rp (y ∷ u ∷ zs) =
        λ u.
          ap (λ k. set (rev_append rp (y ∷ x ∷ zs)) k u) {y = length rp + 1} (omega arith)
          ∙ set-rev_append rp (y ∷ x ∷ zs) 1 u in
      rw (near, gap y, gap v)
        (elim (Bool-cases (suffix_less t (length t) v y)) [
          | inl less ↦ rw less (place_end-insert_back v y rp (y ∷ zs))
          | inr more ↦ rw more refl
        ])

  insert_all : List ℕ → List ℕ → List ℕ
  unfolding insert_back
  insert_all rp [] = rp
  insert_all rp (x ∷ zs) = insert_all (insert_back x rp) zs

  length-insert_back : (v : ℕ) (rp : List ℕ) → length (insert_back v rp) ≡ suc (length rp)
  unfolding insert_back
  length-insert_back v [] = refl
  length-insert_back v (y ∷ rp) = elim (Bool-cases (suffix_less t (length t) v y)) [
    | inl less ↦ rw less (ap suc (length-insert_back v rp))
    | inr more ↦ rw more refl
  ]

  sort_ends-insert_all :
      (rp zs : List ℕ)
      → sort_ends t (length zs) (length rp) (rev_append rp zs) ≡ rev_append (insert_all rp zs) []
  unfolding sort_ends insert_all rev_append
  sort_ends-insert_all rp [] = refl
  sort_ends-insert_all rp (x ∷ zs) =
      let next : get_or (rev_append rp (x ∷ zs)) (length rp) 0 ≡ x =
        ap (λ k. get_or (rev_append rp (x ∷ zs)) k 0) {y = length rp + 0} (omega arith)
        ∙ get_or-rev_append rp (x ∷ zs) 0 in
      let more : length rp + 1 ≡ length (insert_back x rp) =
        omega (arith, length-insert_back x rp) in
      rw (sort_ends, next, place_end-insert_back x x rp zs, more)
        (sort_ends-insert_all (insert_back x rp) zs)

  count-insert_back : (p v : ℕ) (rp : List ℕ) → count p (insert_back v rp) ≡ count p (v ∷ rp)
  unfolding insert_back
  count-insert_back p v [] = refl
  count-insert_back p v (y ∷ rp) = elim (Bool-cases (suffix_less t (length t) v y)) [
    | inl less ↦ rw less (omega (arith, count-insert_back p v rp))
    | inr more ↦ rw more refl
  ]

  count-insert_all : (p : ℕ) (rp zs : List ℕ) → count p (insert_all rp zs) ≡ count p rp + count p zs
  unfolding insert_all
  count-insert_all p rp [] = omega arith
  count-insert_all p rp (x ∷ zs) =
      omega (arith, count-insert_all p (insert_back x rp) zs, count-insert_back p x rp)

  length-insert_all : (rp zs : List ℕ) → length (insert_all rp zs) ≡ length rp + length zs
  unfolding insert_all
  length-insert_all rp [] = omega arith
  length-insert_all rp (x ∷ zs) =
      omega (arith, length-insert_all (insert_back x rp) zs, length-insert_back x rp)

  module _ (bytes : All IsByte t) where
    pub suffix_less-lex_less :
        (a b : ℕ)
        → a ≤ length t
        → b ≤ length t
        → suffix_less t (length t) a b ≡ lex_less (drop a t) (drop b t)
    unfolding suffix_less
    suffix_less-lex_less a b ha hb = suffix_less_from-lex_less t a b 0 bytes ha hb (λ _ _.
        let za : a + 0 - a ≡ 0 = omega arith in
        let zb : b + 0 - b ≡ 0 = omega arith in rw (za, zb) refl)

    Inside : ℕ → Type 0
    Inside p = p ≤ length t

    All-insert_back :
        (P : ℕ → Type 0) (v : ℕ) (rp : List ℕ) → P v → All P rp → All P (insert_back v rp)
    unfolding insert_back
    All-insert_back P v [] h a = (h, tt)
    All-insert_back P v (y ∷ rp) h (hy, a) = elim (Bool-cases (suffix_less t (length t) v y)) [
      | inl less ↦ rw less (hy, All-insert_back P v rp h a)
      | inr more ↦ rw more (h, (hy, a))
    ]

    insert_back-Chain :
        (v : ℕ) (rp : List ℕ)
        → Inside v
        → All Inside rp
        → Chain (λ x y. UpTo t y x) rp
        → Chain (λ x y. UpTo t y x) (insert_back v rp)
    unfolding insert_back Inside
    insert_back-Chain v [] hv a c = (tt, tt)
    insert_back-Chain v (y ∷ rp) hv (hy, a) (h, c) =
        let order = suffix_less-lex_less v y hv hy in
        elim (Bool-cases (suffix_less t (length t) v y)) [
          | inl less ↦
              let below : UpTo t v y = lex_less_asym (drop v t) (drop y t) (sym order ∙ less) in
              rw less
                (All-insert_back (λ x. UpTo t x y) v rp below h, insert_back-Chain v rp hv a c)
          | inr more ↦
              let above : UpTo t y v = sym order ∙ more in
              rw more (
                (
                  above,
                  All-map (λ x. UpTo t x y) (λ x. UpTo t x v) rp (λ x u. UpTo-trans t x y v u above)
                      h,
                ),
                (h, c),
              )
        ]

    insert_all-Chain :
        (rp zs : List ℕ)
        → All Inside rp
        → All Inside zs
        → Chain (λ x y. UpTo t y x) rp
        → Chain (λ x y. UpTo t y x) (insert_all rp zs)
    unfolding insert_all
    insert_all-Chain rp [] a b c = c
    insert_all-Chain rp (x ∷ zs) a (hx, b) c =
        insert_all-Chain (insert_back x rp) zs (All-insert_back Inside x rp hx a) b
          (insert_back-Chain x rp hx a c)

    -- In a text of bytes, the insertion sort with suffixLess puts one or more places of the text in the
    -- order of their suffixes, and keeps each as often as it was there.
    pub sort_ends-Chain :
        (x : ℕ) (zs : List ℕ) (p : ℕ)
        → All (λ q. q ≤ length t) (x ∷ zs)
        → Chain (UpTo t) (sort_ends t (length zs) 1 (x ∷ zs))
          × (count p (sort_ends t (length zs) 1 (x ∷ zs)) ≡ count p (x ∷ zs))
          × (length (sort_ends t (length zs) 1 (x ∷ zs)) ≡ length (x ∷ zs))
    unfolding rev_append Inside
    sort_ends-Chain x zs p (hx, a) =
        let rp = insert_all (x ∷ []) zs in
        let e : sort_ends t (length zs) 1 (x ∷ zs) ≡ rev_append rp [] =
          sort_ends-insert_all (x ∷ []) zs in
        rw e (
          Chain-rev_append (UpTo t) rp [] (insert_all-Chain (x ∷ []) zs (hx, tt) a (tt, tt)) tt
              (nothing rp),
          omega (arith, count-rev_append p rp [], count-insert_all p (x ∷ []) zs),
          omega (arith, length-rev_append rp [], length-insert_all (x ∷ []) zs),
        )
      where
        nothing : (xs : List ℕ) → All (λ y. All (UpTo t y) []) xs
        nothing [] = tt
        nothing (x ∷ xs) = (tt, nothing xs)
