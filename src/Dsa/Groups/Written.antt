-- ===== src/Dsa/Groups/Written.antt =====
-- What SuffixArray of internal/dsa/dsa.go writes into sa for the groups of descriptors, the four straight stores
-- of a short list included.
use derostorm.Base.{
  append_assoc, ℕ, zero, suc, ◌+◌, ◌%◌, ◌^◌, ◌≤◌, ◌<◌, ◌≡◌, refl, sym, ap, ◌∙◌, arith, true, false,
  ◌&&◌, ◌||◌, List, [], ◌∷◌, ◌++◌, map, ltb, leb, length, length-map, length-set, length-append,
  length-take, get_or, set, take, drop, take-take, All, inl, inr, Bool-cases,
}
use mathlib.Core.List.{append-nil}
use mathlib.Core.Path.{subst}
use derostorm.Dsa.Words.{Desc, off, dlen, column}
use derostorm.Dsa.Groups.{
  Filled, places, write_all, write_single, write_group, write_groups, merge_group, group_cap, need,
}
use derostorm.Dsa.Groups.Merge.{concat}

take-set : (i v : ℕ) (xs : List ℕ) → i < length xs → take (i + 1) (set xs i v) ≡ take i xs ++ v ∷ []
take-set i v [] h = absurd (omega arith)
take-set zero v (x ∷ xs) h = refl
take-set (suc i) v (x ∷ xs) h =
    let next : suc i + 1 ≡ suc (i + 1) = omega arith in
    rw next (ap (◌∷◌ x) (take-set i v xs (omega arith)))

-- take k of a list that was longer.
take-append_short : (k : ℕ) (xs ys : List ℕ) → take (length xs + k) (xs ++ ys) ≡ xs ++ take k ys
take-append_short k [] ys = let z : length {A = ℕ} [] + k ≡ k = omega arith in rw z refl
take-append_short k (x ∷ xs) ys =
    let next : length (x ∷ xs) + k ≡ suc (length xs + k) = omega arith in
    rw next (ap (◌∷◌ x) (take-append_short k xs ys))

-- sa and out got the places ps.
abbrev pub Wrote : Filled → List ℕ → Filled → Type 0
Wrote w ps w' =
    (take w'.1 w'.0 ≡ take w.1 w.0 ++ ps) × (w'.1 ≡ w.1 + length ps) × (length w'.0 ≡ length w.0)

length-write_all : (out : ℕ) (ps sa : List ℕ) → length (write_all out ps sa) ≡ length sa
unfolding write_all
length-write_all out [] sa = refl
length-write_all out (p ∷ ps) sa =
    length-write_all (out + 1) ps (set sa out p) ∙ length-set sa out p

take-write_all :
    (out : ℕ) (ps sa : List ℕ)
    → out + length ps ≤ length sa
    → take (out + length ps) (write_all out ps sa) ≡ take out sa ++ ps
unfolding write_all
take-write_all out [] sa h =
    let z : out + length {A = ℕ} [] ≡ out = omega arith in rw z (sym (append-nil (take out sa)))
take-write_all out (p ∷ ps) sa h =
    let next : out + length (p ∷ ps) ≡ out + 1 + length ps = omega arith in
    rw next (
      take-write_all (out + 1) ps (set sa out p) (omega (arith, length-set sa out p))
      ∙ ap (λ l. l ++ ps) (take-set out p sa (omega arith))
      ∙ append_assoc (take out sa) (p ∷ []) ps)

write_all-Wrote :
    (sa ps : List ℕ) (out : ℕ)
    → out + length ps ≤ length sa
    → Wrote (sa, out) ps (write_all out ps sa, out + length ps)
write_all-Wrote sa ps out h = (take-write_all out ps sa h, refl, length-write_all out ps sa)

-- The first m values of s.
reads : ℕ → (ℕ → ℕ) → List ℕ
reads zero s = []
reads (suc m) s = s 0 ∷ reads m (λ z. s (suc z))

length-reads : (m : ℕ) (s : ℕ → ℕ) → length (reads m s) ≡ m
unfolding reads
length-reads zero s = refl
length-reads (suc m) s = ap suc (length-reads m (λ z. s (suc z)))

take-reads : (k m : ℕ) (s : ℕ → ℕ) → k ≤ m → take k (reads m s) ≡ reads k s
unfolding reads
take-reads zero m s h = refl
take-reads (suc k) zero s h = absurd (omega arith)
take-reads (suc k) (suc m) s h = ap (◌∷◌ (s 0)) (take-reads k m (λ z. s (suc z)) (omega arith))

-- They are the list that s reads from.
reads-map :
    (k : ℕ) (f : ℕ → ℕ) (s : ℕ → ℕ) (xs : List ℕ)
    → k ≤ length xs
    → ((z : ℕ) → z < k → s z ≡ f (get_or xs z 0))
    → reads k s ≡ map f (take k xs)
unfolding reads
reads-map zero f s xs h e = refl
reads-map (suc k) f s [] h e = absurd (omega arith)
reads-map (suc k) f s (x ∷ xs) h e =
    rw
      (
        e 0 (omega arith),
        reads-map k f (λ z. s (suc z)) xs (omega arith) (λ z lt. e (suc z) (omega arith)),
      )
      refl

get_or-slack :
    (arena slack : List ℕ) (o z : ℕ)
    → z < length (drop o arena)
    → get_or (arena ++ slack) (o + z) 0 ≡ get_or (drop o arena) z 0
get_or-slack [] slack zero z h = absurd (omega arith)
get_or-slack [] slack (suc o) z h = absurd (omega arith)
get_or-slack (a ∷ arena) slack zero zero h = refl
get_or-slack (a ∷ arena) slack zero (suc z) h =
    let next : 0 + suc z ≡ suc (0 + z) = omega arith in
    rw next (get_or-slack arena slack zero z (omega arith))
get_or-slack (a ∷ arena) slack (suc o) z h =
    let next : suc o + z ≡ suc (o + z) = omega arith in rw next (get_or-slack arena slack o z h)

-- The four straight stores.
stores : (ℕ → ℕ) → ℕ → List ℕ → List ℕ
stores s out sa = set (set (set (set sa out (s 0)) (out + 1) (s 1)) (out + 2) (s 2)) (out + 3) (s 3)

stores-write_all :
    (s : ℕ → ℕ) (out : ℕ) (sa : List ℕ) → stores s out sa ≡ write_all out (reads 4 s) sa
unfolding stores write_all reads
stores-write_all s out sa =
    let e2 : out + 1 + 1 ≡ out + 2 = omega arith in
    let e3 : out + 2 + 1 ≡ out + 3 = omega arith in rw (e2, e3) refl

take-stores :
    (s : ℕ → ℕ) (out k : ℕ) (sa : List ℕ)
    → k ≤ 4
    → out + 4 ≤ length sa
    → take (out + k) (stores s out sa) ≡ take out sa ++ reads k s
take-stores s out k sa h room =
    let four : length (reads 4 s) ≡ 4 = length-reads 4 s in
    let all : take (out + 4) (write_all out (reads 4 s) sa) ≡ take out sa ++ reads 4 s =
      ap (λ l. take (out + l) (write_all out (reads 4 s) sa)) (sym four)
      ∙ take-write_all out (reads 4 s) sa (omega arith) in
    let front : length (take out sa) ≡ out = omega (arith, length-take out sa) in
    ap (take (out + k)) (stores-write_all s out sa)
    ∙ sym (take-take (out + k) (out + 4) (write_all out (reads 4 s) sa) (omega arith))
    ∙ ap (take (out + k)) all
    ∙ ap (λ l. take (l + k) (take out sa ++ reads 4 s)) (sym front)
    ∙ take-append_short k (take out sa) (reads 4 s)
    ∙ ap (λ l. take out sa ++ l) (take-reads k 4 s h)

module _ (arena slack : List ℕ) (d : Desc) where
  -- What the stores write.
  src : ℕ → ℕ
  src z = (get_or (arena ++ slack) (off d + z) 0 + column d) % 2 ^ 32

  reads-places : length (places arena d) ≡ dlen d → reads (dlen d) src ≡ places arena d
  unfolding places src
  reads-places len =
      let add : ℕ → ℕ = λ p. (p + column d) % 2 ^ 32 in
      let rest = drop (off d) arena in
      let full : dlen d ≤ length rest =
        omega (arith, len, length-map add (take (dlen d) rest), length-take (dlen d) rest) in
      reads-map (dlen d) add src rest full
        (λ z lt. ap add (get_or-slack arena slack (off d) z (omega arith)))

  write_single-Wrote :
      (n : ℕ) (sa : List ℕ) (out : ℕ)
      → length (places arena d) ≡ dlen d
      → out + length (places arena d) ≤ length sa
      → n ≤ length sa
      → Wrote (sa, out) (places arena d) (write_single arena slack n d (sa, out))
  unfolding write_single src stores
  write_single-Wrote n sa out len room text =
      elim (Bool-cases (leb (dlen d) 4 && leb (out + 4) n)) [
        | inl straight ↦ rw straight (
          take-stores src out (dlen d) sa (ground arith) (ground arith)
              ∙ ap (λ l. take out sa ++ l) (reads-places len),
          ap (λ l. out + l) (sym len),
          ap length (stores-write_all src out sa) ∙ length-write_all out (reads 4 src) sa,
        )
        | inr looped ↦ rw looped (
            subst
              (λ l. Wrote (sa, out) (places arena d) (write_all out (places arena d) sa, out + l))
              len (write_all-Wrote sa (places arena d) out room))
      ]

-- One descriptor is no merge.
merge_group-one : (t arena : List ℕ) (d : Desc) → merge_group t arena (d ∷ []) ≡ places arena d
unfolding merge_group
merge_group-one t arena d = refl

-- The merged groups, one behind the other.
abbrev pub merged : List ℕ → List ℕ → List (List Desc) → List ℕ
merged t arena gs = concat (map (merge_group t arena) gs)

module _ (t arena slack : List ℕ) where
  write_group-Wrote :
      (g : List Desc) (sa : List ℕ) (out : ℕ)
      → All (λ e. length (places arena e) ≡ dlen e) g
      → out + length (merge_group t arena g) ≤ length sa
      → length t ≤ length sa
      → (write_group t arena slack g (sa, out)).1 ≡ true
      → Wrote (sa, out) (merge_group t arena g) (write_group t arena slack g (sa, out)).0
  unfolding write_group
  write_group-Wrote [] sa out a room text h = (sym (append-nil (take out sa)), omega arith, refl)
  write_group-Wrote (d ∷ []) sa out (len, _) room text h = rw (merge_group-one t arena d) (
      write_single-Wrote arena slack d (length t) sa out len
        (rw (merge_group-one t arena d) at room) text)
  write_group-Wrote (d0 ∷ d1 ∷ ds) sa out a room text h =
      let g : List Desc = d0 ∷ d1 ∷ ds in
      elim (Bool-cases (ltb group_cap (need g) || ltb group_cap (length g))) [
        | inl large ↦ let refused : false ≡ true = rw large at h in cc
        | inr fits ↦ rw fits (write_all-Wrote sa (merge_group t arena g) out room)
      ]

  Wrote-trans :
      (ps qs : List ℕ) (w w1 w2 : Filled) → Wrote w ps w1 → Wrote w1 qs w2 → Wrote w (ps ++ qs) w2
  Wrote-trans ps qs w w1 w2 (e, o, l) (e', o', l') = (
    e' ∙ ap (λ s. s ++ qs) e ∙ append_assoc (take w.1 w.0) ps qs,
    omega (arith, o, o', length-append ps qs),
    l' ∙ l,
  )

  -- Groups that fit are written one behind the other.
  pub write_groups-Wrote :
      (gs : List (List Desc)) (w : Filled)
      → All (All (λ e. length (places arena e) ≡ dlen e)) gs
      → w.1 + length (merged t arena gs) ≤ length w.0
      → length t ≤ length w.0
      → (write_groups t arena slack gs w).1 ≡ true
      → Wrote w (merged t arena gs) (write_groups t arena slack gs w).0
  unfolding write_groups
  write_groups-Wrote [] w a room text h = (sym (append-nil (take w.1 w.0)), omega arith, refl)
  write_groups-Wrote (g ∷ gs) w (ag, a) room text h =
      let now = write_group t arena slack g w in
      let sized = length-append (merge_group t arena g) (merged t arena gs) in
      elim (Bool-cases now.1) [
        | inl e ↦
            let first = write_group-Wrote g w.0 w.1 ag (omega arith) text e in
            rw e (
              Wrote-trans (merge_group t arena g) (merged t arena gs) w now.0
                (write_groups t arena slack gs now.0).0 first
                (write_groups-Wrote gs now.0 a (omega (arith, first, sized)) (omega (arith, first))
                  (rw e at h)))
        | inr e ↦ let refused : false ≡ true = rw (e, e) at h in cc
      ]
