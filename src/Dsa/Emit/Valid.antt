-- ===== src/Dsa/Emit/Valid.antt =====
-- The descriptors that emitRun of internal/dsa/dsa.go makes: when they are valid, under more descriptors and a
-- longer arena too.
use derostorm.Base.{
  ℕ, zero, suc, ◌+◌, ◌%◌, ◌^◌, ◌≤◌, ◌<◌, ◌≡◌, refl, sym, ap, ◌∙◌, arith, List, [], ◌∷◌, ◌++◌, map,
  length, length-map, take, drop, All, All-append, All-map, count, count-append,
}
use derostorm.Base.Bytes.{IsByte}
use derostorm.Dsa.Words.{
  Desc, dlen, off, column, make_desc, make_desc-fields, key32, key32-bytes, get_or-IsByte,
}
use derostorm.Dsa.Groups.{places}
use derostorm.Dsa.Groups.Merge.{concat}
use derostorm.Dsa.Groups.Valid.{HasKey, IsRun, IsDesc, all_places}
use derostorm.Dsa.Emit.{Lists}

-- The column rel of the blocks at the given bases.
abbrev pub at_column : ℕ → List ℕ → List ℕ
at_column rel xs = map (λ b. b + rel) xs

pub key32-lt : (t : List ℕ) (p : ℕ) → All IsByte t → key32 t (length t) p < 2 ^ 24
key32-lt t p bytes =
    let b0 = get_or-IsByte t p bytes in
    let b1 = get_or-IsByte t (p + 1) bytes in
    let b2 = get_or-IsByte t (p + 2) bytes in omega (arith, key32-bytes t p bytes)

-- A slice that lies in the arena stays there.
slice_grow :
    (k o : ℕ) (xs ys : List ℕ)
    → length (take k (drop o xs)) ≡ k
    → take k (drop o (xs ++ ys)) ≡ take k (drop o xs)
slice_grow zero o xs ys h = refl
slice_grow (suc k) zero [] ys h = absurd (omega arith)
slice_grow (suc k) (suc o) [] ys h = absurd (omega arith)
slice_grow (suc k) zero (x ∷ xs) ys h = ap (◌∷◌ x) (slice_grow k zero xs ys (omega arith))
slice_grow (suc k) (suc o) (x ∷ xs) ys h = slice_grow (suc k) o xs ys h

places-grow :
    (arena more : List ℕ) (d : Desc)
    → length (places arena d) ≡ dlen d
    → places (arena ++ more) d ≡ places arena d
unfolding places
places-grow arena more d h =
    let add : ℕ → ℕ = λ p. (p + column d) % 2 ^ 32 in
    let full : length (take (dlen d) (drop (off d) arena)) ≡ dlen d =
      sym (length-map add (take (dlen d) (drop (off d) arena))) ∙ h in
    ap (map add) (slice_grow (dlen d) (off d) arena more full)

map_ext : (f g : ℕ → ℕ) (xs : List ℕ) → All (λ x. f x ≡ g x) xs → map f xs ≡ map g xs
map_ext f g [] a = refl
map_ext f g (x ∷ xs) (h, a) = rw (h, map_ext f g xs a) refl

module _ (t : List ℕ) where
  IsDesc-grow : (arena more : List ℕ) (d : Desc) → IsDesc t arena d → IsDesc t (arena ++ more) d
  IsDesc-grow arena more d (run, len) =
      let same = places-grow arena more d len in rw same (run, len)

  all_places-grow :
      (arena more : List ℕ) (ds : List Desc)
      → All (IsDesc t arena) ds
      → all_places t (arena ++ more) ds ≡ all_places t arena ds
  all_places-grow arena more [] a = refl
  all_places-grow arena more (d ∷ ds) ((_, len), a) =
      rw (places-grow arena more d len, all_places-grow arena more ds a) refl

  inside :
      (k rel : ℕ) (xs : List ℕ)
      → All (HasKey t k) (at_column rel xs)
      → All (λ b. b + rel < length t) xs
  inside k rel [] a = tt
  inside k rel (x ∷ xs) ((h, _), a) = (h, inside k rel xs a)

  -- A descriptor of a slice of the arena stands for the slice, at its column.
  pub make_desc-IsDesc :
      (arena xs : List ℕ) (k rel o m : ℕ)
      → length t ≤ 2 ^ 20
      → k < 2 ^ 24
      → rel < 256
      → o < 2 ^ 20
      → m < 2 ^ 12
      → take m (drop o arena) ≡ xs
      → length xs ≡ m
      → IsRun t k (at_column rel xs)
      → IsDesc t arena (make_desc k rel o m)
        × (places arena (make_desc k rel o m) ≡ at_column rel xs)
  make_desc-IsDesc arena xs k rel o m small hk hr ho hm e len run =
      let (fo, fm, fk, fr) = make_desc-fields k rel o m hk hr ho hm in
      let d = make_desc k rel o m in
      let exact : All (λ p. (p + column d) % 2 ^ 32 ≡ p + rel) xs =
        All-map (λ b. b + rel < length t) (λ p. (p + column d) % 2 ^ 32 ≡ p + rel) xs
          (λ p h. omega arith) (inside k rel xs run.0) in
      let named : places arena d ≡ at_column rel xs =
        unfold places in
        (ap (λ l. map (λ p. (p + column d) % 2 ^ 32) (take l (drop (off d) arena))) fm
          ∙ ap (λ l. map (λ p. (p + column d) % 2 ^ 32) (take m (drop l arena))) fo
          ∙ ap (map (λ p. (p + column d) % 2 ^ 32)) e
          ∙ map_ext (λ p. (p + column d) % 2 ^ 32) (λ p. p + rel) xs exact) in
      ((rw (named, fk) run, ap length named ∙ length-map (λ b. b + rel) xs ∙ len ∙ sym fm), named)

  -- The lists hold valid descriptors, and these name every place as often as c says.
  abbrev pub Holds : Lists → (ℕ → ℕ) → Type 0
  Holds s c =
      All (IsDesc t s.arena) s.descs × ((p : ℕ) → count p (all_places t s.arena s.descs) ≡ c p)

  concat-append :
      (xs ys : List (List ℕ)) (p : ℕ)
      → count p (concat (xs ++ ys)) ≡ count p (concat xs) + count p (concat ys)
  concat-append [] ys p = omega arith
  concat-append (x ∷ xs) ys p = omega (
    arith,
    count-append p x (concat (xs ++ ys)),
    count-append p x (concat xs),
    concat-append xs ys p,
  )

  map-append : (f : Desc → List ℕ) (xs ys : List Desc) → map f (xs ++ ys) ≡ map f xs ++ map f ys
  map-append f [] ys = refl
  map-append f (x ∷ xs) ys = ap (◌∷◌ (f x)) (map-append f xs ys)

  -- More arena, and new descriptors.
  pub Holds-extend :
      (s : Lists) (c d : ℕ → ℕ) (more : List ℕ) (new : List Desc)
      → Holds s c
      → All (IsDesc t (s.arena ++ more)) new
      → ((p : ℕ) → count p (all_places t (s.arena ++ more) new) ≡ d p)
      → Holds (record { arena = s.arena ++ more; descs = s.descs ++ new }) (λ p. c p + d p)
  Holds-extend s c d more new (valid, counts) a k =
      let arena' = s.arena ++ more in
      (
        All-append (IsDesc t arena') s.descs new
            (All-map (IsDesc t s.arena) (IsDesc t arena') s.descs
              (λ e h. IsDesc-grow s.arena more e h) valid)
            a,
        λ p.
            ap (λ l. count p (concat l)) (map-append (places arena') s.descs new)
            ∙ concat-append (map (places arena') s.descs) (map (places arena') new) p
            ∙ ap (λ l. count p l + count p (all_places t arena' new))
                (all_places-grow s.arena more s.descs valid)
            ∙ rw (counts p, k p) refl,
      )

  -- A longer arena alone changes nothing.
  pub Holds-arena :
      (s : Lists) (c : ℕ → ℕ) (more : List ℕ)
      → Holds s c
      → Holds (record { arena = s.arena ++ more; descs = s.descs }) c
  Holds-arena s c more (valid, counts) = (
    All-map (IsDesc t s.arena) (IsDesc t (s.arena ++ more)) s.descs
        (λ e h. IsDesc-grow s.arena more e h) valid,
    λ p. ap (count p) (all_places-grow s.arena more s.descs valid) ∙ counts p,
  )
