-- ===== src/Dsa/Emit/Pair.antt =====
-- A run of two blocks in emitRun of internal/dsa/dsa.go: the bit `swapped` as the order of the two.
use derostorm.Base.{
  ℕ, ◌+◌, ◌^◌, ◌≤◌, ◌<◌, ◌≡◌, ◌⊎◌, refl, sym, ap, ◌∙◌, arith, Bool, true, false, List, [], ◌∷◌,
  ◌++◌, ◌==◌, ==_iff, if◌then◌else◌, length, length-append, All, count, inl, inr, Bool-cases,
}
use mathlib.Core.Path.{subst}
use mathlib.Core.List.{append-nil}
use derostorm.Base.Bytes.{IsByte}
use derostorm.Dsa.Words.{Desc, make_desc, key32}
use derostorm.Dsa.Suffix.{UpTo}
use derostorm.Dsa.Groups.{places}
use derostorm.Dsa.Groups.Valid.{IsDesc, all_places}
use derostorm.Dsa.Emit.{Lists, Two, two_flush, two_descs, two_column}
use derostorm.Dsa.Emit.Valid.{at_column, key32-lt, make_desc-IsDesc, Holds, Holds-extend}
use derostorm.Dsa.Emit.Grouped.{Slice, Slice-append}
use derostorm.Dsa.Emit.Emitted.{Slice-end, Slice-room}
use derostorm.Dsa.Emit.Single.{one_place}

module _ (t : List ℕ) (bytes : All IsByte t) (small : length t ≤ 2 ^ 20) where
  -- One descriptor for both, or one for each.
  pair_descs : ℕ → ℕ → ℕ → ℕ → List Desc
  pair_descs rel kx ky off =
      if kx == ky
      then make_desc kx rel off 2 ∷ []
      else make_desc kx rel off 1 ∷ make_desc ky rel (off + 1) 1 ∷ []

  two_descs-pair_descs :
      (rel kx ky off : ℕ) (descs : List Desc)
      → (two_descs rel kx ky off descs ≡ descs ++ pair_descs rel kx ky off)
        × (length (two_descs rel kx ky off descs) ≤ length descs + 2)
  unfolding two_descs pair_descs
  two_descs-pair_descs rel kx ky off descs = elim (Bool-cases (kx == ky)) [
    | inl same ↦ rw same (refl, omega (arith, length-append descs (make_desc kx rel off 2 ∷ [])))
    | inr differ ↦ rw differ (
      refl,
      omega
          (arith, length-append descs (make_desc kx rel off 1 ∷ make_desc ky rel (off + 1) 1 ∷ [])),
    )
  ]

  pair_descs-IsDesc :
      (arena : List ℕ) (rel x y off : ℕ)
      → rel < 256
      → x + rel < length t
      → y + rel < length t
      → off + 2 ≤ 2 ^ 20
      → Slice arena off (x ∷ y ∷ [])
      → UpTo t (x + rel) (y + rel)
      → let new =
          pair_descs rel (key32 t (length t) (x + rel)) (key32 t (length t) (y + rel)) off in
        All (IsDesc t arena) new × (all_places t arena new ≡ at_column rel (x ∷ y ∷ []))
  unfolding pair_descs
  pair_descs-IsDesc arena rel x y off hr hx hy room slice up =
      let kx = key32 t (length t) (x + rel) in
      let ky = key32 t (length t) (y + rel) in
      elim (Bool-cases (kx == ky)) [
        | inl same ↦
            let eq : kx ≡ ky = (==_iff kx ky).0 same in
            let (valid, named) =
              make_desc-IsDesc t arena (x ∷ y ∷ []) kx rel off 2 small (key32-lt t (x + rel) bytes)
                hr (omega arith) (omega arith) slice refl
                (((hx, refl), ((hy, sym eq), tt)), ((up, tt), (tt, tt))) in
            rw same ((valid, tt), append-nil _ ∙ named)
        | inr differ ↦
            let (first, second) = Slice-append arena (x ∷ []) (y ∷ []) off slice in
            let (vx, nx) = one_place t bytes small arena x off rel first (omega arith) hr hx in
            let (vy, ny) =
              one_place t bytes small arena y (off + 1) rel second (omega arith) hr hy in
            rw differ (
              (vx, (vy, tt)),
              ap (λ l. l ++ (places arena (make_desc ky rel (off + 1) 1) ++ []))
                    (sym (append-nil _) ∙ nx)
                  ∙ ap (λ l. (x + rel) ∷ l) ny,
            )
      ]

  -- The state before a column: the keys, and the order.
  abbrev pub Ordered : ℕ → ℕ → ℕ → Two → Type 0
  Ordered b0 b1 rel w =
      (key32 t (length t) (b0 + rel) ≡ w.key0)
      × (key32 t (length t) (b1 + rel) ≡ w.key1)
      × UpTo t ((if w.swapped then b1 else b0) + rel) ((if w.swapped then b0 else b1) + rel)

  abbrev pub Stored : ℕ → ℕ → Two → Type 0
  Stored b0 b1 w =
      Slice w.lists.arena w.arena_off
        ((if w.swapped then b1 else b0) ∷ (if w.swapped then b0 else b1) ∷ [])

  -- A column from x and y, the first and the second block in order.
  column_core :
      (s : Lists) (c : ℕ → ℕ) (more arena : List ℕ) (x y kx ky off rel : ℕ)
      → s.arena ++ more ≡ arena
      → rel < 256
      → x + rel < length t
      → y + rel < length t
      → off + 2 ≤ 2 ^ 20
      → key32 t (length t) (x + rel) ≡ kx
      → key32 t (length t) (y + rel) ≡ ky
      → Slice arena off (x ∷ y ∷ [])
      → UpTo t (x + rel) (y + rel)
      → Holds t s c
      → Holds t
          (record { arena = arena; descs = two_descs rel kx ky off s.descs })
          (λ p. c p + count p (at_column rel (x ∷ y ∷ [])))
  column_core s c more arena x y kx ky off rel grown hr hx hy room ex ey slice up holds =
      let (same, _) = two_descs-pair_descs rel kx ky off s.descs in
      let found = pair_descs-IsDesc arena rel x y off hr hx hy room slice up in
      let kept : All (IsDesc t arena) (pair_descs rel kx ky off)
          × (all_places t arena (pair_descs rel kx ky off) ≡ at_column rel (x ∷ y ∷ [])) =
        subst
          (λ k.
            All (IsDesc t arena) (pair_descs rel k ky off)
            × (all_places t arena (pair_descs rel k ky off) ≡ at_column rel (x ∷ y ∷ [])))
          ex
          (subst
            (λ k.
              All (IsDesc t arena) (pair_descs rel (key32 t (length t) (x + rel)) k off)
              × (all_places t arena (pair_descs rel (key32 t (length t) (x + rel)) k off)
                  ≡ at_column rel (x ∷ y ∷ [])))
            ey found) in
      let (valid, named) = kept in
      let new = pair_descs rel kx ky off in
      let d : ℕ → ℕ = λ p. count p (at_column rel (x ∷ y ∷ [])) in
      let extended : Holds t (record { arena = arena; descs = s.descs ++ new }) (λ p. c p + d p) =
        subst (λ l. Holds t (record { arena = l; descs = s.descs ++ new }) (λ p. c p + d p)) grown
          (Holds-extend t s c d more new holds (subst (λ l. All (IsDesc t l) new) (sym grown) valid)
            (λ p. ap (λ l. count p (all_places t l new)) grown ∙ ap (count p) named)) in
      subst (λ l. Holds t (record { arena = arena; descs = l }) (λ p. c p + d p)) (sym same)
        extended

  -- In the other order.
  turned :
      (s : Lists) (c : ℕ → ℕ) (x y rel : ℕ)
      → Holds t s (λ p. c p + count p (at_column rel (x ∷ y ∷ [])))
      → Holds t s (λ p. c p + count p (at_column rel (y ∷ x ∷ [])))
  turned s c x y rel (a, k) = (a, λ p. k p ∙ omega arith)

  abbrev pub Columned : ℕ → ℕ → ℕ → Two → (ℕ → ℕ) → Two → Type 0
  Columned b0 b1 rel w c w' =
      Holds t w'.lists (λ p. c p + count p (at_column rel (b0 ∷ b1 ∷ [])))
      × Stored b0 b1 w'
      × Ordered b0 b1 rel w'
      × (w'.dirty ≡ false)
      × (length w'.lists.arena ≤ length w.lists.arena + 2)
      × (length w'.lists.descs ≤ length w.lists.descs + 2)
      × (w'.swapped ≡ w.swapped)

  pub two_column_lem :
      (b0 b1 rel : ℕ) (k0 k1 off : ℕ) (sw d : Bool) (s : Lists) (c : ℕ → ℕ)
      → let w : Two = record {
        key0 = k0;
        key1 = k1;
        swapped = sw;
        dirty = d;
        arena_off = off;
        lists = s;
      } in
        rel < 256
        → b0 + rel < length t
        → b1 + rel < length t
        → length s.arena + 2 ≤ 2 ^ 20
        → (d ≡ true) ⊎ Stored b0 b1 w
        → Ordered b0 b1 rel w
        → Holds t s c
        → Columned b0 b1 rel w c (two_column b0 b1 rel w)
  unfolding two_column two_flush
  two_column_lem b0 b1 rel k0 k1 off true true s c hr h0 h1 room stored (e0, e1, up) holds =
      let slice = Slice-end s.arena (b1 ∷ b0 ∷ []) in
      let (_, more) = two_descs-pair_descs rel k1 k0 (length s.arena) s.descs in
      let h =
        column_core s c (b1 ∷ b0 ∷ []) (s.arena ++ b1 ∷ b0 ∷ []) b1 b0 k1 k0 (length s.arena) rel
          refl hr h1 h0 room e1 e0 slice up holds in
      (
        turned _ c b1 b0 rel h,
        slice,
        (e0, e1, up),
        refl,
        omega (arith, length-append s.arena (b1 ∷ b0 ∷ [])),
        more,
        refl,
      )
  two_column_lem b0 b1 rel k0 k1 off false true s c hr h0 h1 room stored (e0, e1, up) holds =
      let slice = Slice-end s.arena (b0 ∷ b1 ∷ []) in
      let (_, more) = two_descs-pair_descs rel k0 k1 (length s.arena) s.descs in
      let h =
        column_core s c (b0 ∷ b1 ∷ []) (s.arena ++ b0 ∷ b1 ∷ []) b0 b1 k0 k1 (length s.arena) rel
          refl hr h0 h1 room e0 e1 slice up holds in
      (
        h,
        slice,
        (e0, e1, up),
        refl,
        omega (arith, length-append s.arena (b0 ∷ b1 ∷ [])),
        more,
        refl,
      )
  two_column_lem b0 b1 rel k0 k1 off sw false s c hr h0 h1 room (inl refused) (e0, e1, up) holds =
      cc
  two_column_lem b0 b1 rel k0 k1 off true false s c hr h0 h1 room (inr slice) (e0, e1, up) holds =
      let inside = Slice-room s.arena (b1 ∷ b0 ∷ []) off (omega arith) slice in
      let (_, more) = two_descs-pair_descs rel k1 k0 off s.descs in
      let h =
        column_core s c [] s.arena b1 b0 k1 k0 off rel (append-nil s.arena) hr h1 h0 (omega arith)
          e1 e0 slice up holds in
      (turned _ c b1 b0 rel h, slice, (e0, e1, up), refl, omega arith, more, refl)
  two_column_lem b0 b1 rel k0 k1 off false false s c hr h0 h1 room (inr slice) (e0, e1, up) holds =
      let inside = Slice-room s.arena (b0 ∷ b1 ∷ []) off (omega arith) slice in
      let (_, more) = two_descs-pair_descs rel k0 k1 off s.descs in
      let h =
        column_core s c [] s.arena b0 b1 k0 k1 off rel (append-nil s.arena) hr h0 h1 (omega arith)
          e0 e1 slice up holds in
      (h, slice, (e0, e1, up), refl, omega arith, more, refl)
