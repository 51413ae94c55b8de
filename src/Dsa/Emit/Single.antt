-- ===== src/Dsa/Emit/Single.antt =====
-- A run of one block in emitRun of internal/dsa/dsa.go, and the tail walk of SuffixArray.
use derostorm.Base.{
  ℕ, zero, suc, ◌+◌, ◌-◌, ◌^◌, ◌≤◌, ◌<◌, ◌≡◌, refl, sym, ap, ◌∙◌, arith, List, [], ◌∷◌, ◌++◌, ltb,
  ltb→lt, length, length-append, get_or, All, count, inl, inr, Bool-cases,
}
use mathlib.Core.Path.{subst}
use mathlib.Core.List.{append-nil}
use derostorm.Base.Bytes.{IsByte}
use derostorm.Dsa.Words.{Desc, block_size, make_desc, key32, slide_key, slide_key-key32}
use derostorm.Dsa.Groups.Valid.{IsDesc, all_places}
use derostorm.Dsa.Emit.{Lists, single_loop, emit_one}
use derostorm.Dsa.Emit.Valid.{
  at_column, key32-lt, make_desc-IsDesc, Holds, Holds-extend, Holds-arena,
}
use derostorm.Dsa.Emit.Grouped.{Slice}
use derostorm.Dsa.Emit.Emitted.{Slice-end}
use derostorm.Dsa.Emit.Loop.{Outcome, column_counts}

module _ (t : List ℕ) (bytes : All IsByte t) (small : length t ≤ 2 ^ 20) where
  -- New descriptors for places that the arena has.
  pub Holds-descs :
      (arena : List ℕ) (descs new : List Desc) (c d : ℕ → ℕ)
      → Holds t (record { arena = arena; descs = descs }) c
      → All (IsDesc t arena) new
      → ((p : ℕ) → count p (all_places t arena new) ≡ d p)
      → Holds t (record { arena = arena; descs = descs ++ new }) (λ p. c p + d p)
  Holds-descs arena descs new c d holds a k =
      let more : arena ++ [] ≡ arena = append-nil arena in
      subst (λ l. Holds t (record { arena = l; descs = descs ++ new }) (λ p. c p + d p)) more
        (Holds-extend t (record { arena = arena; descs = descs }) c d [] new holds
          (subst (λ l. All (IsDesc t l) new) (sym more) a)
          (λ p. ap (λ l. count p (all_places t l new)) more ∙ k p))

  -- The descriptor of one place.
  pub one_place :
      (arena : List ℕ) (base off rel : ℕ)
      → Slice arena off (base ∷ [])
      → off < 2 ^ 20
      → rel < 256
      → base + rel < length t
      → let d = make_desc (key32 t (length t) (base + rel)) rel off 1 in
        IsDesc t arena d × (all_places t arena (d ∷ []) ≡ at_column rel (base ∷ []))
  one_place arena base off rel slice ho hr inside =
      let (valid, named) =
        make_desc-IsDesc t arena (base ∷ []) (key32 t (length t) (base + rel)) rel off 1 small
          (key32-lt t (base + rel) bytes) hr ho (omega arith) slice refl
          (((inside, refl), tt), (tt, tt)) in
      (valid, append-nil _ ∙ named)

  pub single_loop_lem :
      (arena : List ℕ) (base off : ℕ)
      → Slice arena off (base ∷ [])
      → off < 2 ^ 20
      → (rel : ℕ) (descs : List Desc) (c : ℕ → ℕ) → rel < 256
      → base + rel < length t
      → Holds t (record { arena = arena; descs = descs }) c
      → let descs' = single_loop t base off rel (key32 t (length t) (base + rel)) descs in
        Holds t
          (record { arena = arena; descs = descs' })
          (λ p. c p + column_counts rel (base ∷ []) p)
        × (length descs' ≡ length descs + (rel + 1))
  unfolding single_loop
  single_loop_lem arena base off slice ho zero descs c hr inside holds =
      let d = make_desc (key32 t (length t) (base + 0)) 0 off 1 in
      let (valid, named) = one_place arena base off 0 slice ho hr inside in
      (
        Holds-descs arena descs (d ∷ []) c (λ p. count p (at_column 0 (base ∷ []))) holds
            (valid, tt) (λ p. ap (count p) named),
        length-append descs (d ∷ []),
      )
  single_loop_lem arena base off slice ho (suc rel) descs c hr inside holds =
      let d = make_desc (key32 t (length t) (base + suc rel)) (suc rel) off 1 in
      let (valid, named) = one_place arena base off (suc rel) slice ho hr inside in
      let c' : ℕ → ℕ = λ p. c p + count p (at_column (suc rel) (base ∷ [])) in
      let holds' : Holds t (record { arena = arena; descs = descs ++ d ∷ [] }) c' =
        Holds-descs arena descs (d ∷ []) c (λ p. count p (at_column (suc rel) (base ∷ []))) holds
          (valid, tt) (λ p. ap (count p) named) in
      let up : base + suc rel ≡ base + rel + 1 = omega arith in
      let slid : slide_key (get_or t (base + rel) 0) (key32 t (length t) (base + suc rel))
          ≡ key32 t (length t) (base + rel) =
        rw up (slide_key-key32 t (base + rel) bytes) in
      let ((a, k), len) =
        single_loop_lem arena base off slice ho rel (descs ++ d ∷ []) c' (omega arith) (omega arith)
          holds' in
      rw slid ((a, λ p. k p ∙ omega arith), len ∙ omega (arith, length-append descs (d ∷ [])))

  -- A run of one block.
  pub emit_one_lem :
      (room base : ℕ) (s : Lists) (c : ℕ → ℕ)
      → base + block_size ≤ length t
      → length s.arena ≤ base
      → Holds t s c
      → Outcome t bytes small (base ∷ []) [] [] room base 255 s c (emit_one t room base s)
  unfolding emit_one
  emit_one_lem room base s c inside space holds =
      let arena' = s.arena ++ base ∷ [] in
      let holds' : Holds t (record { arena = arena'; descs = s.descs }) c =
        Holds-arena t s c (base ∷ []) holds in
      let last : base + block_size - 1 ≡ base + 255 = omega arith in
      let (h, len) =
        single_loop_lem arena' base (length s.arena) (Slice-end s.arena (base ∷ [])) (omega arith)
          255 s.descs c (omega arith) (omega arith) holds' in
      elim (Bool-cases (ltb room (length s.descs + block_size))) [
        | inl short ↦ rw short (
          (λ refused. cc),
          λ fits. absurd (omega (arith, ltb→lt room (length s.descs + block_size) short)),
        )
        | inr fits ↦
            rw (fits, last)
              (
                (λ ok. (h, omega (arith, length-append s.arena (base ∷ [])), omega arith)),
                λ _. refl,
              )
      ]
