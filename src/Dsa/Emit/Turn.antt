-- ===== src/Dsa/Emit/Turn.antt =====
-- The loop over the columns of a run of two blocks in emitRun of internal/dsa/dsa.go: equal and unequal
-- bytes.
use derostorm.Base.{
  ℕ, zero, suc, ◌+◌, ◌-◌, ◌*◌, ◌^◌, ◌≤◌, ◌<◌, ◌≡◌, ◌⊎◌, refl, sym, ap, ◌∙◌, arith, Bool, true,
  false, not, List, [], ◌∷◌, ltb, ltb→lt, ◌==◌, ==_iff, if◌then◌else◌, length, get_or, drop, All,
  count, inl, inr, Bool-cases,
}
use mathlib.Core.Path.{subst}
use derostorm.Base.Bytes.{IsByte}
use derostorm.Dsa.Words.{block_size, key32, slide_key, slide_key-key32}
use derostorm.Dsa.Compare.{lex_less, suffix_less}
use derostorm.Dsa.Suffix.{UpTo, UpTo-first, UpTo-next, lex_less_asym}
use derostorm.Dsa.Emit.{Lists, Two, two_column, two_next, two_loop, emit_two}
use derostorm.Dsa.Emit.Valid.{at_column, Holds}
use derostorm.Dsa.Emit.First.{suffix_less-lex_less}
use derostorm.Dsa.Emit.Loop.{Outcome, column_counts, cells, cells-mul}
use derostorm.Dsa.Emit.Grouped.{Slice}
use derostorm.Dsa.Emit.Pair.{Ordered, Stored, two_column_lem}

module _ (t : List ℕ) (bytes : All IsByte t) (small : length t ≤ 2 ^ 20) where
  slid_back :
      (b rel k : ℕ)
      → key32 t (length t) (b + suc rel) ≡ k
      → key32 t (length t) (b + rel) ≡ slide_key (get_or t (b + rel) 0) k
  slid_back b rel k e =
      let up : b + suc rel ≡ b + rel + 1 = omega arith in
      let e' : key32 t (length t) (b + rel + 1) ≡ k = rw up at e in
      sym (slide_key-key32 t (b + rel) bytes) ∙ ap (slide_key (get_or t (b + rel) 0)) e'

  stay :
      (x y rel : ℕ)
      → y + suc rel < length t
      → get_or t (x + rel) 0 ≡ get_or t (y + rel) 0
      → UpTo t (x + suc rel) (y + suc rel)
      → UpTo t (x + rel) (y + rel)
  stay x y rel hy e up =
      let ex : x + suc rel ≡ x + rel + 1 = omega arith in
      let ey : y + suc rel ≡ y + rel + 1 = omega arith in
      let up' : UpTo t (x + rel + 1) (y + rel + 1) = rw (ex, ey) at up in
      UpTo-next t (x + rel) (y + rel) (omega arith) e up'

  two_next_lem :
      (b0 b1 rel k0 k1 off : ℕ) (sw d : Bool) (s : Lists)
      → let w : Two = record {
        key0 = k0;
        key1 = k1;
        swapped = sw;
        dirty = d;
        arena_off = off;
        lists = s;
      } in
        b0 + suc rel < length t
        → b1 + suc rel < length t
        → Stored t bytes small b0 b1 w
        → Ordered t bytes small b0 b1 (suc rel) w
        → d ≡ false
        → Ordered t bytes small b0 b1 rel (two_next t b0 b1 rel w)
          × (((two_next t b0 b1 rel w).dirty ≡ true)
              ⊎ Stored t bytes small b0 b1 (two_next t b0 b1 rel w))
          × ((two_next t b0 b1 rel w).lists ≡ s)
  unfolding two_next
  two_next_lem b0 b1 rel k0 k1 off sw d s h0 h1 slice (e0, e1, up) clean =
      let c0 = get_or t (b0 + rel) 0 in
      let c1 = get_or t (b1 + rel) 0 in
      let f0 = slid_back b0 rel k0 e0 in
      let f1 = slid_back b1 rel k1 e1 in
      elim (Bool-cases (c0 == c1)) [
        | inl equal ↦
            let eq : c0 ≡ c1 = (==_iff c0 c1).0 equal in
            rw equal ((f0, f1, by_bit sw up eq), inr slice, refl)
        | inr differ ↦ elim (Bool-cases (ltb c1 c0)) [
          | inl less ↦
              let new : UpTo t (b1 + rel) (b0 + rel) =
                UpTo-first t (b1 + rel) (b0 + rel) (ltb→lt c1 c0 less) in
              rw (differ, less) ((f0, f1, new), kept_turned sw slice, refl)
          | inr more ↦
              let new : UpTo t (b0 + rel) (b1 + rel) =
                UpTo-first t (b0 + rel) (b1 + rel) (ground arith) in
              rw (differ, more) ((f0, f1, new), kept_straight sw slice, refl)
        ]
      ]
    where
      by_bit :
          (sw : Bool)
          → UpTo t ((if sw then b1 else b0) + suc rel) ((if sw then b0 else b1) + suc rel)
          → get_or t (b0 + rel) 0 ≡ get_or t (b1 + rel) 0
          → UpTo t ((if sw then b1 else b0) + rel) ((if sw then b0 else b1) + rel)
      by_bit true up eq = stay b1 b0 rel h0 (sym eq) up
      by_bit false up eq = stay b0 b1 rel h1 eq up

      kept_turned :
          (sw : Bool)
          → Slice s.arena off ((if sw then b1 else b0) ∷ (if sw then b0 else b1) ∷ [])
          → ((if sw then not true else true) ≡ true) ⊎ Slice s.arena off (b1 ∷ b0 ∷ [])
      kept_turned true slice = inr slice
      kept_turned false slice = inl refl

      kept_straight :
          (sw : Bool)
          → Slice s.arena off ((if sw then b1 else b0) ∷ (if sw then b0 else b1) ∷ [])
          → ((if sw then not false else false) ≡ true) ⊎ Slice s.arena off (b0 ∷ b1 ∷ [])
      kept_straight true slice = inl refl
      kept_straight false slice = inr slice

  two_loop_lem :
      (b0 b1 rel : ℕ) (w : Two) (c : ℕ → ℕ)
      → rel < 256
      → b0 + 256 ≤ length t
      → b1 + 256 ≤ length t
      → length w.lists.arena + cells 2 rel ≤ 2 ^ 20
      → (w.dirty ≡ true) ⊎ Stored t bytes small b0 b1 w
      → Ordered t bytes small b0 b1 rel w
      → Holds t w.lists c
      → Holds t (two_loop t b0 b1 rel w).lists (λ p. c p + column_counts rel (b0 ∷ b1 ∷ []) p)
        × (length (two_loop t b0 b1 rel w).lists.arena ≤ length w.lists.arena + cells 2 rel)
        × (length (two_loop t b0 b1 rel w).lists.descs ≤ length w.lists.descs + cells 2 rel)
  unfolding two_loop
  two_loop_lem b0 b1 zero w c hr h0 h1 room stored ordered holds =
      let (h, _, _, _, a, l, _) =
        two_column_lem t bytes small b0 b1 0 w.key0 w.key1 w.arena_off w.swapped w.dirty w.lists c
          hr (omega arith) (omega arith) (omega arith) stored ordered holds in
      (h, a, l)
  two_loop_lem b0 b1 (suc rel) w c hr h0 h1 room stored ordered holds =
      let (h, st, o, d, a, l, _) =
        two_column_lem t bytes small b0 b1 (suc rel) w.key0 w.key1 w.arena_off w.swapped w.dirty
          w.lists c hr (omega arith) (omega arith) (omega arith) stored ordered holds in
      let e = two_column b0 b1 (suc rel) w in
      let (o', st', same) =
        two_next_lem b0 b1 rel e.key0 e.key1 e.arena_off e.swapped e.dirty e.lists (omega arith)
          (omega arith) st o d in
      let w' = two_next t b0 b1 rel e in
      let c' : ℕ → ℕ = λ p. c p + count p (at_column (suc rel) (b0 ∷ b1 ∷ [])) in
      let h' : Holds t w'.lists c' = subst (λ l. Holds t l c') (sym same) h in
      let arena : length w'.lists.arena ≤ length w.lists.arena + 2 = rw same a in
      let descs : length w'.lists.descs ≤ length w.lists.descs + 2 = rw same l in
      let ((v, k), ra, rd) =
        two_loop_lem b0 b1 rel w' c' (omega arith) h0 h1 (omega arith) st' o' h' in
      ((v, λ p. k p ∙ omega arith), omega arith, omega arith)

  -- A run of two blocks.
  pub emit_two_lem :
      (room base : ℕ) (s : Lists) (c : ℕ → ℕ)
      → base + 2 * block_size ≤ length t
      → length s.arena ≤ base
      → Holds t s c
      → Outcome t bytes small
          (base ∷ (base + block_size) ∷ [])
          []
          []
          room
          base
          255
          s
          c
          (emit_two t room base s)
  unfolding emit_two
  emit_two_lem room base s c inside space holds =
      let b1 = base + block_size in
      let e0 : base + block_size - 1 ≡ base + 255 = omega arith in
      let e1 : b1 + block_size - 1 ≡ b1 + 255 = omega arith in
      let less = suffix_less t (length t) (b1 + block_size - 1) (base + block_size - 1) in
      let order : less ≡ lex_less (drop (b1 + 255) t) (drop (base + 255) t) =
        ap (λ p. suffix_less t (length t) p (base + block_size - 1)) e1
        ∙ ap (suffix_less t (length t) (b1 + 255)) e0
        ∙ suffix_less-lex_less t bytes (b1 + 255) (base + 255) (omega arith) (omega arith) in
      let first : UpTo t ((if less then b1 else base) + 255) ((if less then base else b1) + 255) =
        elim (Bool-cases less) [
          | inl y ↦ rw y (lex_less_asym (drop (b1 + 255) t) (drop (base + 255) t) (sym order ∙ y))
          | inr n ↦ rw n (sym order ∙ n)
        ] in
      let w : Two = record {
        key0 = key32 t (length t) (base + block_size - 1);
        key1 = key32 t (length t) (b1 + block_size - 1);
        swapped = less;
        dirty = true;
        arena_off = 0;
        lists = s;
      } in
      let (h, a, l) =
        two_loop_lem base b1 255 w c (omega arith) (omega arith) (omega arith)
          (omega (arith, cells-mul 2 255)) (inl refl)
          (ap (key32 t (length t)) (sym e0), ap (key32 t (length t)) (sym e1), first) holds in
      elim (Bool-cases (ltb room (length s.descs + 2 * block_size))) [
        | inl short ↦ rw short (
          (λ refused. cc),
          λ fits.
              absurd (
                omega
                  (arith, ltb→lt room (length s.descs + 2 * block_size) short, cells-mul 2 255)),
        )
        | inr fits ↦ rw fits ((λ ok. (h, a, l)), λ _. refl)
      ]
