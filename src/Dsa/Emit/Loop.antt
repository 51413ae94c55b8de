-- ===== src/Dsa/Emit/Loop.antt =====
-- The loop over the columns of a run in emitRun of internal/dsa/dsa.go: the descriptors of all columns.
use derostorm.Base.{
  ℕ, zero, suc, ◌+◌, ◌*◌, ◌^◌, ◌≤◌, ◌<◌, ◌≡◌, ◌⊎◌, refl, sym, ◌∙◌, arith, Bool, true, false, ◌&&◌,
  List, [], ◌∷◌, ltb, ltb→lt, leb, ◌==◌, if◌then◌else◌, length, get_or, All, count, inl, inr,
  Bool-cases,
}
use mathlib.Core.Path.{subst}
use derostorm.Base.Bytes.{IsByte}
use derostorm.Dsa.Column.{Entry}
use derostorm.Dsa.Emit.{Lists}
use derostorm.Dsa.Emit.Run.{Columns, next_column, emit_column, columns_loop}
use derostorm.Dsa.Emit.Valid.{at_column, Holds}
use derostorm.Dsa.Emit.Emitted.{Ready, Clean, emit_column_lem}
use derostorm.Dsa.Emit.Next.{SameByte, next_column_lem}

-- How often a place stands in the columns up to rel of the given blocks.
abbrev pub column_counts : ℕ → List ℕ → ℕ → ℕ
column_counts zero blocks p = count p (at_column 0 blocks)
column_counts (suc rel) blocks p = count p (at_column (suc rel) blocks) + column_counts rel blocks p

-- The places of n blocks in the columns up to rel.
abbrev pub cells : ℕ → ℕ → ℕ
cells n zero = n
cells n (suc rel) = n + cells n rel

pub cells-mul : (n rel : ℕ) → cells n rel ≡ n * (rel + 1)
cells-mul n zero = omega arith
cells-mul n (suc rel) = grind (arith, cells-mul n rel)

-- In the columns up to rel a block has the places from its base to base + rel.
pub column_counts_cons :
    (rel b p : ℕ) (blocks : List ℕ)
    → column_counts rel (b ∷ blocks) p
      ≡ (if leb b p && leb p (b + rel) then 1 else 0) + column_counts rel blocks p
column_counts_cons zero b p blocks = ground arith
column_counts_cons (suc rel) b p blocks = ground (arith, column_counts_cons rel b p blocks)

pub column_counts_nil : (rel p : ℕ) → column_counts rel [] p ≡ 0
column_counts_nil zero p = refl
column_counts_nil (suc rel) p = omega (arith, column_counts_nil rel p)

module _ (t : List ℕ) (bytes : All IsByte t) (small : length t ≤ 2 ^ 20) (blocks constant : List ℕ)
    (tmp : List Entry) (room base : ℕ) where
  -- What a run ends with: when it succeeds, and that it does when there is room.
  abbrev pub Outcome : ℕ → Lists → (ℕ → ℕ) → Lists × Bool → Type 0
  Outcome rel s c r =
      (r.1 ≡ true
        → Holds t r.0 (λ p. c p + column_counts rel blocks p)
          × (length r.0.arena ≤ length s.arena + cells (length blocks) rel)
          × (length r.0.descs ≤ length s.descs + cells (length blocks) rel))
      × (length s.descs + cells (length blocks) rel ≤ room → r.1 ≡ true)

  pub columns_loop_lem :
      (rel : ℕ) (w : Columns) (c : ℕ → ℕ)
      → rel < 256
      → ((r : ℕ)
          → r < 256
          → (get_or constant r 0 == 0) ≡ false
          → SameByte t bytes small base r blocks)
      → 1 ≤ length blocks
      → length blocks ≤ 512
      → length blocks ≤ length tmp
      → length w.lists.arena + cells (length blocks) rel ≤ 2 ^ 20
      → (w.dirty ≡ true) ⊎ Clean t bytes small w
      → Holds t w.lists c
      → Ready t bytes small blocks rel w
      → Outcome rel w.lists c (columns_loop t constant tmp room base rel w)
  unfolding columns_loop
  columns_loop_lem zero w c hr mask some few wide space clean holds ready =
      let (h, r, cl, d, a, l) =
        emit_column_lem t bytes small w c blocks 0 hr (omega arith) (omega arith) (omega arith)
          clean holds ready in
      elim (Bool-cases (ltb room (length w.lists.descs + length w.entries))) [
        | inl short ↦ rw short (
          (λ refused. cc),
          λ fits.
              absurd (omega (arith, ltb→lt room (length w.lists.descs + length w.entries) short)),
        )
        | inr fits ↦ rw fits ((λ ok. (h, omega arith, omega arith)), λ _. refl)
      ]
  columns_loop_lem (suc rel) w c hr mask some few wide space clean holds ready =
      let (h, r, cl, d, a, l) =
        emit_column_lem t bytes small w c blocks (suc rel) hr (omega arith) (omega arith)
          (omega arith) clean holds ready in
      let e = emit_column (suc rel) w in
      let (r', cl', same) =
        next_column_lem t bytes small e.entries e.k0 e.arena_off e.dirty e.lists blocks constant tmp
          base rel e.uniform (mask rel (omega arith)) (omega arith) (omega arith) r cl in
      let w' = next_column t constant tmp base rel e in
      let c' : ℕ → ℕ = λ p. c p + count p (at_column (suc rel) blocks) in
      let h' : Holds t w'.lists c' = subst (λ l. Holds t l c') (sym same) h in
      let arena : length w'.lists.arena ≤ length w.lists.arena + length w.entries = rw same a in
      let descs : length w'.lists.descs ≤ length w.lists.descs + length w.entries = rw same l in
      let (good, roomy) =
        columns_loop_lem rel w' c' (omega arith) mask some few wide (omega arith) cl' h' r' in
      elim (Bool-cases (ltb room (length w.lists.descs + length w.entries))) [
        | inl short ↦ rw short (
          (λ refused. cc),
          λ fits.
              absurd (omega (arith, ltb→lt room (length w.lists.descs + length w.entries) short)),
        )
        | inr fits ↦ rw fits (
          (λ ok.
              let ((valid, counts), more_arena, more_descs) = good ok in
              ((valid, λ p. counts p ∙ omega arith), omega arith, omega arith)),
          λ enough. roomy (omega arith),
        )
      ]
