-- ===== src/Ui/Draw/Plain.antt =====
-- Set of internal/ui/canvas.go on a canvas without wide runes: which cell it writes.
use derostorm.Base.{
  ℕ, ◌+◌, ◌*◌, ◌/◌, ◌%◌, ◌<◌, ◌≡◌, refl, sym, ap, ◌∙◌, arith, Bool, true, false, ◌&&◌, List, ltb,
  leb, ◌==◌, if◌then◌else◌, length, set, lt→ltb, length-set, inl, inr, Bool-cases,
}
use derostorm.Base.Int.{ℤ, pos, negsuc}
use derostorm.Base.Reverse.{get_or-set}
use native.Mathlib.Nat.{
  mul-add-mod_self_right, mod-eq_of_lt, mul-add-div_right, div-eq_of_lt, mul-le-mul_right, mul_comm,
}
use mathlib.Core.Path.{subst}
use derostorm.Ui.Text.{rune_width}
use derostorm.Ui.Canvas.{
  Style, Cell, Canvas, blank, no_style, cell_at, blank_left, blank_right, put_rune, set_rune,
}

-- A grid on which no cell is the right half of a wide rune.
pub record Plain (w h : ℕ) (c : Canvas) : Type 0 where
  pub width : c.w ≡ w
  pub height : c.h ≡ h
  pub size : length c.cells ≡ w * h
  pub narrow : (j : ℕ) → (cell_at c.cells j).cont ≡ false

-- Whether `n` steps from `x` on reach the place `col`.
abbrev pub reaches : ℤ → ℕ → ℕ → Bool
reaches (pos x) n col = leb x col && ltb col (x + n)
reaches (negsuc x) n col = ltb (col + x + 1) n

row_of : (w x y : ℕ) → x < w → (y * w + x) / w ≡ y
row_of w x y h =
    let some : 0 < w = omega arith in
    let none : x / w ≡ 0 = div-eq_of_lt h in mul-add-div_right some y x ∙ rw none (omega arith)

col_of : (w x y : ℕ) → x < w → (y * w + x) % w ≡ x
col_of w x y h = mul-add-mod_self_right y w x ∙ mod-eq_of_lt h

same_cell :
    (w x y col row : ℕ) → x < w → col < w → (y * w + x == row * w + col) ≡ (y == row && x == col)
same_cell w x y col row hx hc = elim (Bool-cases (y * w + x == row * w + col)) [
  | inl same ↦
      let e : y * w + x ≡ row * w + col = ground arith in
      let rows : y ≡ row = sym (row_of w x y hx) ∙ ap (λ n. n / w) e ∙ row_of w col row hc in
      let cols : x ≡ col = sym (col_of w x y hx) ∙ ap (λ n. n % w) e ∙ col_of w col row hc in
      rw same (ground arith)
  | inr other ↦ rw other (elim (Bool-cases (y == row)) [
    | inr rows ↦ rw rows refl
    | inl rows ↦ elim (Bool-cases (x == col)) [
      | inr cols ↦ rw (rows, cols) refl
      | inl cols ↦
          let e : y ≡ row = ground arith in
          let f : x ≡ col = ground arith in absurd (differ other (rw (e, f) refl))
    ]
  ])
]
  where
    differ : {m n : ℕ} → (m == n) ≡ false → m ≡ n → ⊥
    differ h e = ground arith

in_bounds : (w h x y : ℕ) → x < w → y < h → y * w + x < w * h
in_bounds w h x y hx hy = omega (arith, mul-le-mul_right w hy, mul_comm w h, succ_row w y)
  where
    succ_row : (w y : ℕ) → (y + 1) * w ≡ y * w + w
    succ_row w y = omega arith

-- The cell of a column and a row.
abbrev pub cell_in : Canvas → ℕ → ℕ → Cell
cell_in c col row = cell_at c.cells (row * c.w + col)

abbrev pub glyph : ℕ → Style → Cell
glyph r st = record { r = r; s = st; cont = false }

put_rune-plain :
    (cells : List Cell) (i x w r : ℕ) (st : Style)
    → rune_width r ≡ 1
    → ((j : ℕ) → (cell_at cells j).cont ≡ false)
    → put_rune (blank_right (blank_left cells i x) i x w) i x w r st ≡ set cells i (glyph r st)
unfolding put_rune blank_left
put_rune-plain cells i x w r st one narrow =
    let left : blank_left cells i x ≡ cells = rw (blank_left, narrow i) refl in
    let right : blank_right cells i x w ≡ cells =
      unfold blank_right in ground (arith, narrow (i + 1)) in
    rw (left, right, put_rune, one) refl

set_rune-inside :
    (c : Canvas) (x y r : ℕ) (st : Style)
    → rune_width r ≡ 1
    → ((j : ℕ) → (cell_at c.cells j).cont ≡ false)
    → x < c.w
    → y < c.h
    → set_rune c (pos x) (pos y) r st ≡ record c { cells = set c.cells (y * c.w + x) (glyph r st) }
unfolding set_rune
set_rune-inside c x y r st one narrow hx hy =
    let shown : (rune_width r == 0) ≡ false = rw one refl in
    rw (lt→ltb x c.w hx, lt→ltb y c.h hy, shown)
      (ap (λ cells. record c { cells = cells })
        (put_rune-plain c.cells (y * c.w + x) x c.w r st one narrow))

set_rune-outside :
    (c : Canvas) (x y r : ℕ) (st : Style)
    → (ltb x c.w && ltb y c.h) ≡ false
    → set_rune c (pos x) (pos y) r st ≡ c
unfolding set_rune
set_rune-outside c x y r st out = rw out refl

one_step :
    (x y col row : ℕ) → (y == row && x == col) ≡ (reaches (pos x) 1 col && reaches (pos y) 1 row)
one_step x y col row = ground arith

far_off :
    (w h x y col row : ℕ)
    → col < w
    → row < h
    → (ltb x w && ltb y h) ≡ false
    → (reaches (pos x) 1 col && reaches (pos y) 1 row) ≡ false
far_off w h x y col row hc hr out = ground arith

Plain-set :
    (w h : ℕ) (c : Canvas) (i r : ℕ) (st : Style)
    → i < length c.cells
    → Plain w h c
    → Plain w h (record c { cells = set c.cells i (glyph r st) })
Plain-set w h c i r st inside plain = record {
  width = plain.width;
  height = plain.height;
  size = length-set c.cells i (glyph r st) ∙ plain.size;
  narrow = λ j.
      ap (λ k. k.cont) (get_or-set c.cells i j (glyph r st) (blank no_style) inside)
      ∙ still j (i == j);
}
  where
    still : (j : ℕ) (b : Bool) → (if b then glyph r st else cell_at c.cells j).cont ≡ false
    still j true = refl
    still j false = plain.narrow j

-- What Set does to the cell of a column and a row.
abbrev pub Written : ℕ → ℕ → Canvas → ℤ → ℤ → ℕ → Style → Canvas → Type 0
Written w h c x y r st c' =
    (col row : ℕ)
    → col < w
    → row < h
    → cell_in c' col row
      ≡ (if reaches x 1 col && reaches y 1 row then glyph r st else cell_in c col row)

pub set_rune-cell :
    (w h : ℕ) (c : Canvas) (x y : ℤ) (r : ℕ) (st : Style)
    → rune_width r ≡ 1
    → Plain w h c
    → Plain w h (set_rune c x y r st) × Written w h c x y r st (set_rune c x y r st)
unfolding set_rune
set_rune-cell w h c (negsuc x) y r st one plain =
    (plain, λ col row hc hr. let far : ltb (col + x + 1) 1 ≡ false = ground arith in rw far refl)
set_rune-cell w h c (pos x) (negsuc y) r st one plain = (
  plain,
  λ col row hc hr.
      let far : (reaches (pos x) 1 col && ltb (row + y + 1) 1) ≡ false = ground arith in
      rw far refl,
)
set_rune-cell w h c (pos x) (pos y) r st one plain = elim (Bool-cases (ltb x c.w && ltb y c.h)) [
  | inl inside ↦
      let hx : x < c.w = ground arith in
      let hy : y < c.h = ground arith in
      let i = y * c.w + x in
      let bound : i < length c.cells =
        rw (plain.size, ← plain.width, ← plain.height) (in_bounds c.w c.h x y hx hy) in
      subst (λ c'. Plain w h c' × Written w h c (pos x) (pos y) r st c')
        (sym (set_rune-inside c x y r st one plain.narrow hx hy))
        (
          Plain-set w h c i r st bound plain,
          λ col row hc hr.
              get_or-set c.cells i (row * c.w + col) (glyph r st) (blank no_style) bound
              ∙ ap (λ b. if b then glyph r st else cell_in c col row)
                  (same_cell c.w x y col row hx (rw plain.width hc) ∙ one_step x y col row),
        )
  | inr outside ↦
      subst (λ c'. Plain w h c' × Written w h c (pos x) (pos y) r st c')
        (sym (set_rune-outside c x y r st outside))
        (
          plain,
          λ col row hc hr.
              let hc' : col < c.w = rw plain.width hc in
              let hr' : row < c.h = rw plain.height hr in
              let far : (reaches (pos x) 1 col && reaches (pos y) 1 row) ≡ false =
                far_off c.w c.h x y col row hc' hr' outside in
              rw far refl,
        )
]
