-- ===== src/Ui/Draw/Lines.antt =====
-- Which cells HLine, VLine and Fill of internal/ui/canvas.go write.
use derostorm.Base.{
  ℕ, zero, suc, ◌+◌, ◌<◌, ◌≡◌, refl, ap, ◌∙◌, arith, Bool, true, false, ◌&&◌, ◌||◌, leb,
  if◌then◌else◌, inl, inr, Bool-cases,
}
use derostorm.Base.Int.{ℤ, pos, negsuc}
use derostorm.Ui.Text.{rune_width}
use derostorm.Ui.Canvas.{Style, Cell, Canvas, set_rune}
use derostorm.Ui.Draw.{add_ℕ, hline, hline_loop, vline, vline_loop, fill_loop}
use derostorm.Ui.Rects.{Rect}
use derostorm.Ui.Draw.Plain.{Plain, reaches, cell_in, glyph, set_rune-cell}

-- A drawing that puts one glyph where the test says so, and leaves the rest.
abbrev pub Painted : ℕ → ℕ → Canvas → (ℕ → ℕ → Bool) → Cell → Canvas → Type 0
Painted w h c test g c' =
    Plain w h c'
    × ((col row : ℕ)
        → col < w
        → row < h
        → cell_in c' col row ≡ (if test col row then g else cell_in c col row))

merge :
    {A : Type 0} (a b : Bool) (g o : A)
    → (if b then g else if a then g else o) ≡ (if a || b then g else o)
merge true true g o = refl
merge true false g o = refl
merge false true g o = refl
merge false false g o = refl

-- One drawing after another.
Painted-then :
    (w h : ℕ) (c c' c'' : Canvas) (first second both : ℕ → ℕ → Bool) (g : Cell)
    → ((col row : ℕ) → (first col row || second col row) ≡ both col row)
    → Painted w h c first g c'
    → Painted w h c' second g c''
    → Painted w h c both g c''
Painted-then w h c c' c'' first second both g joined (_, one) (plain, two) = (
  plain,
  λ col row hc hr.
      two col row hc hr
      ∙ ap (λ o. if second col row then g else o) (one col row hc hr)
      ∙ merge (first col row) (second col row) g (cell_in c col row)
      ∙ ap (λ b. if b then g else cell_in c col row) (joined col row),
)

-- A step further.
pub reaches-suc :
    (x : ℤ) (i left col : ℕ)
    → (reaches (add_ℕ x i) 1 col || reaches (add_ℕ x (i + 1)) left col)
      ≡ reaches (add_ℕ x i) (suc left) col
reaches-suc (pos x) i left col = ground arith
reaches-suc (negsuc x) i left col = elim (Bool-cases (leb (i + 1) x)) [
  | inl more ↦ let here : leb i x ≡ true = ground arith in rw (more, here) (ground arith)
  | inr end ↦ elim (Bool-cases (leb i x)) [
    | inl here ↦ rw (end, here) (ground arith)
    | inr past ↦ rw (end, past) (ground arith)
  ]
]

pub reaches-zero : (x : ℤ) (col : ℕ) → reaches x 0 col ≡ false
reaches-zero (pos x) col = ground arith
reaches-zero (negsuc x) col = ground arith

pub reaches-start : (x : ℤ) (n col : ℕ) → reaches (add_ℕ x 0) n col ≡ reaches x n col
reaches-start (pos x) n col = ground arith
reaches-start (negsuc x) n col = ground arith

row_and : (a b r : Bool) → (a && r || b && r) ≡ ((a || b) && r)
row_and true true true = refl
row_and true true false = refl
row_and true false true = refl
row_and true false false = refl
row_and false b r = refl

col_and : (a b r : Bool) → (r && a || r && b) ≡ (r && (a || b))
col_and a b true = refl
col_and a b false = refl

hline_loop-Painted :
    (w h left i : ℕ) (c : Canvas) (x y : ℤ) (r : ℕ) (st : Style)
    → rune_width r ≡ 1
    → Plain w h c
    → Painted w h c
        (λ col row. reaches (add_ℕ x i) left col && reaches y 1 row)
        (glyph r st)
        (hline_loop left i c x y r st)
unfolding hline_loop
hline_loop-Painted w h zero i c x y r st one plain =
    (plain, λ col row hc hr. rw (reaches-zero (add_ℕ x i) col) refl)
hline_loop-Painted w h (suc left) i c x y r st one plain =
    let (plain', here) = set_rune-cell w h c (add_ℕ x i) y r st one plain in
    Painted-then w h c (set_rune c (add_ℕ x i) y r st) _
      (λ col row. reaches (add_ℕ x i) 1 col && reaches y 1 row)
      (λ col row. reaches (add_ℕ x (i + 1)) left col && reaches y 1 row)
      (λ col row. reaches (add_ℕ x i) (suc left) col && reaches y 1 row) (glyph r st)
      (λ col row.
        row_and (reaches (add_ℕ x i) 1 col) (reaches (add_ℕ x (i + 1)) left col) (reaches y 1 row)
        ∙ ap (λ b. b && reaches y 1 row) (reaches-suc x i left col))
      (plain', here)
      (hline_loop-Painted w h left (i + 1) (set_rune c (add_ℕ x i) y r st) x y r st one plain')

never : (b : Bool) (g o : Cell) → o ≡ (if b && false then g else o)
never true g o = refl
never false g o = refl

vline_loop-Painted :
    (w h left i : ℕ) (c : Canvas) (x y : ℤ) (r : ℕ) (st : Style)
    → rune_width r ≡ 1
    → Plain w h c
    → Painted w h c
        (λ col row. reaches x 1 col && reaches (add_ℕ y i) left row)
        (glyph r st)
        (vline_loop left i c x y r st)
unfolding vline_loop
vline_loop-Painted w h zero i c x y r st one plain = (
  plain,
  λ col row hc hr. rw (reaches-zero (add_ℕ y i) row) (never (reaches x 1 col) (glyph r st) _),
)
vline_loop-Painted w h (suc left) i c x y r st one plain =
    let (plain', here) = set_rune-cell w h c x (add_ℕ y i) r st one plain in
    Painted-then w h c (set_rune c x (add_ℕ y i) r st) _
      (λ col row. reaches x 1 col && reaches (add_ℕ y i) 1 row)
      (λ col row. reaches x 1 col && reaches (add_ℕ y (i + 1)) left row)
      (λ col row. reaches x 1 col && reaches (add_ℕ y i) (suc left) row) (glyph r st)
      (λ col row.
        col_and (reaches (add_ℕ y i) 1 row) (reaches (add_ℕ y (i + 1)) left row) (reaches x 1 col)
        ∙ ap (λ b. reaches x 1 col && b) (reaches-suc y i left row))
      (plain', here)
      (vline_loop-Painted w h left (i + 1) (set_rune c x (add_ℕ y i) r st) x y r st one plain')

pub hline-Painted :
    (w h : ℕ) (c : Canvas) (x y : ℤ) (n r : ℕ) (st : Style)
    → rune_width r ≡ 1
    → Plain w h c
    → Painted w h c
        (λ col row. reaches x n col && reaches y 1 row)
        (glyph r st)
        (hline c x y n r st)
unfolding hline
hline-Painted w h c x y n r st one plain =
    let (plain', cells) = hline_loop-Painted w h n 0 c x y r st one plain in
    (
      plain',
      λ col row hc hr.
          cells col row hc hr
          ∙ ap (λ b. if b && reaches y 1 row then glyph r st else cell_in c col row)
              (reaches-start x n col),
    )

pub vline-Painted :
    (w h : ℕ) (c : Canvas) (x y : ℤ) (n r : ℕ) (st : Style)
    → rune_width r ≡ 1
    → Plain w h c
    → Painted w h c
        (λ col row. reaches x 1 col && reaches y n row)
        (glyph r st)
        (vline c x y n r st)
unfolding vline
vline-Painted w h c x y n r st one plain =
    let (plain', cells) = vline_loop-Painted w h n 0 c x y r st one plain in
    (
      plain',
      λ col row hc hr.
          cells col row hc hr
          ∙ ap (λ b. if reaches x 1 col && b then glyph r st else cell_in c col row)
              (reaches-start y n row),
    )

pub fill_loop-Painted :
    (w h left y : ℕ) (c : Canvas) (rect : Rect) (r : ℕ) (st : Style)
    → rune_width r ≡ 1
    → Plain w h c
    → Painted w h c
        (λ col row. reaches (pos rect.x) rect.w col && reaches (pos y) left row)
        (glyph r st)
        (fill_loop left y c rect r st)
unfolding fill_loop
fill_loop-Painted w h zero y c rect r st one plain = (
  plain,
  λ col row hc hr.
      rw (reaches-zero (pos y) row) (never (reaches (pos rect.x) rect.w col) (glyph r st) _),
)
fill_loop-Painted w h (suc left) y c rect r st one plain =
    let (plain', here) = hline-Painted w h c (pos rect.x) (pos y) rect.w r st one plain in
    Painted-then w h c (hline c (pos rect.x) (pos y) rect.w r st) _
      (λ col row. reaches (pos rect.x) rect.w col && reaches (pos y) 1 row)
      (λ col row. reaches (pos rect.x) rect.w col && reaches (pos (y + 1)) left row)
      (λ col row. reaches (pos rect.x) rect.w col && reaches (pos y) (suc left) row) (glyph r st)
      (λ col row.
        col_and (reaches (pos y) 1 row) (reaches (pos (y + 1)) left row)
          (reaches (pos rect.x) rect.w col)
        ∙ ap (λ b. reaches (pos rect.x) rect.w col && b) (next_row row))
      (plain', here) (fill_loop-Painted w h left (y + 1) _ rect r st one plain')
  where
    next_row :
        (row : ℕ)
        → (reaches (pos y) 1 row || reaches (pos (y + 1)) left row) ≡ reaches (pos y) (suc left) row
    next_row row = ground arith
