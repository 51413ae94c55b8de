-- ===== src/Ui/Draw/Cells.antt =====
-- Which cells Text of internal/ui/canvas.go writes, and the calls that draw together.
use derostorm.Base.{
  ℕ, suc, ◌+◌, ◌-◌, ◌<◌, ◌≡◌, refl, ap, ◌∙◌, arith, Bool, true, false, ◌&&◌, List, [], ◌∷◌, leb,
  ◌==◌, if◌then◌else◌, length, get_or, All, inl, inr, Bool-cases,
}
use derostorm.Base.Int.{ℤ, pos, negsuc}
use derostorm.Ui.Text.{rune_width}
use derostorm.Ui.Canvas.{Style, Cell, Canvas, set_rune}
use derostorm.Ui.Draw.{add_ℕ, at_least, hline, vline, fill, text, text_loop}
use derostorm.Ui.Rects.{Rect}
use derostorm.Ui.Draw.Plain.{Plain, reaches, cell_in, glyph, set_rune-cell}
use derostorm.Ui.Draw.Lines.{
  reaches-suc, reaches-zero, reaches-start, hline-Painted, vline-Painted, fill_loop-Painted,
}

-- How far the place `col` is behind `x`.
abbrev pub offset : ℤ → ℕ → ℕ
offset (pos x) col = col - x
offset (negsuc x) col = col + x + 1

offset-first :
    (x : ℤ) (i n col : ℕ)
    → reaches (add_ℕ x i) 1 col ≡ true
    → (offset (add_ℕ x i) col ≡ 0) × (reaches (add_ℕ x (i + 1)) n col ≡ false)
offset-first (pos x) i n col h = ground arith
offset-first (negsuc x) i n col h = elim (Bool-cases (leb (i + 1) x)) [
  | inl more ↦
      let here : leb i x ≡ true = ground arith in
      let h' = rw here at h in rw (more, here) (ground arith)
  | inr end ↦ elim (Bool-cases (leb i x)) [
    | inl here ↦ let h' = rw here at h in rw (end, here) (ground arith)
    | inr past ↦ let h' = rw past at h in rw (end, past) (ground arith)
  ]
]

offset-next :
    (x : ℤ) (i n col : ℕ)
    → reaches (add_ℕ x (i + 1)) n col ≡ true
    → offset (add_ℕ x i) col ≡ suc (offset (add_ℕ x (i + 1)) col)
offset-next (pos x) i n col h = ground arith
offset-next (negsuc x) i n col h = elim (Bool-cases (leb (i + 1) x)) [
  | inl more ↦
      let here : leb i x ≡ true = ground arith in
      let h' = rw more at h in rw (more, here) (ground arith)
  | inr end ↦ elim (Bool-cases (leb i x)) [
    | inl here ↦ let h' = rw end at h in rw (end, here) (ground arith)
    | inr past ↦ let h' = rw end at h in rw (end, past) (ground arith)
  ]
]

-- One rune and then the others, on the row of a text.
joined :
    (x : ℤ) (k col : ℕ) (on_row : Bool) (r : ℕ) (s : List ℕ) (st : Style) (o : Cell)
    → (if reaches (add_ℕ x (k + 1)) (length s) col && on_row
        then glyph (get_or s (offset (add_ℕ x (k + 1)) col) 0) st
        else if reaches (add_ℕ x k) 1 col && on_row
        then glyph r st
        else o)
      ≡ (if reaches (add_ℕ x k) (suc (length s)) col && on_row
          then glyph (get_or (r ∷ s) (offset (add_ℕ x k) col) 0) st
          else o)
joined x k col on_row r s st o =
    rw (← reaches-suc x k (length s) col) (elim (Bool-cases (reaches (add_ℕ x k) 1 col)) [
      | inl first ↦
          let (e, not_next) = offset-first x k (length s) col first in rw (first, not_next, e) refl
      | inr not_first ↦ elim (Bool-cases (reaches (add_ℕ x (k + 1)) (length s) col)) [
        | inr out ↦ rw (not_first, out) refl
        | inl next ↦ rw (not_first, next, offset-next x k (length s) col next) refl
      ]
    ])

text_loop-cells :
    (s : List ℕ) (w h k : ℕ) (c : Canvas) (x y : ℤ) (st : Style)
    → All (λ r. rune_width r ≡ 1) s
    → Plain w h c
    → (col row : ℕ) → col < w
    → row < h
    → cell_in (text_loop c x y s st k).0 col row ≡ (
        if reaches (add_ℕ x k) (length s) col && reaches y 1 row
        then glyph (get_or s (offset (add_ℕ x k) col) 0) st
        else cell_in c col row)
unfolding text_loop
text_loop-cells [] w h k c x y st ones plain col row hc hr = rw (reaches-zero (add_ℕ x k) col) refl
text_loop-cells (r ∷ s) w h k c x y st (one, ones) plain col row hc hr =
    let (plain', here) = set_rune-cell w h c (add_ℕ x k) y r st one plain in
    let rest =
      text_loop-cells s w h (k + 1) (set_rune c (add_ℕ x k) y r st) x y st ones plain' col row hc
        hr in
    let shown : (rune_width r == 0) ≡ false = rw one refl in
    elim (Bool-cases (at_least (add_ℕ x k) c.w)) [
      | inl past ↦
          rw
            (
              text_loop,
              shown,
              past,
              beyond (add_ℕ x k) c.w (suc (length s)) col (rw plain.width hc) past,
            )
            refl
      | inr inside ↦
          rw (text_loop, shown, inside, one)
            (rest
              ∙ ap
                  (λ o.
                    if reaches (add_ℕ x (k + 1)) (length s) col && reaches y 1 row
                    then glyph (get_or s (offset (add_ℕ x (k + 1)) col) 0) st
                    else o)
                  (here col row hc hr)
              ∙ joined x k col (reaches y 1 row) r s st (cell_in c col row))
    ]
  where
    beyond : (z : ℤ) (w n col : ℕ) → col < w → at_least z w ≡ true → reaches z n col ≡ false
    beyond (pos z) w n col hc h = ground arith
    beyond (negsuc z) w n col hc h = cc

-- On a canvas of w columns and h rows with no wide runes, and for runes of one cell: in every column
-- and row of the canvas, HLine puts its rune and style in the n cells from (x, y) to the right, VLine
-- in the n cells from (x, y) down, Fill in the cells of the rectangle, and Text puts the runes of the
-- string one after the other in the cells from (x, y) to the right; they leave the rune and the style
-- of every other cell as they were. What of it lies outside the canvas is not drawn.
pub draw-cells :
    (w h : ℕ) (c : Canvas) (x y : ℤ) (n r : ℕ) (rect : Rect) (s : List ℕ) (st : Style) (col row : ℕ)
    → Plain w h c
    → rune_width r ≡ 1
    → All (λ q. rune_width q ≡ 1) s
    → col < w
    → row < h
    → (cell_in (hline c x y n r st) col row
        ≡ (if reaches x n col && reaches y 1 row then glyph r st else cell_in c col row))
      × (cell_in (vline c x y n r st) col row
          ≡ (if reaches x 1 col && reaches y n row then glyph r st else cell_in c col row))
      × (cell_in (fill c rect r st) col row ≡ (
          if reaches (pos rect.x) rect.w col && reaches (pos rect.y) rect.h row
          then glyph r st
          else cell_in c col row))
      × (cell_in (text c x y s st).0 col row ≡ (
          if reaches x (length s) col && reaches y 1 row
          then glyph (get_or s (offset x col) 0) st
          else cell_in c col row))
unfolding fill text
draw-cells w h c x y n r rect s st col row plain one ones hc hr = (
  (hline-Painted w h c x y n r st one plain).1 col row hc hr,
  (vline-Painted w h c x y n r st one plain).1 col row hc hr,
  (fill_loop-Painted w h rect.h rect.y c rect r st one plain).1 col row hc hr,
  text_loop-cells s w h 0 c x y st ones plain col row hc hr
      ∙ ap
          (λ b.
            if b && reaches y 1 row
            then glyph (get_or s (offset (add_ℕ x 0) col) 0) st
            else cell_in c col row)
          (reaches-start x (length s) col)
      ∙ ap
          (λ k.
            if reaches x (length s) col && reaches y 1 row
            then glyph (get_or s k 0) st
            else cell_in c col row)
          (offset-start x),
)
  where
    offset-start : (z : ℤ) → offset (add_ℕ z 0) col ≡ offset z col
    offset-start (pos z) = omega arith
    offset-start (negsuc z) = ground arith
