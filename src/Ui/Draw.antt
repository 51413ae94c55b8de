-- ===== src/Ui/Draw.antt =====
-- internal/ui/canvas.go: the calls that write more than one cell, all through Set.
pub mod Plain
pub mod Lines
pub mod Cells
use derostorm.Base.{
  ℕ, zero, suc, ◌+◌, ◌-◌, ◌≢◌, Bool, false, List, [], ◌∷◌, leb, ◌==◌, if◌then◌else◌, All, inl, inr,
  Bool-cases,
}
use derostorm.Base.Int.{ℤ, pos, negsuc}
use derostorm.Ui.Text.{rune_width}
use derostorm.Ui.Canvas.{Style, Canvas, set_rune}
use derostorm.Ui.Canvas.Whole.{IsWhole}
use derostorm.Ui.Canvas.Halves.{set_rune-IsWhole}
use derostorm.Ui.Rects.{Rect}

-- A coordinate and a count of cells to its right.
abbrev pub add_ℕ : ℤ → ℕ → ℤ
add_ℕ (pos m) n = pos (m + n)
add_ℕ (negsuc m) n = if leb n m then negsuc (m - n) else pos (n - m - 1)

-- z >= n
abbrev pub at_least : ℤ → ℕ → Bool
at_least (pos m) n = leb n m
at_least (negsuc m) n = false

-- The loop of Text, with `w` cells written, and the count that it returns.
pub text_loop : Canvas → ℤ → ℤ → List ℕ → Style → ℕ → Canvas × ℕ
text_loop c x y [] st w = (c, w)
text_loop c x y (r ∷ s) st w =
    let skipped = text_loop c x y s st w in
    let written = text_loop (set_rune c (add_ℕ x w) y r st) x y s st (w + rune_width r) in
    if rune_width r == 0 then skipped else if at_least (add_ℕ x w) c.w then (c, w) else written

unfoldable pub text : Canvas → ℤ → ℤ → List ℕ → Style → Canvas × ℕ
unfolding text_loop
text c x y s st = text_loop c x y s st 0

-- HLine and VLine, from cell i on with `left` cells to write.
pub hline_loop : ℕ → ℕ → Canvas → ℤ → ℤ → ℕ → Style → Canvas
hline_loop zero i c x y r st = c
hline_loop (suc left) i c x y r st =
    hline_loop left (i + 1) (set_rune c (add_ℕ x i) y r st) x y r st

unfoldable pub hline : Canvas → ℤ → ℤ → ℕ → ℕ → Style → Canvas
unfolding hline_loop
hline c x y w r st = hline_loop w 0 c x y r st

pub vline_loop : ℕ → ℕ → Canvas → ℤ → ℤ → ℕ → Style → Canvas
vline_loop zero i c x y r st = c
vline_loop (suc left) i c x y r st =
    vline_loop left (i + 1) (set_rune c x (add_ℕ y i) r st) x y r st

unfoldable pub vline : Canvas → ℤ → ℤ → ℕ → ℕ → Style → Canvas
unfolding vline_loop
vline c x y h r st = vline_loop h 0 c x y r st

-- Fill: a line for each row of the rectangle, from row y on.
pub fill_loop : ℕ → ℕ → Canvas → Rect → ℕ → Style → Canvas
fill_loop zero y c rect r st = c
fill_loop (suc left) y c rect r st =
    fill_loop left (y + 1) (hline c (pos rect.x) (pos y) rect.w r st) rect r st

unfoldable pub fill : Canvas → Rect → ℕ → Style → Canvas
unfolding fill_loop
fill c rect r st = fill_loop rect.h rect.y c rect r st
