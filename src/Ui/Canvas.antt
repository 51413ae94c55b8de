-- ===== src/Ui/Canvas.antt =====
-- internal/ui/canvas.go: the grid of cells that widgets draw into, row by row in one list. A
-- coordinate is an integer, and what stands outside the grid is dropped.
pub mod Whole
pub mod Halves
use derostorm.Base.{
  ℕ, zero, suc, ◌+◌, ◌-◌, ◌*◌, ◌≤◌, ◌<◌, Bool, true, false, ◌&&◌, not, List, [], ◌∷◌, ltb, leb,
  ◌==◌, if◌then◌else◌, length, get_or, set, replicate,
}
use derostorm.Base.Int.{ℤ, pos, negsuc}
use derostorm.Ui.Text.{rune_width, space}

pub record Style : Type 0 where
  pub fg : List ℕ
  pub bg : List ℕ
  pub bold : Bool

abbrev pub no_style : Style
no_style = record { fg = []; bg = []; bold = false }

pub record Cell : Type 0 where
  pub r : ℕ
  pub s : Style
  pub cont : Bool

abbrev pub blank : Style → Cell
blank s = record { r = space; s = s; cont = false }

pub record Canvas : Type 0 where
  pub w : ℕ
  pub h : ℕ
  pub cells : List Cell

-- Clear
unfoldable pub clear : Canvas → Canvas
clear c = record c { cells = replicate (length c.cells) (blank no_style) }

-- Resize; the old allocation is kept or not, and Clear overwrites what it held.
unfoldable pub resize : Canvas → ℕ → ℕ → Canvas
unfolding clear
resize c w h =
    let w' = if ltb w 1 then 1 else w in
    let h' = if ltb h 1 then 1 else h in
    if (w' == c.w && h' == c.h) && not (length c.cells == 0)
    then c
    else clear (record { w = w'; h = h'; cells = replicate (w' * h') (blank no_style) })

-- The cell at an index, and a write to it.
abbrev pub cell_at : List Cell → ℕ → Cell
cell_at cells i = get_or cells i (blank no_style)

-- `if c.cells[i].cont && x > 0`: the left half of a wide rune whose right half is overwritten.
unfoldable pub blank_left : List Cell → ℕ → ℕ → List Cell
blank_left cells i x =
    if (cell_at cells i).cont && ltb 0 x
    then set cells (i - 1) (blank (cell_at cells (i - 1)).s)
    else cells

-- `if x+1 < c.W && c.cells[i+1].cont`: the right half of a wide rune whose left half is overwritten.
unfoldable pub blank_right : List Cell → ℕ → ℕ → ℕ → List Cell
blank_right cells i x w =
    if ltb (x + 1) w && (cell_at cells (i + 1)).cont
    then set cells (i + 1) (blank (cell_at cells (i + 1)).s)
    else cells

-- The last part of Set: the rune, or a blank where a wide rune has one column left.
unfoldable pub put_rune : List Cell → ℕ → ℕ → ℕ → ℕ → Style → List Cell
put_rune cells i x w r s =
    if rune_width r == 2 && leb w (x + 1)
    then set cells i (blank s)
    else (let cells' = set cells i (record { r = r; s = s; cont = false }) in
        if rune_width r == 2
        then set cells' (i + 1) (record { r = 0; s = s; cont = true })
        else cells')

-- Set
unfoldable pub set_rune : Canvas → ℤ → ℤ → ℕ → Style → Canvas
unfolding blank_left blank_right put_rune
set_rune c (negsuc x) y r s = c
set_rune c (pos x) (negsuc y) r s = c
set_rune c (pos x) (pos y) r s =
    if ltb x c.w && ltb y c.h
    then (if rune_width r == 0
        then c
        else (let i = y * c.w + x in
            record c {
              cells = put_rune (blank_right (blank_left c.cells i x) i x c.w) i x c.w r s;
            }))
    else c
