-- ===== src/Ui/Canvas/Whole.antt =====
-- What it means that the halves of the wide runes on a canvas stand together, and what Set does to the
-- cells around the one it writes.
use derostorm.Base.{
  ℕ, ◌+◌, ◌-◌, ◌*◌, ◌%◌, ◌<◌, ◌≡◌, refl, arith, true, false, ◌&&◌, List, ltb, leb, ◌==◌,
  if◌then◌else◌, length, length-set, set,
}
use derostorm.Base.Reverse.{get_or-set}
use derostorm.Ui.Text.{rune_width}
use derostorm.Ui.Canvas.{
  Style, Cell, Canvas, blank, no_style, cell_at, blank_left, blank_right, put_rune,
}

-- A right half stands in its row behind a wide rune, and a wide rune in front of its right half.
pub record Whole (w : ℕ) (cells : List Cell) (j : ℕ) : Type 0 where
  pub right_half :
      (cell_at cells j).cont ≡ true
      → (0 < j % w)
        × (rune_width (cell_at cells (j - 1)).r ≡ 2)
        × ((cell_at cells (j - 1)).cont ≡ false)
  pub left_half :
      (cell_at cells j).cont ≡ false
      → rune_width (cell_at cells j).r ≡ 2
      → (j % w + 1 < w) × ((cell_at cells (j + 1)).cont ≡ true)

pub record IsWhole (c : Canvas) : Type 0 where
  pub size : length c.cells ≡ c.w * c.h
  pub halves : (j : ℕ) → Whole c.w c.cells j

pub blank-narrow : (s : Style) → rune_width (blank s).r ≡ 1
unfolding rune_width
blank-narrow s = refl

pub half-narrow : rune_width 0 ≡ 0
unfolding rune_width
half-narrow = refl

-- One write at a cell (i, x) of a grid of width w, as long as the cells of its row are in the list.
module _ (cells : List Cell) (i x w : ℕ) (inside : i < length cells)
    (next_inside : x + 1 < w → i + 1 < length cells) where
  pub get-blank_left :
      (j : ℕ)
      → cell_at (blank_left cells i x) j ≡ (
          if ((cell_at cells i).cont && ltb 0 x) && (i - 1 == j)
          then blank (cell_at cells (i - 1)).s
          else cell_at cells j)
  unfolding blank_left
  get-blank_left j =
      ground (arith, get_or-set cells (i - 1) j (blank (cell_at cells (i - 1)).s) (blank no_style))

  pub length-blank_left : length (blank_left cells i x) ≡ length cells
  unfolding blank_left
  length-blank_left = ground (arith, length-set cells (i - 1) (blank (cell_at cells (i - 1)).s))

  pub get-blank_right :
      (j : ℕ)
      → cell_at (blank_right cells i x w) j ≡ (
          if (ltb (x + 1) w && (cell_at cells (i + 1)).cont) && (i + 1 == j)
          then blank (cell_at cells (i + 1)).s
          else cell_at cells j)
  unfolding blank_right
  get-blank_right j =
      ground (arith, get_or-set cells (i + 1) j (blank (cell_at cells (i + 1)).s) (blank no_style))

  pub length-blank_right : length (blank_right cells i x w) ≡ length cells
  unfolding blank_right
  length-blank_right = ground (arith, length-set cells (i + 1) (blank (cell_at cells (i + 1)).s))

  pub get-put_rune :
      (r j : ℕ) (s : Style)
      → cell_at (put_rune cells i x w r s) j ≡ (
          if (rune_width r == 2 && leb w (x + 1)) && (i == j)
          then blank s
          else if i == j
          then record { r = r; s = s; cont = false }
          else if (rune_width r == 2 && ltb (x + 1) w) && (i + 1 == j)
          then record { r = 0; s = s; cont = true }
          else cell_at cells j)
  unfolding put_rune
  get-put_rune r j s =
      let g : Cell = record { r = r; s = s; cont = false } in
      let k : Cell = record { r = 0; s = s; cont = true } in
      ground (
        arith,
        get_or-set cells i j (blank s) (blank no_style),
        get_or-set cells i j g (blank no_style),
        get_or-set (set cells i g) (i + 1) j k (blank no_style),
        length-set cells i g,
      )

  pub length-put_rune : (r : ℕ) (s : Style) → length (put_rune cells i x w r s) ≡ length cells
  unfolding put_rune
  length-put_rune r s =
      let g : Cell = record { r = r; s = s; cont = false } in
      let k : Cell = record { r = 0; s = s; cont = true } in
      ground (
        arith,
        length-set cells i (blank s),
        length-set cells i g,
        length-set (set cells i g) (i + 1) k,
      )
