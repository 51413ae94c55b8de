-- ===== src/Examples/Console.antt =====
-- Runs on concrete inputs: the console.
use derostorm.Base.{
  if◌then◌else◌, ◌&&◌, get_or, ◌++◌, replicate, ℕ, zero, suc, ◌+◌, ◌-◌, ◌*◌, ◌/◌, ◌≤◌, ◌<◌, min,
  ◌≡◌, ◌≢◌, ◌⊎◌, refl, arith, true, false, List, [], ◌∷◌, length,
}
use derostorm.Base.{none}
use derostorm.Base.Int.{pos, negsuc}
use derostorm.Ui.Rects.{Rect, total_width, cols}
use derostorm.Ui.Rects.Columns.{Adjacent, cols-Adjacent}
use derostorm.Ui.Draw.{hline, vline, fill, text}
use derostorm.Ui.Draw.Plain.{Plain, reaches, cell_in, glyph}
use derostorm.Ui.Draw.Cells.{offset, draw-cells}
use derostorm.LogView.{LogEntry, View, apply, keep_loop, apply-keep_loop}
use derostorm.Ui.Text.{rune_width, width, clip, pad, lpad, center, space}
use derostorm.Ui.Text.Widths.{clip-width, spaced, pad-lpad-center-width}
use derostorm.Ui.Format.{format_uint, commas, commas-read, read_grouped, comma_at, fourth_from_end}
use derostorm.Ui.Canvas.{Canvas, no_style, set_rune, blank, cell_at}
use derostorm.Ui.Canvas.Whole.{Whole, IsWhole}
use derostorm.Ui.Canvas.Halves.{set_rune-IsWhole}

-- Two wide runes and a narrow one.
abbrev wide_text : List ℕ
wide_text = 0x4e2d ∷ 0x6587 ∷ b'a' ∷ []

clip-width_example :
    (width (clip wide_text 4) ≤ 4)
    × (min 4 (width wide_text) ≤ width (clip wide_text 4) + 1)
    × ((4 < width wide_text) ⊎ ((◌≡◌ {A = ℕ} 4 0) ⊎ (clip wide_text 4 ≡ wide_text)))
clip-width_example = clip-width wide_text 4

pad-lpad-center-width_example :
    ((9 ≤ width wide_text)
      × (pad wide_text 9 ≡ clip wide_text 9)
      × (lpad wide_text 9 ≡ clip wide_text 9)
      × (center wide_text 9 ≡ clip wide_text 9))
    ⊎ ((left right : ℕ) × (left + width wide_text + right ≡ 9)
        × ((left ≡ right) ⊎ (left + 1 ≡ right))
        × (0 < right)
        × (pad wide_text 9 ≡ wide_text ++ replicate (left + right) space)
        × (lpad wide_text 9 ≡ replicate (left + right) space ++ wide_text)
        × (center wide_text 9 ≡ spaced wide_text left right)
        × (width (pad wide_text 9) ≡ 9)
        × (width (lpad wide_text 9) ≡ 9)
        × (width (center wide_text 9) ≡ 9))
pad-lpad-center-width_example = pad-lpad-center-width wide_text 9

commas-read_example :
    (read_grouped (commas 1234567) 0 ≡ 1234567)
    × (length (commas 1234567)
        ≡ length (format_uint 1234567) + (length (format_uint 1234567) - 1) / 3)
    × (comma_at (commas 1234567) 1 ≡ fourth_from_end (length (commas 1234567)) 1)
commas-read_example = commas-read 1234567 1 (omega arith)

abbrev blanks : Canvas
blanks = record { w = 3; h = 1; cells = blank no_style ∷ blank no_style ∷ blank no_style ∷ [] }

-- A wide rune on the last two of three columns.
abbrev one_wide : Canvas
one_wide = record {
  w = 3;
  h = 1;
  cells =
      blank no_style
      ∷ record { r = 0x4e2d; s = no_style; cont = false }
      ∷ record { r = 0; s = no_style; cont = true }
      ∷ [];
}

blanks-Whole : (j : ℕ) → Whole 3 blanks.cells j
unfolding rune_width
blanks-Whole zero = record {
  right_half = λ e. absurd (ground arith);
  left_half = λ _ e. absurd (ground arith);
}
blanks-Whole (suc zero) = record {
  right_half = λ e. absurd (ground arith);
  left_half = λ _ e. absurd (ground arith);
}
blanks-Whole (suc (suc zero)) = record {
  right_half = λ e. absurd (ground arith);
  left_half = λ _ e. absurd (ground arith);
}
blanks-Whole (suc (suc (suc j))) = record {
  right_half = λ e. absurd (ground arith);
  left_half = λ _ e. absurd (ground arith);
}

blanks_narrow : (k : ℕ) → rune_width (cell_at blanks.cells k).r ≡ 1
unfolding rune_width
blanks_narrow zero = refl
blanks_narrow (suc zero) = refl
blanks_narrow (suc (suc zero)) = refl
blanks_narrow (suc (suc (suc k))) = refl

blanks_apart : (k : ℕ) → rune_width (cell_at blanks.cells k).r ≢ 2
blanks_apart k e = absurd (omega (arith, e, blanks_narrow k))

set_rune-IsWhole_example : IsWhole (set_rune blanks (pos 1) (pos 0) 0x4e2d no_style)
set_rune-IsWhole_example =
    set_rune-IsWhole blanks (pos 1) (pos 0) 0x4e2d no_style
      (record { size = refl; halves = blanks-Whole }) (λ i j _ _ _ _. blanks_apart (j * 3 + i + 1))

abbrev row : Rect
row = record { x = 2; y = 0; w = 100; h = 5 }

cols-Adjacent_example :
    Adjacent row 2 (cols row (pos 3 ∷ negsuc 0 ∷ pos 4 ∷ []))
    × (total_width (cols row (pos 3 ∷ negsuc 0 ∷ pos 4 ∷ [])) ≡ 100)
    × (length (cols row (pos 3 ∷ negsuc 0 ∷ pos 4 ∷ [])) ≡ 3)
cols-Adjacent_example = cols-Adjacent row (pos 3 ∷ negsuc 0 ∷ pos 4 ∷ []) (omega arith)

one_cell : rune_width b'a' ≡ 1
unfolding rune_width
one_cell = refl

blanks_flat : (j : ℕ) → (cell_at blanks.cells j).cont ≡ false
blanks_flat zero = refl
blanks_flat (suc zero) = refl
blanks_flat (suc (suc zero)) = refl
blanks_flat (suc (suc (suc j))) = refl

blanks-Plain : Plain 3 1 blanks
blanks-Plain = record { width = refl; height = refl; size = refl; narrow = blanks_flat }

-- A text from one column left of the canvas on.
abbrev one_square : Rect
one_square = record { x = 2; y = 0; w = 1; h = 1 }

abbrev three_runes : List ℕ
three_runes = b'a' ∷ b'a' ∷ b'a' ∷ []

draw-cells_example :
    (cell_in (hline blanks (negsuc 0) (pos 0) 3 b'a' no_style) 1 0 ≡ (
      if reaches (negsuc 0) 3 1 && reaches (pos 0) 1 0
      then glyph b'a' no_style
      else cell_in blanks 1 0))
    × (cell_in (vline blanks (negsuc 0) (pos 0) 3 b'a' no_style) 1 0 ≡ (
        if reaches (negsuc 0) 1 1 && reaches (pos 0) 3 0
        then glyph b'a' no_style
        else cell_in blanks 1 0))
    × (cell_in (fill blanks one_square b'a' no_style) 1 0 ≡ (
        if reaches (pos one_square.x) one_square.w 1 && reaches (pos one_square.y) one_square.h 0
        then glyph b'a' no_style
        else cell_in blanks 1 0))
    × (cell_in (text blanks (negsuc 0) (pos 0) three_runes no_style).0 1 0 ≡ (
        if reaches (negsuc 0) (length three_runes) 1 && reaches (pos 0) 1 0
        then glyph (get_or three_runes (offset (negsuc 0) 1) 0) no_style
        else cell_in blanks 1 0))
draw-cells_example =
    draw-cells 3 1 blanks (negsuc 0) (pos 0) 3 b'a' one_square three_runes no_style 1 0 blanks-Plain
      one_cell (one_cell, (one_cell, (one_cell, tt))) (omega arith) (omega arith)

abbrev no_filter : View
no_filter = record { scroll = 0; paused = false; least = 0; text = []; cleared_at = none }

abbrev entries : List LogEntry
entries = record { time = 4; level = 2; tag = b'x' ∷ []; text = b'y' ∷ [] } ∷ []

apply-keep_loop_example : apply (λ s. s) no_filter entries ≡ keep_loop (λ s. s) no_filter entries
apply-keep_loop_example = apply-keep_loop (λ s. s) no_filter entries refl
