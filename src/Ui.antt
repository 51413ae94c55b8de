-- ===== src/Ui.antt =====
-- internal/ui: text on a grid of cells. A string is the list of its runes, and a cell count is a
-- native number; the code treats a negative width as it treats 0.
pub mod Text
pub mod Format
pub mod Canvas
pub mod Rects
pub mod Draw
