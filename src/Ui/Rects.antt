-- ===== src/Ui/Rects.antt =====
-- internal/ui/canvas.go: rectangles and how a row is cut into columns. A rectangle is inside the
-- canvas, so that its place and its size are natural numbers; a weight may be negative.
pub mod Columns
use derostorm.Base.{
  ℕ, zero, suc, ◌+◌, ◌-◌, ◌*◌, ◌/◌, ◌%◌, ◌≤◌, ◌<◌, ◌≡◌, Bool, true, false, ◌||◌, List, [], ◌∷◌, ltb,
  leb, ◌==◌, if◌then◌else◌, length, map,
}
use derostorm.Base.Int.{ℤ, pos, negsuc}

pub record Rect : Type 0 where
  pub x : ℕ
  pub y : ℕ
  pub w : ℕ
  pub h : ℕ

-- Inset2; a size that would be negative is 0.
unfoldable pub inset2 : Rect → ℕ → ℕ → Rect
inset2 r x y = record { x = r.x + x; y = r.y + y; w = r.w - 2 * x; h = r.h - 2 * y }

-- A weight that is not positive counts for nothing.
abbrev pub weight : ℤ → ℕ
weight (pos n) = n
weight (negsuc n) = 0

abbrev pub total_weight : List ℤ → ℕ
total_weight [] = 0
total_weight (wt ∷ weights) = weight wt + total_weight weights

-- The first loop: from x on, a column of r.W * wt / total for each weight.
pub shares : Rect → ℕ → ℕ → List ℤ → List Rect
shares r total x [] = []
shares r total x (wt ∷ weights) =
    let w = r.w * weight wt / total in
    record { x = x; y = r.y; w = w; h = r.h } ∷ shares r total (x + w) weights

abbrev pub total_width : List Rect → ℕ
total_width [] = 0
total_width (r ∷ rs) = r.w + total_width rs

abbrev pub shift_right : List Rect → List Rect
shift_right [] = []
shift_right (r ∷ rs) = record r { x = r.x + 1 } ∷ shift_right rs

-- out[j].W++, and X++ for every column behind it.
pub widen : ℕ → List Rect → List Rect
widen j [] = []
widen zero (r ∷ rs) = record r { w = r.w + 1 } ∷ shift_right rs
widen (suc j) (r ∷ rs) = r ∷ widen j rs

-- The second loop, for as many rounds as cells are left over.
pub hand_out : ℕ → ℕ → List Rect → List Rect
unfolding widen
hand_out zero i out = out
hand_out (suc left) i out = hand_out left (i + 1) (widen (i % length out) out)

-- Cols
unfoldable pub cols : Rect → List ℤ → List Rect
unfolding shares hand_out
cols r weights =
    let total = total_weight weights in
    if total == 0 || (length weights == 0)
    then r ∷ []
    else (let out = shares r total r.x weights in hand_out (r.w - total_width out) 0 out)
