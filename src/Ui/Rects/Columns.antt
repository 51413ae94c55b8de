-- ===== src/Ui/Rects/Columns.antt =====
-- How the columns of Cols stand in the row that they are cut from.
use derostorm.Base.{
  ℕ, zero, suc, ◌+◌, ◌-◌, ◌*◌, ◌/◌, ◌%◌, ◌≤◌, ◌<◌, ◌≡◌, refl, ap, ◌∙◌, arith, false, ◌||◌, List, [],
  ◌∷◌, ◌==◌, length,
}
use native.Mathlib.Nat.{le-div_iff_mul-le, mod-lt}
use mathlib.Core.Path.{subst}
use derostorm.Base.Int.{ℤ}
use derostorm.Ui.Rects.{
  Rect, weight, total_weight, shares, total_width, shift_right, widen, hand_out, cols,
}

-- Columns of one row, each starting where the one before it ends.
abbrev pub Adjacent : Rect → ℕ → List Rect → Type 0
Adjacent row x [] = Unit
Adjacent row x (r ∷ rs) = ((r.x ≡ x) × ((r.y ≡ row.y) × (r.h ≡ row.h))) × Adjacent row (x + r.w) rs

shares-Adjacent : (row : Rect) (total x : ℕ) (ws : List ℤ) → Adjacent row x (shares row total x ws)
unfolding shares
shares-Adjacent row total x [] = tt
shares-Adjacent row total x (wt ∷ ws) =
    ((refl, (refl, refl)), shares-Adjacent row total (x + row.w * weight wt / total) ws)

length-shares :
    (row : Rect) (total x : ℕ) (ws : List ℤ) → length (shares row total x ws) ≡ length ws
unfolding shares
length-shares row total x [] = refl
length-shares row total x (wt ∷ ws) =
    ap suc (length-shares row total (x + row.w * weight wt / total) ws)

shares-width :
    (row : Rect) (total x : ℕ) (ws : List ℤ)
    → 0 < total
    → total_width (shares row total x ws) * total ≤ row.w * total_weight ws
unfolding shares
shares-width row total x [] h = omega arith
shares-width row total x (wt ∷ ws) h =
    let q = row.w * weight wt / total in
    let fits : q * total ≤ row.w * weight wt = (le-div_iff_mul-le h).0 (omega arith) in
    let rest = shares-width row total (x + q) ws h in grind (arith, fits, rest)

shift_right-Adjacent :
    (row : Rect) (x : ℕ) (rs : List Rect)
    → Adjacent row x rs
    → Adjacent row (x + 1) (shift_right rs)
shift_right-Adjacent row x [] a = tt
shift_right-Adjacent row x (r ∷ rs) ((hx, hyh), a) =
    let moved : x + r.w + 1 ≡ x + 1 + r.w = omega arith in
    (
      (ap (λ n. n + 1) hx, hyh),
      subst (λ n. Adjacent row n (shift_right rs)) moved (shift_right-Adjacent row (x + r.w) rs a),
    )

shift_right-width :
    (rs : List Rect)
    → (total_width (shift_right rs) ≡ total_width rs) × (length (shift_right rs) ≡ length rs)
shift_right-width [] = (refl, refl)
shift_right-width (r ∷ rs) =
    (ap (λ n. r.w + n) (shift_right-width rs).0, ap suc (shift_right-width rs).1)

widen-Adjacent :
    (row : Rect) (x j : ℕ) (rs : List Rect) → Adjacent row x rs → Adjacent row x (widen j rs)
unfolding widen
widen-Adjacent row x j [] a = tt
widen-Adjacent row x zero (r ∷ rs) (h, a) =
    let moved : x + r.w + 1 ≡ x + (r.w + 1) = omega arith in
    (
      h,
      subst (λ n. Adjacent row n (shift_right rs)) moved (shift_right-Adjacent row (x + r.w) rs a),
    )
widen-Adjacent row x (suc j) (r ∷ rs) (h, a) = (h, widen-Adjacent row (x + r.w) j rs a)

widen-width :
    (j : ℕ) (rs : List Rect)
    → j < length rs
    → (total_width (widen j rs) ≡ total_width rs + 1) × (length (widen j rs) ≡ length rs)
unfolding widen
widen-width j [] h = absurd (omega arith)
widen-width zero (r ∷ rs) h =
    (omega (arith, (shift_right-width rs).0), ap suc (shift_right-width rs).1)
widen-width (suc j) (r ∷ rs) h =
    let (w, l) = widen-width j rs (omega arith) in (omega (arith, w), ap suc l)

hand_out-Adjacent :
    (row : Rect) (x left i : ℕ) (rs : List Rect)
    → 0 < length rs
    → Adjacent row x rs
    → Adjacent row x (hand_out left i rs)
      × (total_width (hand_out left i rs) ≡ total_width rs + left)
      × (length (hand_out left i rs) ≡ length rs)
unfolding hand_out
hand_out-Adjacent row x zero i rs some_left a = (a, omega arith, refl)
hand_out-Adjacent row x (suc left) i rs some_left a =
    let j = i % length rs in
    let (w, l) = widen-width j rs (mod-lt i some_left) in
    let (a', w', l') =
      hand_out-Adjacent row x left (i + 1) (widen j rs) (omega (arith, l))
        (widen-Adjacent row x j rs a) in
    (a', omega (arith, w, w'), l' ∙ l)

-- For weights of which one is positive, Cols returns one column for each weight; they stand side
-- by side in the row, from its left edge on; and their widths add up to the width of the row.
pub cols-Adjacent :
    (row : Rect) (ws : List ℤ)
    → 0 < total_weight ws
    → Adjacent row row.x (cols row ws)
      × (total_width (cols row ws) ≡ row.w)
      × (length (cols row ws) ≡ length ws)
unfolding cols
cols-Adjacent row [] h = absurd (omega arith)
cols-Adjacent row (wt ∷ ws) h =
    let total = total_weight (wt ∷ ws) in
    let out = shares row total row.x (wt ∷ ws) in
    let proper : (total == 0 || (suc (length ws) == 0)) ≡ false = ground arith in
    let len = length-shares row total row.x (wt ∷ ws) in
    let room : total_width out ≤ row.w =
      cancel (total_width out) row.w total h (shares-width row total row.x (wt ∷ ws) h) in
    let (a, w, l) =
      hand_out-Adjacent row row.x (row.w - total_width out) 0 out (omega (arith, len))
        (shares-Adjacent row total row.x (wt ∷ ws)) in
    rw proper (a, w ∙ omega (arith, room), l ∙ len)
  where
    cancel : (a b t : ℕ) → 0 < t → a * t ≤ b * t → a ≤ b
    cancel a b t ht le = grind arith
