-- ===== src/Ui/Text/Widths.antt =====
-- What Clip, Pad, LPad and Center return, and how wide it is.
use derostorm.Base.{
  true, false, ℕ, zero, suc, ◌+◌, ◌-◌, ◌/◌, ◌≤◌, ◌<◌, ◌≡◌, refl, arith, List, [], ◌∷◌, ◌++◌, ltb,
  leb, ◌==◌, ltb→lt, ltb_false→le, replicate, min, ◌⊎◌, inl, inr, Bool-cases,
}
use derostorm.Ui.Text.{
  rune_width, width_loop, width, clip_loop, clip, pad, lpad, center, ellipsis, space,
}

rune_width-le : (r : ℕ) → rune_width r ≤ 2
unfolding rune_width
rune_width-le r = ground arith

width_loop-shift : (s : List ℕ) (w : ℕ) → width_loop s w ≡ w + width s
unfolding width
width_loop-shift [] w = omega arith
width_loop-shift (r ∷ s) w =
    omega (arith, width_loop-shift s (w + rune_width r), width_loop-shift s (0 + rune_width r))

width-nil : width [] ≡ 0
unfolding width
width-nil = refl

width-cons : (r : ℕ) (s : List ℕ) → width (r ∷ s) ≡ rune_width r + width s
unfolding width
width-cons r s = omega (arith, width_loop-shift s (0 + rune_width r))

pub width-append : (s t : List ℕ) → width (s ++ t) ≡ width s + width t
width-append [] t = omega (arith, width-nil)
width-append (r ∷ s) t = omega (arith, width-cons r (s ++ t), width-cons r s, width-append s t)

width-replicate-space : (n : ℕ) → width (replicate n space) ≡ n
unfolding rune_width
width-replicate-space zero = width-nil
width-replicate-space (suc n) =
    omega (arith, width-cons space (replicate n space), width-replicate-space n)

width-ellipsis : width (ellipsis ∷ []) ≡ 1
unfolding width rune_width
width-ellipsis = refl

-- The cut keeps at most w-1 cells, and at least w-2 of a string that has more than w.
clip_loop-width :
    (s : List ℕ) (w used : ℕ)
    → used ≤ w - 1
    → w < used + width s
    → (used + width (clip_loop s w used) ≤ w - 1) × (w ≤ used + width (clip_loop s w used) + 2)
unfolding clip_loop
clip_loop-width [] w used h wide = absurd (omega (arith, width-nil))
clip_loop-width (r ∷ s) w used h wide = elim (Bool-cases (ltb (w - 1) (used + rune_width r))) [
  | inl over ↦
      rw over (omega (arith, width-nil, ltb→lt (w - 1) (used + rune_width r) over, rune_width-le r))
  | inr fits ↦ rw fits (
      omega (
        arith,
        ltb_false→le (w - 1) (used + rune_width r) fits,
        width-cons r s,
        width-cons r (clip_loop s w (used + rune_width r)),
        clip_loop-width s w (used + rune_width r),
      ))
]

-- Clip never takes more than w cells; it takes at least one cell less than the width of the string,
-- or than w if that is smaller; and it returns a string that fits in w cells, w not 0, unchanged.
pub clip-width :
    (s : List ℕ) (w : ℕ)
    → (width (clip s w) ≤ w)
      × (min w (width s) ≤ width (clip s w) + 1)
      × ((w < width s) ⊎ ((w ≡ 0) ⊎ (clip s w ≡ s)))
unfolding clip
clip-width s w = (
  ground (
    arith,
    width-nil,
    width-ellipsis,
    width-append (clip_loop s w 0) (ellipsis ∷ []),
    clip_loop-width s w 0,
  ),
  ground (
    arith,
    width-nil,
    width-ellipsis,
    width-append (clip_loop s w 0) (ellipsis ∷ []),
    clip_loop-width s w 0,
  ),
  elim (Bool-cases (leb (width s) w)) [
    | inr wide ↦ inl (ground arith)
    | inl fits ↦
        inr
          (elim (Bool-cases (w == 0)) [ inl z ↦ inl (ground arith) | inr nz ↦ inr (ground arith) ])
  ],
)

-- What is put around a string to make it w cells wide: `left` spaces in front, the rest behind.
abbrev pub spaced : List ℕ → ℕ → ℕ → List ℕ
spaced s left right = replicate left space ++ (s ++ replicate right space)

width-spaced : (s : List ℕ) (left right : ℕ) → width (spaced s left right) ≡ left + width s + right
width-spaced s left right = omega (
  arith,
  width-append (replicate left space) (s ++ replicate right space),
  width-append s (replicate right space),
  width-replicate-space left,
  width-replicate-space right,
)

-- For a string that is wider than w, or exactly as wide, Pad, LPad and Center return what Clip
-- returns. For a narrower one they return the string with spaces around it, exactly w cells wide:
-- Pad with all of them behind it, LPad with all of them in front, Center with as many in front as
-- behind, or one more behind.
pub pad-lpad-center-width :
    (s : List ℕ) (w : ℕ)
    → ((w ≤ width s) × (pad s w ≡ clip s w) × (lpad s w ≡ clip s w) × (center s w ≡ clip s w))
      ⊎ ((left right : ℕ) × (left + width s + right ≡ w)
          × ((left ≡ right) ⊎ (left + 1 ≡ right))
          × (0 < right)
          × (pad s w ≡ s ++ replicate (left + right) space)
          × (lpad s w ≡ replicate (left + right) space ++ s)
          × (center s w ≡ spaced s left right)
          × (width (pad s w) ≡ w)
          × (width (lpad s w) ≡ w)
          × (width (center s w) ≡ w))
unfolding pad lpad center
pad-lpad-center-width s w = elim (Bool-cases (ltb (width s) w)) [
  | inl narrow ↦
      let n = w - width s in
      let left = n / 2 in
      let right = n - left in
      let lt : width s < w = ltb→lt (width s) w narrow in
      let wide : leb w (width s) ≡ false = ground arith in
      let all : left + right ≡ n = omega arith in
      inr (
        left,
        right,
        omega arith,
        omega arith,
        omega arith,
        rw (narrow, all) refl,
        rw (narrow, all) refl,
        rw wide refl,
        rw narrow (omega (arith, width-append s (replicate n space), width-replicate-space n)),
        rw narrow (omega (arith, width-append (replicate n space) s, width-replicate-space n)),
        rw wide (omega (arith, width-spaced s left right)),
      )
  | inr not_narrow ↦
      let le : w ≤ width s = ltb_false→le (width s) w not_narrow in
      let wide : leb w (width s) ≡ true = ground arith in
      inl (le, rw not_narrow refl, rw not_narrow refl, rw wide refl)
]
