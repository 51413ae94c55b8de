-- ===== src/Ui/Text.antt =====
-- internal/ui/text.go: how many cells a string takes, and cutting and padding it to a width.
pub mod Widths
use derostorm.Base.{
  ℕ, zero, suc, ◌+◌, ◌-◌, ◌/◌, ◌≤◌, ◌<◌, ◌≡◌, refl, ◌∙◌, arith, Bool, true, false, ◌&&◌, ◌||◌, List,
  [], ◌∷◌, ◌++◌, ltb, leb, ◌==◌, leb→le, if◌then◌else◌, length, replicate, All, inl, inr,
  Bool-cases,
}

abbrev between : ℕ → ℕ → ℕ → Bool
between lo hi r = leb lo r && leb r hi

-- RuneWidth
unfoldable pub rune_width : ℕ → ℕ
rune_width r =
    if r == 0
    then 0
    else if ltb r 0x20 || r == 0x7f
    then 0
    else if ltb r 0x300
    then 1
    else if between 0x0300 0x036f r || (between 0x200b 0x200f r || r == 0xfeff)
    then 0
    else if between 0x1100 0x115f r
        || (between 0x2e80 0xa4cf r
            || (between 0xa960 0xa97f r
                || (between 0xac00 0xd7a3 r
                    || (between 0xf900 0xfaff r
                        || (between 0xfe30 0xfe6f r
                            || (between 0xff00 0xff60 r
                                || (between 0xffe0 0xffe6 r
                                    || (between 0x1f300 0x1f9ff r
                                        || between 0x20000 0x3fffd r))))))))
    then 2
    else 1

-- Width: `w` is the count so far.
pub width_loop : List ℕ → ℕ → ℕ
width_loop [] w = w
width_loop (r ∷ s) w = width_loop s (w + rune_width r)

unfoldable pub width : List ℕ → ℕ
unfolding width_loop
width s = width_loop s 0

abbrev pub ellipsis : ℕ
ellipsis = 0x2026

abbrev pub space : ℕ
space = 0x20

-- The loop of Clip: the runes that fit in w-1 cells, from `used` cells on.
pub clip_loop : List ℕ → ℕ → ℕ → List ℕ
clip_loop [] w used = []
clip_loop (r ∷ s) w used =
    let rest = r ∷ clip_loop s w (used + rune_width r) in
    if ltb (w - 1) (used + rune_width r) then [] else rest

unfoldable pub clip : List ℕ → ℕ → List ℕ
unfolding clip_loop
clip s w =
    if w == 0
    then []
    else if leb (width s) w
    then s
    else if w == 1
    then ellipsis ∷ []
    else clip_loop s w 0 ++ ellipsis ∷ []

unfoldable pub pad : List ℕ → ℕ → List ℕ
pad s w = let n = width s in if ltb n w then s ++ replicate (w - n) space else clip s w

unfoldable pub lpad : List ℕ → ℕ → List ℕ
lpad s w = let n = width s in if ltb n w then replicate (w - n) space ++ s else clip s w

unfoldable pub center : List ℕ → ℕ → List ℕ
center s w =
    let n = width s in
    if leb w n
    then clip s w
    else (let left = (w - n) / 2 in replicate left space ++ (s ++ replicate (w - n - left) space))

-- Repeat; a count that is not positive gives the empty string.
unfoldable pub repeat : ℕ → ℕ → List ℕ
repeat r n = if leb n 0 then [] else replicate n r
