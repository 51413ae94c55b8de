-- ===== src/Ui/Canvas/Halves.antt =====
-- Set and the halves of wide runes: where they stay together, and where they do not.
use derostorm.Base.{
  ℕ, zero, suc, ◌+◌, ◌-◌, ◌*◌, ◌%◌, ◌<◌, ◌≡◌, ◌≢◌, refl, ◌∙◌, arith, true, false, ◌&&◌, ◌⊎◌, List,
  ltb, leb, ◌==◌, if◌then◌else◌, length, inl, inr, Bool-cases,
}
use native.Mathlib.Decide.{ℕ_discrete}
use native.Mathlib.Nat.{add_assoc, mul-add-mod_self_right, mod-eq_of_lt}
use mathlib.Core.Path.{subst}
use derostorm.Base.Int.{ℤ, pos, negsuc}
use derostorm.Ui.Text.{rune_width}
use derostorm.Ui.Canvas.{
  Style, Cell, Canvas, blank, cell_at, blank_left, blank_right, put_rune, set_rune,
}
use derostorm.Ui.Canvas.Whole.{
  Whole, IsWhole, blank-narrow, half-narrow, get-blank_left, length-blank_left, get-blank_right,
  length-blank_right, get-put_rune, length-put_rune,
}

-- The cells after the two blanks and the write.
abbrev written : List Cell → ℕ → ℕ → ℕ → ℕ → Style → List Cell
written cells i x w r s = put_rune (blank_right (blank_left cells i x) i x w) i x w r s

module _ (cells : List Cell) (i x w : ℕ) (inside : i < length cells)
    (next_inside : x + 1 < w → i + 1 < length cells) where
  get-written :
      (r j : ℕ) (s : Style)
      → cell_at (written cells i x w r s) j ≡ (
          if (rune_width r == 2 && leb w (x + 1)) && (i == j)
          then blank s
          else if i == j
          then record { r = r; s = s; cont = false }
          else if (rune_width r == 2 && ltb (x + 1) w) && (i + 1 == j)
          then record { r = 0; s = s; cont = true }
          else if (ltb (x + 1) w && (cell_at cells (i + 1)).cont) && (i + 1 == j)
          then blank (cell_at cells (i + 1)).s
          else if ((cell_at cells i).cont && ltb 0 x) && (i - 1 == j)
          then blank (cell_at cells (i - 1)).s
          else cell_at cells j)
  get-written r j s =
      let l = blank_left cells i x in
      let len : length l ≡ length cells = length-blank_left cells i x w inside next_inside in
      let m = blank_right l i x w in
      let len' : length m ≡ length l =
        length-blank_right l i x w (omega arith) (λ p. omega (arith, next_inside p)) in
      let at = get-blank_left cells i x w inside next_inside (i + 1) in
      get-put_rune m i x w (omega arith) (λ p. omega (arith, next_inside p)) r j s
      ∙ ground (
        arith,
        get-blank_right l i x w (omega arith) (λ p. omega (arith, next_inside p)) j,
        at,
        get-blank_left cells i x w inside next_inside j,
      )

  length-written : (r : ℕ) (s : Style) → length (written cells i x w r s) ≡ length cells
  length-written r s =
      let l = blank_left cells i x in
      let len : length l ≡ length cells = length-blank_left cells i x w inside next_inside in
      let m = blank_right l i x w in
      let len' : length m ≡ length l =
        length-blank_right l i x w (omega arith) (λ p. omega (arith, next_inside p)) in
      length-put_rune m i x w (omega arith) (λ p. omega (arith, next_inside p)) r s ∙ len' ∙ len

  -- The cells that a write can change, one by one.
  get-written_here :
      (r : ℕ) (s : Style)
      → cell_at (written cells i x w r s) i ≡ (
          if rune_width r == 2 && leb w (x + 1)
          then blank s
          else record { r = r; s = s; cont = false })
  get-written_here r s = get-written r i s ∙ ground arith

  get-written_next :
      (r : ℕ) (s : Style)
      → cell_at (written cells i x w r s) (i + 1) ≡ (
          if rune_width r == 2 && ltb (x + 1) w
          then record { r = 0; s = s; cont = true }
          else if ltb (x + 1) w && (cell_at cells (i + 1)).cont
          then blank (cell_at cells (i + 1)).s
          else cell_at cells (i + 1))
  get-written_next r s = get-written r (i + 1) s ∙ ground arith

  get-written_prev :
      (r p : ℕ) (s : Style)
      → i ≡ suc p
      → cell_at (written cells i x w r s) p
        ≡ (if (cell_at cells i).cont && ltb 0 x then blank (cell_at cells p).s else cell_at cells p)
  get-written_prev r p s e =
      get-written r p s ∙ (let e' : i - 1 ≡ p = omega arith in rw e' (ground arith))

  get-written_other :
      (r j : ℕ) (s : Style)
      → i ≢ j
      → i + 1 ≢ j
      → (i ≡ 0) ⊎ (i - 1 ≢ j)
      → cell_at (written cells i x w r s) j ≡ cell_at cells j
  get-written_other r j s h n (inl z) = get-written r j s ∙ ground arith
  get-written_other r j s h n (inr q) = get-written r j s ∙ ground arith

  module _ (hx : x < w) (hm : i % w ≡ x) (hm1 : x + 1 < w → (i + 1) % w ≡ x + 1)
      (hm0 : x + 1 ≡ w → (i + 1) % w ≡ 0) (H : (k : ℕ) → Whole w cells k) (r : ℕ)
      (apart : rune_width r ≡ 2 → x + 1 < w → rune_width (cell_at cells (i + 1)).r ≢ 2)
      (s : Style) where
    Whole-here : Whole w (written cells i x w r s) i
    Whole-here =
        let a = get-written_here r s in
        let b = get-written_next r s in
        record { right_half = ground (arith, a); left_half = ground (arith, a, b, blank-narrow s) }

    Whole-next : Whole w (written cells i x w r s) (i + 1)
    Whole-next =
        let a = get-written_here r s in
        let b = get-written_next r s in
        let back : i + 1 - 1 ≡ i = omega arith in
        let hn = H (i + 1) in
        record {
          right_half = rw back (ground (arith, a, b, hn));
          left_half = ground (
            arith,
            b,
            hn,
            half-narrow,
            blank-narrow (cell_at cells (i + 1)).s,
            get-written_other r (i + 1 + 1) s (omega arith) (omega arith) (omega arith),
          );
        }

    Whole-prev : (p : ℕ) → i ≡ suc p → Whole w (written cells i x w r s) p
    Whole-prev zero e =
        let a = get-written_prev r 0 s e in
        record {
          right_half = ground (arith, a, H 0);
          left_half = ground (arith, a, H 0, H i, blank-narrow (cell_at cells 0).s);
        }
    Whole-prev (suc p) e =
        let a = get-written_prev r (suc p) s e in
        record {
          right_half = ground (
            arith,
            a,
            H (suc p),
            get-written_other r p s (omega arith) (omega arith) (omega arith),
          );
          left_half = ground (arith, a, H (suc p), H i, blank-narrow (cell_at cells (suc p)).s);
        }

    Whole-other :
        (j : ℕ) → i ≢ j → i + 1 ≢ j → (i ≡ 0) ⊎ (i - 1 ≢ j) → Whole w (written cells i x w r s) j
    Whole-other j h n q =
        let here = get-written_other r j s h n q in
        record { right_half = right j h n q here; left_half = left j h n q here }
      where
        right :
            (j : ℕ)
            → i ≢ j
            → i + 1 ≢ j
            → (i ≡ 0) ⊎ (i - 1 ≢ j)
            → cell_at (written cells i x w r s) j ≡ cell_at cells j
            → (cell_at (written cells i x w r s) j).cont ≡ true
            → (0 < j % w)
              × (rune_width (cell_at (written cells i x w r s) (j - 1)).r ≡ 2)
              × ((cell_at (written cells i x w r s) (j - 1)).cont ≡ false)
        right zero h n q here c = ground (arith, H 0)
        right (suc k) h n q here c = elim (ℕ_discrete (i + 1) k) [
          | yes e ↦
              let b = get-written_next r s in
              let b' = rw e at b in let hn = H (suc k) in ground (arith, b', hn)
          | no ne ↦
              let b = get-written_other r k s (omega arith) ne (omega arith) in
              ground (arith, b, H (suc k))
        ]

        left :
            (j : ℕ)
            → i ≢ j
            → i + 1 ≢ j
            → (i ≡ 0) ⊎ (i - 1 ≢ j)
            → cell_at (written cells i x w r s) j ≡ cell_at cells j
            → (cell_at (written cells i x w r s) j).cont ≡ false
            → rune_width (cell_at (written cells i x w r s) j).r ≡ 2
            → (j % w + 1 < w) × ((cell_at (written cells i x w r s) (j + 1)).cont ≡ true)
        left j h n q here c wide = elim (ℕ_discrete i (suc (j + 1))) [
          | yes e ↦ ground (arith, get-written_prev r (j + 1) s e, H j, H (j + 1), H i)
          | no ne ↦
              let b = get-written_other r (j + 1) s (omega arith) (omega arith) (omega arith) in
              ground (arith, b, H j)
        ]

    written-Whole : (j : ℕ) → Whole w (written cells i x w r s) j
    written-Whole j = elim (ℕ_discrete i j) [
      | yes e ↦ subst (Whole w (written cells i x w r s)) e Whole-here
      | no n0 ↦ elim (ℕ_discrete (i + 1) j) [
        | yes e ↦ subst (Whole w (written cells i x w r s)) e Whole-next
        | no n1 ↦ elim (ℕ_discrete i (suc j)) [
          | yes e ↦ Whole-prev j e
          | no n2 ↦ Whole-other j n0 n1 (omega arith)
        ]
      ]
    ]

row_fits : (x y w h : ℕ) → x < w → y < h → y * w + x < w * h
row_fits x y w h hx hy = grind arith

column : (x y w : ℕ) → x < w → (y * w + x) % w ≡ x
column x y w h = mul-add-mod_self_right y w x ∙ mod-eq_of_lt h

column_next : (x y w : ℕ) → x + 1 < w → (y * w + x + 1) % w ≡ x + 1
column_next x y w h = rw (add_assoc (y * w) x 1) (column (x + 1) y w h)

column_last : (x y w : ℕ) → x + 1 ≡ w → (y * w + x + 1) % w ≡ 0
column_last x y w h =
    let e : y * w + x + 1 ≡ suc y * w + 0 = grind arith in rw e (column 0 (suc y) w (omega arith))

-- Whatever is written and wherever, the halves of wide runes stay together, unless a wide rune is
-- written at a cell whose right neighbour in the row is the left half of another wide rune.
pub set_rune-IsWhole :
    (c : Canvas) (x y : ℤ) (r : ℕ) (s : Style)
    → IsWhole c
    → ((i j : ℕ)
        → x ≡ pos i
        → y ≡ pos j
        → rune_width r ≡ 2
        → i + 1 < c.w
        → rune_width (cell_at c.cells (j * c.w + i + 1)).r ≢ 2)
    → IsWhole (set_rune c x y r s)
unfolding set_rune
set_rune-IsWhole c (negsuc x) y r s v apart = v
set_rune-IsWhole c (pos x) (negsuc y) r s v apart = v
set_rune-IsWhole c (pos x) (pos y) r s v apart = elim (Bool-cases (ltb x c.w && ltb y c.h)) [
  | inr out ↦ rw out v
  | inl is_in ↦ elim (Bool-cases (rune_width r == 0)) [
    | inl none_drawn ↦ rw (is_in, none_drawn) v
    | inr drawn ↦ rw (is_in, drawn) (inside x y (ground arith) (ground arith) apart)
  ]
]
  where
    inside :
        (x y : ℕ)
        → x < c.w
        → y < c.h
        → ((i j : ℕ)
            → pos x ≡ pos i
            → pos y ≡ pos j
            → rune_width r ≡ 2
            → i + 1 < c.w
            → rune_width (cell_at c.cells (j * c.w + i + 1)).r ≢ 2)
        → IsWhole (record c { cells = written c.cells (y * c.w + x) x c.w r s })
    inside x y hx hy apart =
        let here : y * c.w + x < length c.cells =
          omega (arith, v.size, row_fits x y c.w c.h hx hy) in
        let next : x + 1 < c.w → y * c.w + x + 1 < length c.cells =
          λ p. omega (arith, v.size, row_fits (x + 1) y c.w c.h p hy) in
        record {
          size = length-written c.cells (y * c.w + x) x c.w here next r s ∙ v.size;
          halves =
              written-Whole c.cells (y * c.w + x) x c.w here next hx (column x y c.w hx)
                (λ p. column_next x y c.w p) (λ p. column_last x y c.w p) v.halves r
                (apart x y refl refl) s;
        }
