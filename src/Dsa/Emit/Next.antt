-- ===== src/Dsa/Emit/Next.antt =====
-- The invariant of the order and the keys at the step to the column in front in emitRun of
-- internal/dsa/dsa.go.
use derostorm.Base.{
  ℕ, suc, ◌+◌, ◌^◌, ◌≤◌, ◌<◌, ◌≡◌, ◌⊎◌, refl, sym, ap, ◌∙◌, arith, Bool, true, false, List, [], ◌∷◌,
  map, ◌==◌, ==_iff, if◌then◌else◌, length, length-map, get_or, All, All-map, Chain, count, occurs,
  inl, inr, Bool-cases,
}
use mathlib.Core.Path.{subst}
use derostorm.Base.Bytes.{IsByte}
use derostorm.Dsa.Words.{slide_key, get_or-IsByte}
use derostorm.Dsa.Suffix.{UpTo, UpTo-next}
use derostorm.Dsa.Buckets.{buckets}
use derostorm.Dsa.Buckets.Counting.{length-buckets}
use derostorm.Dsa.Buckets.Kept.{total-buckets}
use derostorm.Dsa.Radix.Sorted.{All-buckets_kept}
use derostorm.Dsa.Column.{Entry, top_byte, column_step}
use derostorm.Dsa.Column.Agree.{column_step-buckets}
use derostorm.Dsa.Groups.Valid.{HasKey}
use derostorm.Dsa.Emit.{Lists}
use derostorm.Dsa.Emit.Run.{Columns, spread, next_column}
use derostorm.Dsa.Emit.Valid.{at_column}
use derostorm.Dsa.Emit.Grouped.{Slice, bases}
use derostorm.Dsa.Emit.Emitted.{Ready, Clean}
use derostorm.Dsa.Emit.Slide.{
  Chain-column, Chain-entries, is_at, count-bases, IsKeyed, top_byte-byte, slid_key, sorted_column,
}

-- A new key for every entry does not move the blocks.
bases-rekeyed :
    (f : Entry → ℕ) (es : List Entry) → bases (map (λ (e : Entry). (e.0, f e)) es) ≡ bases es
bases-rekeyed f [] = refl
bases-rekeyed f (e ∷ es) = ap (◌∷◌ e.0) (bases-rekeyed f es)

-- What holds of the blocks holds of the same blocks in another order.
member : (P : ℕ → Type 0) (p : ℕ) (xs : List ℕ) → 1 ≤ count p xs → All P xs → P p
member P p [] h a = absurd (omega arith)
member P p (x ∷ xs) h (px, a) = elim (Bool-cases (x == p)) [
  | inl e ↦ subst P ((==_iff x p).0 e) px
  | inr e ↦ member P p xs (ground arith) a
]

pub All-same :
    (P : ℕ → Type 0) (xs ys : List ℕ) → ((p : ℕ) → count p xs ≡ count p ys) → All P ys → All P xs
All-same P xs ys same a =
    All-map (λ x. 1 ≤ count x xs) P xs (λ x h. member P x ys (omega (arith, same x)) a) (occurs xs)

module _ (t : List ℕ) (bytes : All IsByte t) (small : length t ≤ 2 ^ 20) where
  -- The same byte in front of all the blocks.
  abbrev pub SameByte : ℕ → ℕ → List ℕ → Type 0
  SameByte base rel xs = All (λ b. get_or t (b + rel) 0 ≡ get_or t (base + rel) 0) xs

  rekey :
      (f : Entry → ℕ) (rel : ℕ) (es : List Entry)
      → ((e : Entry) → IsKeyed t bytes (suc rel) e → HasKey t (f e) (e.0 + rel))
      → All (IsKeyed t bytes (suc rel)) es
      → All (IsKeyed t bytes rel) (map (λ (e : Entry). (e.0, f e)) es)
  rekey f rel [] h a = tt
  rekey f rel (e ∷ es) h (k, a) = (h e k, rekey f rel es h a)

  -- Nothing moves when all the bytes are the same.
  same_order :
      (base rel : ℕ) (xs : List ℕ)
      → SameByte base rel xs
      → All (λ b. b + suc rel < length t) xs
      → Chain (UpTo t) (at_column (suc rel) xs)
      → Chain (UpTo t) (at_column rel xs)
  same_order base rel [] s a c = tt
  same_order base rel (x ∷ xs) (sx, s) (hx, a) (h, c) =
      (front xs s a h, same_order base rel xs s a c)
    where
      front :
          (ys : List ℕ)
          → All (λ b. get_or t (b + rel) 0 ≡ get_or t (base + rel) 0) ys
          → All (λ b. b + suc rel < length t) ys
          → All (UpTo t (x + suc rel)) (at_column (suc rel) ys)
          → All (UpTo t (x + rel)) (at_column rel ys)
      front [] s a h = tt
      front (y ∷ ys) (sy, s) (hy, a) (u, h) =
          let xup : x + suc rel ≡ x + rel + 1 = omega arith in
          let yup : y + suc rel ≡ y + rel + 1 = omega arith in
          let u' : UpTo t (x + rel + 1) (y + rel + 1) = rw (xup, yup) at u in
          (UpTo-next t (x + rel) (y + rel) (omega arith) (sx ∙ sym sy) u', front ys s a h)

  spread-bases : (w : Columns) → bases (spread w) ≡ bases w.entries
  unfolding spread
  spread-bases w = elim (Bool-cases w.uniform) [
    | inl u ↦ rw u (bases-rekeyed (λ e. w.k0) w.entries)
    | inr u ↦ rw u refl
  ]

  rekey-uniform :
      (k rel : ℕ) (es : List Entry)
      → All (λ e. HasKey t k (e.0 + rel)) es
      → All (IsKeyed t bytes rel) (map (λ (e : Entry). (e.0, k)) es)
  rekey-uniform k rel [] a = tt
  rekey-uniform k rel (e ∷ es) (h, a) = (h, rekey-uniform k rel es a)

  spread-IsKeyed :
      (es : List Entry) (k0 off : ℕ) (u d : Bool) (s : Lists) (blocks : List ℕ) (rel : ℕ)
      → let w : Columns = record {
        entries = es;
        k0 = k0;
        uniform = u;
        dirty = d;
        arena_off = off;
        lists = s;
      } in
        Ready t bytes small blocks rel w → All (IsKeyed t bytes rel) (spread w)
  unfolding spread
  spread-IsKeyed es k0 off true d s blocks rel ready = rekey-uniform k0 rel es ready.0
  spread-IsKeyed es k0 off false d s blocks rel ready = ready.0

  -- A sorted column.
  sorted_entries :
      (tmp slid : List Entry) (blocks : List ℕ) (rel : ℕ)
      → All (IsKeyed t bytes rel) slid
      → Chain (UpTo t) (at_column (suc rel) (bases slid))
      → ((p : ℕ) → count p (bases slid) ≡ count p blocks)
      → length slid ≡ length blocks
      → length slid ≤ 512
      → length slid ≤ length tmp
      → All (IsKeyed t bytes rel) (column_step slid tmp)
        × Chain (UpTo t) (at_column rel (bases (column_step slid tmp)))
        × ((p : ℕ) → count p (bases (column_step slid tmp)) ≡ count p blocks)
        × (length (column_step slid tmp) ≡ length blocks)
  sorted_entries tmp slid blocks rel keyed chain same len few room =
      let top : All (λ e. top_byte e < 256) slid =
        All-map (IsKeyed t bytes rel) (λ e. top_byte e < 256) slid
          (λ e k.
            let b = get_or-IsByte t (e.0 + rel) bytes in
            omega (arith, top_byte-byte t bytes rel e k))
          keyed in
      let e = column_step-buckets slid tmp top few room in
      rw e (
        All-buckets_kept top_byte (IsKeyed t bytes rel) 256 slid keyed,
        Chain-column (UpTo t) rel (buckets top_byte 256 slid)
            (sorted_column t bytes rel slid keyed (Chain-entries (UpTo t) (suc rel) slid chain)),
        λ p.
            count-bases p (buckets top_byte 256 slid)
            ∙ total-buckets (is_at p) top_byte 256 slid top
            ∙ sym (count-bases p slid)
            ∙ same p,
        length-buckets top_byte 256 slid top ∙ len,
      )

  -- A sliding key with the byte that stands in front of every block.
  slide-uniform :
      (base rel k : ℕ) (es : List Entry)
      → SameByte base rel (bases es)
      → All (λ e. HasKey t k (e.0 + suc rel)) es
      → All (λ e. HasKey t (slide_key (get_or t (base + rel) 0) k) (e.0 + rel)) es
  slide-uniform base rel k [] s a = tt
  slide-uniform base rel k (e ∷ es) (se, s) ((h, key), a) =
      let slid = slid_key t bytes rel k e.0 h key in
      (subst (λ l. HasKey t (slide_key l k) (e.0 + rel)) se slid, slide-uniform base rel k es s a)

  slide_each :
      (base rel : ℕ) (es : List Entry)
      → SameByte base rel (bases es)
      → All (IsKeyed t bytes (suc rel)) es
      → All
          (IsKeyed t bytes rel)
          (map (λ (e : Entry). (e.0, slide_key (get_or t (base + rel) 0) e.1)) es)
  slide_each base rel [] s a = tt
  slide_each base rel (e ∷ es) (se, s) ((h, key), a) =
      let slid = slid_key t bytes rel e.1 e.0 h key in
      (subst (λ l. HasKey t (slide_key l e.1) (e.0 + rel)) se slid, slide_each base rel es s a)

  within :
      (key : Entry → ℕ) (rel : ℕ) (es : List Entry)
      → All (λ e. HasKey t (key e) (e.0 + rel)) es
      → All (λ b. b + rel < length t) (bases es)
  within key rel [] a = tt
  within key rel (e ∷ es) ((h, _), a) = (h, within key rel es a)

  module _ (es : List Entry) (k0 off : ℕ) (d : Bool) (s : Lists) (blocks constant : List ℕ)
      (tmp : List Entry) (base rel : ℕ) where
    still_lem :
        (u : Bool)
        → let w : Columns = record {
          entries = es;
          k0 = k0;
          uniform = u;
          dirty = d;
          arena_off = off;
          lists = s;
        } in
          let hi = get_or t (base + rel) 0 in
          let w' : Columns =
            if u
            then record w { k0 = slide_key hi k0 }
            else record w { entries = map (λ (e : Entry). (e.0, slide_key hi e.1)) es } in
          SameByte base rel blocks
          → Ready t bytes small blocks (suc rel) w
          → (d ≡ true) ⊎ Clean t bytes small w
          → Ready t bytes small blocks rel w'
            × ((w'.dirty ≡ true) ⊎ Clean t bytes small w')
            × (w'.lists ≡ s)
    still_lem true same_byte (keyed, chain, same, len) clean =
        let bytes_here : SameByte base rel (bases es) =
          All-same (λ b. get_or t (b + rel) 0 ≡ get_or t (base + rel) 0) (bases es) blocks same
            same_byte in
        (
          (
            slide-uniform base rel k0 es bytes_here keyed,
            same_order base rel (bases es) bytes_here (within (λ e. k0) (suc rel) es keyed) chain,
            same,
            len,
          ),
          clean,
          refl,
        )
    still_lem false same_byte (keyed, chain, same, len) clean =
        let hi = get_or t (base + rel) 0 in
        let bytes_here : SameByte base rel (bases es) =
          All-same (λ b. get_or t (b + rel) 0 ≡ get_or t (base + rel) 0) (bases es) blocks same
            same_byte in
        let unmoved = bases-rekeyed (λ e. slide_key hi e.1) es in
        let chain' =
          same_order base rel (bases es) bytes_here (within (λ e. e.1) (suc rel) es keyed) chain in
        (
          (
            slide_each base rel es bytes_here keyed,
            subst (λ l. Chain (UpTo t) (at_column rel l)) (sym unmoved) chain',
            λ p. ap (count p) unmoved ∙ same p,
            length-map (λ (e : Entry). (e.0, slide_key hi e.1)) es ∙ len,
          ),
          elim clean [
            | inl dirty ↦ inl dirty
            | inr sliced ↦ inr (subst (Slice s.arena off) (sym unmoved) sliced)
          ],
          refl,
        )

    -- The step keeps the state ready, for the column in front, if a column that the mask calls
    -- constant has one byte in all the blocks.
    pub next_column_lem :
        (u : Bool)
        → let w : Columns = record {
          entries = es;
          k0 = k0;
          uniform = u;
          dirty = d;
          arena_off = off;
          lists = s;
        } in
          let w' = next_column t constant tmp base rel w in
          ((get_or constant rel 0 == 0) ≡ false → SameByte base rel blocks)
          → length es ≤ 512
          → length es ≤ length tmp
          → Ready t bytes small blocks (suc rel) w
          → Clean t bytes small w
          → Ready t bytes small blocks rel w'
            × ((w'.dirty ≡ true) ⊎ Clean t bytes small w')
            × (w'.lists ≡ s)
    unfolding next_column
    next_column_lem u mask few room ready clean =
        let w : Columns = record {
          entries = es;
          k0 = k0;
          uniform = u;
          dirty = d;
          arena_off = off;
          lists = s;
        } in
        let (_, chain, same, len) = ready in
        let f : Entry → ℕ = λ e. slide_key (get_or t (e.0 + rel) 0) e.1 in
        let slid : List Entry = map (λ (e : Entry). (e.0, f e)) (spread w) in
        let unmoved : bases slid ≡ bases es = bases-rekeyed f (spread w) ∙ spread-bases w in
        let sized : length slid ≡ length es =
          sym (length-map (λ (e : Entry). e.0) slid)
          ∙ ap length unmoved
          ∙ length-map (λ (e : Entry). e.0) es in
        elim (Bool-cases (get_or constant rel 0 == 0)) [
          | inl moves ↦
              let sorted =
                sorted_entries tmp slid blocks rel
                  (rekey f rel (spread w) (λ e k. slid_key t bytes rel e.1 e.0 k.0 k.1)
                    (spread-IsKeyed es k0 off u d s blocks (suc rel) ready))
                  (subst (λ l. Chain (UpTo t) (at_column (suc rel) l)) (sym unmoved) chain)
                  (λ p. ap (count p) unmoved ∙ same p) (sized ∙ len) (omega arith) (omega arith) in
              rw moves (sorted, inl refl, refl)
          | inr still ↦ rw still (still_lem u (mask still) ready (inr clean))
        ]
