-- ===== src/Dsa/Emit/Slide.antt =====
-- The step to the column in front in emitRun of internal/dsa/dsa.go: the keys and the order of the blocks.
use derostorm.Base.{
  ℕ, suc, ◌+◌, ◌<◌, ◌≡◌, refl, sym, ap, ◌∙◌, arith, List, [], ◌∷◌, ◌==◌, if◌then◌else◌, length,
  get_or, All, All-map, Chain, count,
}
use derostorm.Base.Bytes.{IsByte}
use derostorm.Dsa.Words.{key32, key32-bytes, slide_key, slide_key-key32, get_or-IsByte}
use derostorm.Dsa.Suffix.{UpTo, UpTo-first, UpTo-next}
use derostorm.Dsa.Buckets.{buckets}
use derostorm.Dsa.Buckets.Kept.{total, buckets-Chain}
use derostorm.Dsa.Radix.Sorted.{All-buckets_kept}
use derostorm.Dsa.Column.{Entry, top_byte}
use derostorm.Dsa.Groups.Valid.{HasKey}
use derostorm.Dsa.Emit.Valid.{at_column}
use derostorm.Dsa.Emit.Grouped.{bases}

-- A relation that needs a property of its elements.
Chain-given :
    {A : Type 0} (K : A → Type 0) (S : A → A → Type 0) (xs : List A)
    → Chain (λ x y. K x → K y → S x y) xs
    → All K xs
    → Chain S xs
Chain-given K S [] c a = tt
Chain-given K S (x ∷ xs) (h, c) (k, a) = (front xs h a, Chain-given K S xs c a)
  where
    front : (ys : List _) → All (λ y. K x → K y → S x y) ys → All K ys → All (S x) ys
    front [] h a = tt
    front (y ∷ ys) (g, h) (ky, a) = (g k ky, front ys h a)

Chain-weaken :
    {A : Type 0} (S T : A → A → Type 0) (xs : List A)
    → ((x y : A) → S x y → T x y)
    → Chain S xs
    → Chain T xs
Chain-weaken S T [] f c = tt
Chain-weaken S T (x ∷ xs) f (h, c) = (All-map (S x) (T x) xs (f x) h, Chain-weaken S T xs f c)

module _ (R : ℕ → ℕ → Type 0) (rel : ℕ) where
  All-column :
      (p : ℕ) (es : List Entry)
      → All (λ e. R p (e.0 + rel)) es
      → All (R p) (at_column rel (bases es))
  All-column p [] a = tt
  All-column p (e ∷ es) (h, a) = (h, All-column p es a)

  All-entries :
      (p : ℕ) (es : List Entry)
      → All (R p) (at_column rel (bases es))
      → All (λ e. R p (e.0 + rel)) es
  All-entries p [] a = tt
  All-entries p (e ∷ es) (h, a) = (h, All-entries p es a)

  pub Chain-column :
      (es : List Entry)
      → Chain (λ e f. R (e.0 + rel) (f.0 + rel)) es
      → Chain R (at_column rel (bases es))
  Chain-column [] c = tt
  Chain-column (e ∷ es) (h, c) = (All-column (e.0 + rel) es h, Chain-column es c)

  pub Chain-entries :
      (es : List Entry)
      → Chain R (at_column rel (bases es))
      → Chain (λ e f. R (e.0 + rel) (f.0 + rel)) es
  Chain-entries [] c = tt
  Chain-entries (e ∷ es) (h, c) = (All-entries (e.0 + rel) es h, Chain-entries es c)

-- An entry whose base is p.
abbrev pub is_at : ℕ → Entry → ℕ
is_at p e = if e.0 == p then 1 else 0

pub count-bases : (p : ℕ) (es : List Entry) → count p (bases es) ≡ total (is_at p) es
count-bases p [] = refl
count-bases p (e ∷ es) = ap (λ l. is_at p e + l) (count-bases p es)

module _ (t : List ℕ) (bytes : All IsByte t) (rel : ℕ) where
  -- The entry has the key of its place in column rel.
  abbrev pub IsKeyed : Entry → Type 0
  IsKeyed e = HasKey t e.1 (e.0 + rel)

  pub top_byte-byte : (e : Entry) → IsKeyed e → top_byte e ≡ get_or t (e.0 + rel) 0
  top_byte-byte e (_, key) =
      let b1 = get_or-IsByte t (e.0 + rel + 1) bytes in
      let b2 = get_or-IsByte t (e.0 + rel + 2) bytes in
      omega (arith, key32-bytes t (e.0 + rel) bytes)

  pub slid_key :
      (k p : ℕ)
      → p + suc rel < length t
      → key32 t (length t) (p + suc rel) ≡ k
      → HasKey t (slide_key (get_or t (p + rel) 0) k) (p + rel)
  slid_key k p h e =
      let up : p + suc rel ≡ p + rel + 1 = omega arith in
      let e' : key32 t (length t) (p + rel + 1) ≡ k = rw up at e in
      (
        omega arith,
        sym (slide_key-key32 t (p + rel) bytes) ∙ ap (slide_key (get_or t (p + rel) 0)) e',
      )

  -- The stable order by the byte of column rel, of blocks in the order of column rel + 1.
  pub sorted_column :
      (es : List Entry)
      → All IsKeyed es
      → Chain (λ e f. UpTo t (e.0 + suc rel) (f.0 + suc rel)) es
      → Chain (λ e f. UpTo t (e.0 + rel) (f.0 + rel)) (buckets top_byte 256 es)
  sorted_column es keyed chain =
      Chain-given IsKeyed (λ e f. UpTo t (e.0 + rel) (f.0 + rel)) (buckets top_byte 256 es)
        (buckets-Chain top_byte (λ e f. UpTo t (e.0 + suc rel) (f.0 + suc rel))
          (λ e f. IsKeyed e → IsKeyed f → UpTo t (e.0 + rel) (f.0 + rel))
          (λ e f lt ke kf.
            UpTo-first t (e.0 + rel) (f.0 + rel)
              (omega (arith, top_byte-byte e ke, top_byte-byte f kf)))
          (λ e f same up ke kf.
            let eup : e.0 + suc rel ≡ e.0 + rel + 1 = omega arith in
            let fup : f.0 + suc rel ≡ f.0 + rel + 1 = omega arith in
            let up' : UpTo t (e.0 + rel + 1) (f.0 + rel + 1) = rw (eup, fup) at up in
            UpTo-next t (e.0 + rel) (f.0 + rel) kf.0
              (sym (top_byte-byte e ke) ∙ same ∙ top_byte-byte f kf) up')
          256 es chain)
        (All-buckets_kept top_byte IsKeyed 256 es keyed)
