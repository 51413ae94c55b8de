-- ===== src/Dsa/Suffix.antt =====
-- The order of suffixes, independent of the code of internal/dsa/dsa.go.
use derostorm.Base.{
  ℕ, zero, suc, ◌+◌, ◌-◌, ◌*◌, ◌≤◌, ◌<◌, ◌≡◌, refl, sym, ◌∙◌, arith, true, false, List, [], ◌∷◌,
  ltb, ◌==◌, length, get_or, drop, All, inl, inr, Bool-cases, ltb→lt, ltb_false→le, drop_all,
}
use derostorm.Base.Bytes.{IsByte}
use derostorm.Dsa.Words.{key32, key32-bytes, key_bytes, get_or_past, get_or-IsByte}
use derostorm.Dsa.Compare.{lex_less, slice, suffix_less_from, suffix_less_from-lex_less}

-- One string is not before another and the other not before a third, so the third is not before
-- the one.
lex_less_trans :
    (xs ys zs : List ℕ) → lex_less ys xs ≡ false → lex_less zs ys ≡ false → lex_less zs xs ≡ false
lex_less_trans [] ys [] h g = refl
lex_less_trans [] ys (z ∷ zs) h g = refl
lex_less_trans (x ∷ xs) [] zs h g = cc
lex_less_trans (x ∷ xs) (y ∷ ys) [] h g = cc
lex_less_trans (x ∷ xs) (y ∷ ys) (z ∷ zs) h g = ground (arith, lex_less_trans xs ys zs)

pub lex_less_asym : (xs ys : List ℕ) → lex_less xs ys ≡ true → lex_less ys xs ≡ false
lex_less_asym [] [] h = refl
lex_less_asym [] (y ∷ ys) h = refl
lex_less_asym (x ∷ xs) [] h = cc
lex_less_asym (x ∷ xs) (y ∷ ys) h = ground (arith, lex_less_asym xs ys)

lex_less_irrefl : (xs : List ℕ) → lex_less xs xs ≡ false
lex_less_irrefl [] = refl
lex_less_irrefl (x ∷ xs) = ground (arith, lex_less_irrefl xs)

drop_cons : (p : ℕ) (t : List ℕ) → p < length t → drop p t ≡ get_or t p 0 ∷ drop (p + 1) t
drop_cons p [] h = absurd (omega arith)
drop_cons zero (x ∷ t) h = refl
drop_cons (suc p) (x ∷ t) h =
    let next : suc p + 1 ≡ suc (p + 1) = omega arith in rw next (drop_cons p t (omega arith))

pub lex_less_nil : (xs : List ℕ) → lex_less xs [] ≡ false
lex_less_nil [] = refl
lex_less_nil (x ∷ xs) = refl

module _ (t : List ℕ) where
  -- The suffix at q is not before the one at p.
  abbrev pub UpTo : ℕ → ℕ → Type 0
  UpTo p q = lex_less (drop q t) (drop p t) ≡ false

  pub UpTo-trans : (a b c : ℕ) → UpTo a b → UpTo b c → UpTo a c
  UpTo-trans a b c h g = lex_less_trans (drop a t) (drop b t) (drop c t) h g

  UpTo-past : (p q : ℕ) → length t ≤ p → UpTo p q
  UpTo-past p q h = rw (drop_all p t h) (lex_less_nil (drop q t))

  -- The first bytes decide, where a place past the end counts as a zero byte.
  pub UpTo-first : (p q : ℕ) → get_or t p 0 < get_or t q 0 → UpTo p q
  UpTo-first p q lt = elim (Bool-cases (ltb p (length t))) [
    | inl inside ↦
        let hq : q < length t = ground (arith, get_or_past t q) in
        rw (drop_cons p t (ltb→lt p (length t) inside), drop_cons q t hq) (ground arith)
    | inr past ↦ UpTo-past p q (ltb_false→le p (length t) past)
  ]

  -- Equal first bytes leave the next places to decide.
  pub UpTo-next :
      (p q : ℕ) → q < length t → get_or t p 0 ≡ get_or t q 0 → UpTo (p + 1) (q + 1) → UpTo p q
  UpTo-next p q hq e h = elim (Bool-cases (ltb p (length t))) [
    | inl inside ↦
        rw (drop_cons p t (ltb→lt p (length t) inside), drop_cons q t hq) (ground (arith, h, e))
    | inr past ↦ UpTo-past p q (ltb_false→le p (length t) past)
  ]

  module _ (bytes : All IsByte t) where
    -- A smaller key comes first, near the end or not.
    pub UpTo-key32 : (p q : ℕ) → key32 t (length t) p < key32 t (length t) q → UpTo p q
    UpTo-key32 p q lt =
        let keys : get_or t p 0 * 65536 + get_or t (p + 1) 0 * 256 + get_or t (p + 2) 0
            < get_or t q 0 * 65536 + get_or t (q + 1) 0 * 256 + get_or t (q + 2) 0 =
          rw (key32-bytes t p bytes, key32-bytes t q bytes) at lt in
        let p1 = get_or-IsByte t (p + 1) bytes in
        let p2 = get_or-IsByte t (p + 2) bytes in
        let q0 = get_or-IsByte t q bytes in
        let q1 = get_or-IsByte t (q + 1) bytes in
        let q2 = get_or-IsByte t (q + 2) bytes in
        elim (Bool-cases (get_or t p 0 == get_or t q 0)) [
          | inl e0 ↦
              let f0 : get_or t p 0 ≡ get_or t q 0 = ground arith in
              let hq1 : q < length t =
                grind (arith, get_or_past t q, get_or_past t (q + 1), get_or_past t (q + 2)) in
              UpTo-next p q hq1 f0 (elim (Bool-cases (get_or t (p + 1) 0 == get_or t (q + 1) 0)) [
                | inl e1 ↦
                    let f1 : get_or t (p + 1) 0 ≡ get_or t (q + 1) 0 = ground arith in
                    let hq2 : q + 1 < length t =
                      grind (arith, get_or_past t (q + 1), get_or_past t (q + 2)) in
                    let np : p + 1 + 1 ≡ p + 2 = omega arith in
                    let nq : q + 1 + 1 ≡ q + 2 = omega arith in
                    UpTo-next (p + 1) (q + 1) hq2 f1
                      (rw (np, nq) (UpTo-first (p + 2) (q + 2) (omega arith)))
                | inr e1 ↦ UpTo-first (p + 1) (q + 1) (ground arith)
              ])
          | inr e0 ↦ UpTo-first p q (ground arith)
        ]

    -- Between places with one key, the comparison that skips the key decides the order.
    agree :
        (a b : ℕ)
        → key32 t (length t) a ≡ key32 t (length t) b
        → a + key_bytes ≤ length t
        → b + key_bytes ≤ length t
        → slice t a (a + key_bytes) ≡ slice t b (b + key_bytes)
    agree a b e ha hb =
        let keys : get_or t a 0 * 65536 + get_or t (a + 1) 0 * 256 + get_or t (a + 2) 0
            ≡ get_or t b 0 * 65536 + get_or t (b + 1) 0 * 256 + get_or t (b + 2) 0 =
          rw (key32-bytes t a bytes, key32-bytes t b bytes) at e in
        let a0 = get_or-IsByte t a bytes in
        let a1 = get_or-IsByte t (a + 1) bytes in
        let a2 = get_or-IsByte t (a + 2) bytes in
        let b0 = get_or-IsByte t b bytes in
        let b1 = get_or-IsByte t (b + 1) bytes in
        let b2 = get_or-IsByte t (b + 2) bytes in
        let e0 : get_or t a 0 ≡ get_or t b 0 = omega arith in
        let e1 : get_or t (a + 1) 0 ≡ get_or t (b + 1) 0 = omega arith in
        let e2 : get_or t (a + 2) 0 ≡ get_or t (b + 2) 0 = omega arith in
        rw (first_three a ha, first_three b hb, e0, e1, e2) refl
      where
        first_three :
            (p : ℕ)
            → p + key_bytes ≤ length t
            → slice t p (p + key_bytes)
              ≡ get_or t p 0 ∷ get_or t (p + 1) 0 ∷ get_or t (p + 2) 0 ∷ []
        first_three p h =
            let three : p + key_bytes - p ≡ 3 = omega arith in
            let np : p + 1 + 1 ≡ p + 2 = omega arith in
            rw
              (
                three,
                drop_cons p t (omega arith),
                drop_cons (p + 1) t (omega arith),
                np,
                drop_cons (p + 2) t (omega arith),
              )
              refl

    same_key_less :
        (a b : ℕ)
        → a ≤ length t
        → b ≤ length t
        → key32 t (length t) a ≡ key32 t (length t) b
        → suffix_less_from t (length t) a b key_bytes ≡ lex_less (drop a t) (drop b t)
    same_key_less a b ha hb e = suffix_less_from-lex_less t a b key_bytes bytes ha hb (agree a b e)

    pub UpTo-less :
        (a b : ℕ)
        → a ≤ length t
        → b ≤ length t
        → key32 t (length t) a ≡ key32 t (length t) b
        → suffix_less_from t (length t) a b key_bytes ≡ true
        → UpTo a b
    UpTo-less a b ha hb e h =
        lex_less_asym (drop a t) (drop b t) (sym (same_key_less a b ha hb e) ∙ h)

    pub UpTo-not_less :
        (a b : ℕ)
        → a ≤ length t
        → b ≤ length t
        → key32 t (length t) a ≡ key32 t (length t) b
        → suffix_less_from t (length t) a b key_bytes ≡ false
        → UpTo b a
    UpTo-not_less a b ha hb e h = sym (same_key_less a b ha hb e) ∙ h
