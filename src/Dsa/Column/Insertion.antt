-- ===== src/Dsa/Column/Insertion.antt =====
-- The insertion sort by the top byte.
use derostorm.Base.{
  ℕ, zero, suc, ◌+◌, ◌-◌, ◌≤◌, ◌<◌, ◌≡◌, ◌≢◌, refl, sym, ap, ◌∙◌, arith, true, false, List, [], ◌∷◌,
  ◌++◌, ltb, leb, ◌==◌, if◌then◌else◌, length, get_or, set, length-set, length-append, All,
  All-append, inl, inr, Bool-cases,
}
use derostorm.Base.Reverse.{get_or-set, get_or-ext, get_or-append}
use derostorm.Dsa.Buckets.Stable.{bucket-append, All-bucket, All-buckets}
use native.Mathlib.Nat.{add-zero, add-suc}
use mathlib.Core.List.{append_assoc, append-nil}
use derostorm.Dsa.Buckets.Counting.{length-buckets}
use derostorm.Dsa.Buckets.{bucket, buckets}
use derostorm.Dsa.Column.{Entry, no_entry, top_byte, shift_in, insertion_loop, insertion_sort}

length-shift_in : (e : Entry) (y : ℕ) (arr : List Entry) → length (shift_in e y arr) ≡ length arr
unfolding shift_in
length-shift_in e zero arr = length-set arr 0 e
length-shift_in e (suc y) arr =
    elim (Bool-cases (ltb (top_byte e) (top_byte (get_or arr y no_entry)))) [
      | inl less ↦
          rw (shift_in, less)
            (length-shift_in e y (set arr (suc y) (get_or arr y no_entry))
              ∙ length-set arr (suc y) (get_or arr y no_entry))
      | inr stop ↦ rw (shift_in, stop) (length-set arr (suc y) e)
    ]

-- With the entries from lo on above e's byte and the one in front of lo not, e goes to lo and those
-- up to y move up by one.
get-shift_in :
    (e : Entry) (y lo p : ℕ) (arr : List Entry)
    → lo ≤ y
    → y < length arr
    → ((j : ℕ) → lo ≤ j → j < y → top_byte e < top_byte (get_or arr j no_entry))
    → ((j : ℕ) → j + 1 ≡ lo → top_byte (get_or arr j no_entry) ≤ top_byte e)
    → get_or (shift_in e y arr) p no_entry ≡ (
        if ltb p lo
        then get_or arr p no_entry
        else if p == lo
        then e
        else if leb p y
        then get_or arr (p - 1) no_entry
        else get_or arr p no_entry)
unfolding shift_in
get-shift_in e zero lo p arr hl hy above below = ground (arith, get_or-set arr 0 p e no_entry)
get-shift_in e (suc y) lo p arr hl hy above below =
    elim (Bool-cases (ltb (top_byte e) (top_byte (get_or arr y no_entry)))) [
      | inl less ↦
          let x = get_or arr y no_entry in
          let strict : lo ≤ y = ground (arith, below y, less) in
          rw (shift_in, less)
            (get-shift_in e y lo p (set arr (suc y) x) strict
                (omega (arith, length-set arr (suc y) x))
                (λ j h1 h2. rw (get_or-set arr (suc y) j x no_entry hy) (ground (arith, above j)))
                (λ j h. rw (get_or-set arr (suc y) j x no_entry hy) (ground (arith, below j)))
              ∙ ground (
                arith,
                get_or-set arr (suc y) p x no_entry,
                get_or-set arr (suc y) (p - 1) x no_entry,
              ))
      | inr stop ↦
          let here : lo ≡ suc y = ground (arith, above y, stop) in
          rw (shift_in, stop) (ground (arith, get_or-set arr (suc y) p e no_entry, here))
    ]

-- The elements with the keys from v on, j keys.
abbrev upper : ℕ → ℕ → List Entry → List Entry
upper v zero xs = []
upper v (suc j) xs = upper v j xs ++ bucket top_byte (v + j) xs

buckets-split :
    (v j : ℕ) (xs : List Entry)
    → buckets top_byte (v + j) xs ≡ buckets top_byte v xs ++ upper v j xs
buckets-split v zero xs = rw (add-zero v, append-nil) refl
buckets-split v (suc j) xs = rw (add-suc v j, buckets-split v j xs, append_assoc) refl

-- One more element at the end touches its own bucket only.
bucket-last_other :
    (v : ℕ) (xs : List Entry) (e : Entry)
    → top_byte e ≢ v
    → bucket top_byte v (xs ++ e ∷ []) ≡ bucket top_byte v xs
bucket-last_other v xs e ne =
    let other : (top_byte e == v) ≡ false = ground (arith, ne) in
    bucket-append top_byte v xs (e ∷ []) ∙ rw (other, append-nil) refl

bucket-last :
    (xs : List Entry) (e : Entry)
    → bucket top_byte (top_byte e) (xs ++ e ∷ []) ≡ bucket top_byte (top_byte e) xs ++ e ∷ []
bucket-last xs e =
    let own : (top_byte e == top_byte e) ≡ true = ground arith in
    bucket-append top_byte (top_byte e) xs (e ∷ []) ∙ rw own refl

buckets-last_low :
    (m : ℕ) (xs : List Entry) (e : Entry)
    → m ≤ top_byte e
    → buckets top_byte m (xs ++ e ∷ []) ≡ buckets top_byte m xs
buckets-last_low zero xs e h = refl
buckets-last_low (suc m) xs e h =
    rw
      (
        buckets-last_low m xs e (omega arith),
        bucket-last_other m xs e (λ q. absurd (omega (arith, q, h))),
      )
      refl

upper-last :
    (v j : ℕ) (xs : List Entry) (e : Entry)
    → top_byte e < v
    → upper v j (xs ++ e ∷ []) ≡ upper v j xs
upper-last v zero xs e h = refl
upper-last v (suc j) xs e h =
    rw (upper-last v j xs e h, bucket-last_other (v + j) xs e (λ q. absurd (omega (arith, q, h))))
      refl

buckets-last :
    (j : ℕ) (xs : List Entry) (e : Entry)
    → buckets top_byte (suc (top_byte e) + j) (xs ++ e ∷ [])
      ≡ buckets top_byte (suc (top_byte e)) xs ++ e ∷ upper (suc (top_byte e)) j xs
buckets-last j xs e =
    let k = top_byte e in
    buckets-split (suc k) j (xs ++ e ∷ [])
    ∙ rw
        (
          buckets-last_low k xs e (omega arith),
          bucket-last xs e,
          upper-last (suc k) j xs e (omega arith),
          append_assoc,
          append_assoc,
          append_assoc,
        )
        refl

All-upper : (v j : ℕ) (xs : List Entry) → All (λ e. v ≤ top_byte e) (upper v j xs)
All-upper v zero xs = tt
All-upper v (suc j) xs =
    All-append _ (upper v j xs) (bucket top_byte (v + j) xs) (All-upper v j xs)
      (weaken (bucket top_byte (v + j) xs) (All-bucket top_byte (v + j) xs))
  where
    weaken : (ys : List Entry) → All (λ e. top_byte e ≡ v + j) ys → All (λ e. v ≤ top_byte e) ys
    weaken [] a = tt
    weaken (y ∷ ys) (hy, a) = (omega arith, weaken ys a)

get-All :
    (P : Entry → Type 0) (xs : List Entry) (i : ℕ)
    → All P xs
    → i < length xs
    → P (get_or xs i no_entry)
get-All P [] i a h = absurd (omega arith)
get-All P (x ∷ xs) zero (hx, a) h = hx
get-All P (x ∷ xs) (suc i) (hx, a) h = get-All P xs i a (omega arith)

get_or-cons :
    (x : Entry) (xs : List Entry) (i : ℕ)
    → get_or (x ∷ xs) i no_entry ≡ (if i == 0 then x else get_or xs (i - 1) no_entry)
get_or-cons x xs zero = refl
get_or-cons x xs (suc i) = ground arith

-- An entry is put between those with no greater byte and those with a greater one.
shift_in-append :
    (e z : Entry) (low high rest : List Entry)
    → All (λ x. top_byte x < suc (top_byte e)) low
    → All (λ x. suc (top_byte e) ≤ top_byte x) high
    → shift_in e (length low + length high) (low ++ (high ++ z ∷ rest)) ≡ low ++ e ∷ (high ++ rest)
shift_in-append e z low high rest al ah =
    let arr = low ++ (high ++ z ∷ rest) in
    let size : length arr ≡ length low + (length high + suc (length rest)) =
      omega (arith, length-append low (high ++ z ∷ rest), length-append high (z ∷ rest)) in
    get_or-ext _ _ no_entry
      (length-shift_in e (length low + length high) arr
        ∙ omega (arith, size, length-append low (e ∷ (high ++ rest)), length-append high rest))
      (λ p _.
        get-shift_in e (length low + length high) (length low) p arr (omega arith)
          (omega (arith, size))
          (λ j h1 h2. ground (
            arith,
            h1,
            h2,
            get_or-append low (high ++ z ∷ rest) j no_entry,
            get_or-append high (z ∷ rest) (j - length low) no_entry,
            get-All _ high (j - length low) ah,
          ))
          (λ j h.
            ground (arith, h, get_or-append low (high ++ z ∷ rest) j no_entry, get-All _ low j al))
        ∙ at_place p)
  where
    at_place :
        (p : ℕ)
        → (if ltb p (length low)
            then get_or (low ++ (high ++ z ∷ rest)) p no_entry
            else if p == length low
            then e
            else if leb p (length low + length high)
            then get_or (low ++ (high ++ z ∷ rest)) (p - 1) no_entry
            else get_or (low ++ (high ++ z ∷ rest)) p no_entry)
          ≡ get_or (low ++ e ∷ (high ++ rest)) p no_entry
    at_place p =
        let q : ℕ = p - length low - 1 in
        let before : p - 1 - length low ≡ q = omega arith in
        ground (
          arith,
          before,
          get_or-append low (e ∷ (high ++ rest)) p no_entry,
          get_or-cons e (high ++ rest) (p - length low),
          get_or-append high rest q no_entry,
          get_or-append low (high ++ z ∷ rest) p no_entry,
          get_or-append high (z ∷ rest) (p - length low) no_entry,
          get_or-append low (high ++ z ∷ rest) (p - 1) no_entry,
          get_or-append high (z ∷ rest) q no_entry,
          get_or-cons z rest (p - length low - length high),
        )

-- One round keeps the prefix in the order of the buckets.
shift_in-buckets :
    (done rest : List Entry) (e : Entry)
    → top_byte e < 256
    → All (λ x. top_byte x < 256) done
    → shift_in e (length done) (buckets top_byte 256 done ++ e ∷ rest)
      ≡ buckets top_byte 256 (done ++ e ∷ []) ++ rest
shift_in-buckets done rest e he a =
    let k = top_byte e in
    let j : ℕ = 255 - k in
    let low = buckets top_byte (suc k) done in
    let high = upper (suc k) j done in
    let all : suc k + j ≡ 256 = omega arith in
    let parts : buckets top_byte 256 done ≡ low ++ high =
      ap (λ m. buckets top_byte m done) (sym all) ∙ buckets-split (suc k) j done in
    let size : length done ≡ length low + length high =
      omega (arith, length-buckets top_byte 256 done a, ap length parts, length-append low high) in
    ap (λ n. shift_in e n (buckets top_byte 256 done ++ e ∷ rest)) size
    ∙ ap (λ s. shift_in e (length low + length high) (s ++ e ∷ rest)) parts
    ∙ ap (shift_in e (length low + length high)) (append_assoc low high (e ∷ rest))
    ∙ shift_in-append e e low high rest (All-buckets top_byte (suc k) done)
        (All-upper (suc k) j done)
    ∙ sym (append_assoc low (e ∷ high) rest)
    ∙ ap (λ s. s ++ rest) (sym (buckets-last j done e))
    ∙ ap (λ m. buckets top_byte m (done ++ e ∷ []) ++ rest) all

get_or-append_at : (xs ys : List Entry) (e : Entry) → get_or (xs ++ e ∷ ys) (length xs) no_entry ≡ e
get_or-append_at [] ys e = refl
get_or-append_at (x ∷ xs) ys e = get_or-append_at xs ys e

insertion_loop-buckets :
    (rest done : List Entry)
    → All (λ x. top_byte x < 256) done
    → All (λ x. top_byte x < 256) rest
    → insertion_loop (length rest) (length done) (buckets top_byte 256 done ++ rest)
      ≡ buckets top_byte 256 (done ++ rest)
unfolding insertion_loop
insertion_loop-buckets [] done ad ar = rw (append-nil, append-nil) refl
insertion_loop-buckets (e ∷ rest) done ad (he, ar) =
    let sorted = buckets top_byte 256 done in
    let len = length-buckets top_byte 256 done ad in
    let head : get_or (sorted ++ e ∷ rest) (length done) no_entry ≡ e =
      ap (λ n. get_or (sorted ++ e ∷ rest) n no_entry) (sym len) ∙ get_or-append_at sorted rest e in
    let longer : length done + 1 ≡ length (done ++ e ∷ []) =
      omega (arith, length-append done (e ∷ [])) in
    ap
      (λ x.
        insertion_loop (length rest) (length done + 1)
          (shift_in x (length done) (sorted ++ e ∷ rest)))
      head
    ∙ ap (insertion_loop (length rest) (length done + 1)) (shift_in-buckets done rest e he ad)
    ∙ ap (λ n. insertion_loop (length rest) n (buckets top_byte 256 (done ++ e ∷ []) ++ rest))
        longer
    ∙ insertion_loop-buckets rest (done ++ e ∷ []) (All-append _ done (e ∷ []) ad (he, tt)) ar
    ∙ ap (buckets top_byte 256) (append_assoc done (e ∷ []) rest)

buckets-nil : (m : ℕ) → buckets top_byte m [] ≡ []
buckets-nil zero = refl
buckets-nil (suc m) = rw (buckets-nil m) refl

upper-nil : (v j : ℕ) → upper v j [] ≡ []
upper-nil v zero = refl
upper-nil v (suc j) = rw (upper-nil v j) refl

buckets-one : (e : Entry) → top_byte e < 256 → buckets top_byte 256 (e ∷ []) ≡ e ∷ []
buckets-one e h =
    let j : ℕ = 255 - top_byte e in
    let all : suc (top_byte e) + j ≡ 256 = omega arith in
    ap (λ m. buckets top_byte m (e ∷ [])) (sym all)
    ∙ buckets-last j [] e
    ∙ ap (λ s. s ++ e ∷ upper (suc (top_byte e)) j []) (buckets-nil (suc (top_byte e)))
    ∙ ap (◌∷◌ e) (upper-nil (suc (top_byte e)) j)

pub insertion_sort-buckets :
    (es : List Entry) → All (λ x. top_byte x < 256) es → insertion_sort es ≡ buckets top_byte 256 es
unfolding insertion_sort
insertion_sort-buckets [] a = unfold insertion_loop in sym (buckets-nil 256)
insertion_sort-buckets (e ∷ es) (he, a) =
    let count : suc (length es) - 1 ≡ length es = omega arith in
    rw count (
      ap (λ s. insertion_loop (length es) 1 (s ++ es)) (sym (buckets-one e he))
      ∙ insertion_loop-buckets es (e ∷ []) (he, tt) a)
