-- ===== src/Dsa/Bounds.antt =====
-- SuffixArray of internal/dsa/dsa.go: which texts have room in s.desc and s.desc2, the tail included,
-- and which have not.
use derostorm.Base.{
  Chain, count, take, ℕ, zero, suc, ◌+◌, ◌-◌, ◌*◌, ◌/◌, ◌≤◌, ◌<◌, ◌≡◌, refl, sym, ap, ◌∙◌, arith,
  Bool, true, false, ◌&&◌, ◌||◌, Option, none, some, List, [], ◌∷◌, ◌++◌, ltb, ltb→lt, ltb_false→le,
  lt→ltb, leb, ◌==◌, if◌then◌else◌, length, length-append, get_or, inl, inr, Bool-cases, ◌^◌, ◌≢◌,
  ◌⊎◌, All, replicate, length-replicate,
}
use mathlib.Core.Path.{subst}
use derostorm.Dsa.Words.{Desc, block_size, make_desc, key32, slide_key}
use derostorm.Dsa.Column.{Entry}
use derostorm.Dsa.Emit.{Lists, single_loop, emit_one}
use derostorm.Dsa.Emit.Run.{emit_run}
use derostorm.Dsa.Emit.Blocks.{run_max, run_split, block_diff, run_length, emit_runs, emit_tail}
use derostorm.Dsa.Emit.Runs.{first_way, last_way}
use derostorm.Dsa.Sort.{Scratch, no_desc, scratch_for, emit_text, finish_in, suffix_array}
use derostorm.Dsa.Whole.{emit_tail_lem, emitted_text, suffix_array-Chain}
use derostorm.Dsa.Suffix.{UpTo}
use derostorm.Base.Bytes.{IsByte}

split_test : (g n d : ℕ) → (g < n → run_split < d) → (ltb g n && leb d run_split) ≡ false
split_test g n d far = ground arith

module _ (t : List ℕ) where
  length-single_loop :
      (base off rel key : ℕ) (descs : List Desc)
      → length (single_loop t base off rel key descs) ≡ length descs + (rel + 1)
  unfolding single_loop
  length-single_loop base off zero key descs = length-append descs (make_desc key 0 off 1 ∷ [])
  length-single_loop base off (suc rel) key descs = omega (
    arith,
    length-single_loop base off rel (slide_key (get_or t (base + rel) 0) key)
        (descs ++ make_desc key (suc rel) off 1 ∷ []),
    length-append descs (make_desc key (suc rel) off 1 ∷ []),
  )

  length-emit_tail :
      (s : Lists)
      → length s.descs ≡ length t / block_size * block_size
      → length (emit_tail t s).descs ≡ length t
  unfolding emit_tail
  length-emit_tail s e =
      let n = length t in
      let tail = n / block_size * block_size in
      ground
        (arith, length-single_loop tail (length s.arena) (n - 1 - tail) (key32 t n (n - 1)) s.descs)

  length-emit_one :
      (room base : ℕ) (s : Lists)
      → length s.descs + block_size ≤ room
      → ((emit_one t room base s).1 ≡ true)
        × (length (emit_one t room base s).0.descs ≡ length s.descs + block_size)
  unfolding emit_one
  length-emit_one room base s fits =
      let roomy : ltb room (length s.descs + block_size) ≡ false = ground arith in
      rw roomy (
        refl,
        length-single_loop base (length s.arena) 255 (key32 t (length t) (base + block_size - 1))
            s.descs,
      )

  emit_run-one :
      (tmp : List Entry) (room g : ℕ) (s : Lists)
      → emit_run t tmp room g 1 s ≡ emit_one t room (g * block_size) s
  unfolding emit_run
  emit_run-one tmp room g s = refl

  -- Blocks that differ in more than 160 places from their neighbours are runs of their own.
  module _
      (apart : (g : ℕ)
        → g + 1 < length t / block_size
        → run_split < block_diff t (g * block_size) ((g + 1) * block_size)) where
    run_length-apart : (g left : ℕ) → run_length t g left 1 ≡ 1
    unfolding run_length
    run_length-apart g zero = refl
    run_length-apart g (suc left) =
        let d = block_diff t (g * block_size) ((g + 1) * block_size) in
        let e : g + 1 - 1 ≡ g = omega arith in
        rw (e, split_test (g + 1) (length t / block_size) d (apart g)) refl

    emit_runs-apart :
        (tmp : List Entry) (room rounds g : ℕ) (s : Lists)
        → length t / block_size ≤ g + rounds
        → g ≤ length t / block_size
        → length t / block_size * block_size ≤ room
        → length s.descs ≡ g * block_size
        → ((emit_runs t tmp room rounds g s).1 ≡ true)
          × (length (emit_runs t tmp room rounds g s).0.descs ≡ length t / block_size * block_size)
    unfolding emit_runs
    emit_runs-apart tmp room zero g s last inside fits e = (refl, ground arith)
    emit_runs-apart tmp room (suc rounds) g s last inside fits e =
        let len = run_length t g (run_max - 1) 1 in
        let run = emit_run t tmp room g len s in
        let one = emit_one t room (g * block_size) s in
        let single : len ≡ 1 = run_length-apart g (run_max - 1) in
        let same : run ≡ one =
          ap (λ l. emit_run t tmp room g l s) single ∙ emit_run-one tmp room g s in
        let next = emit_runs t tmp room rounds (g + len) run.0 in
        elim (Bool-cases (ltb g (length t / block_size))) [
          | inl more ↦
              let before : g < length t / block_size = ltb→lt _ _ more in
              let (ok, grown) = length-emit_one room (g * block_size) s (omega arith) in
              let rest =
                emit_runs-apart tmp room rounds (g + 1) one.0 (omega arith) (omega arith) fits
                  (omega arith) in
              subst (λ r. (r.1 ≡ true) × (length r.0.descs ≡ length t / block_size * block_size))
                (sym (
                  first_way (ltb g (length t / block_size)) run.1 next (run.0, false) (s, true) more
                    (ap (λ q. q.1) same ∙ ok)
                  ∙ ap (λ l. emit_runs t tmp room rounds (g + l) run.0) single
                  ∙ ap (λ q. emit_runs t tmp room rounds (g + 1) q.0) same))
                rest
          | inr end ↦
              subst (λ r. (r.1 ≡ true) × (length r.0.descs ≡ length t / block_size * block_size))
                (sym (
                  last_way (ltb g (length t / block_size)) run.1 next (run.0, false) (s, true) end))
                (refl, omega (arith, ltb_false→le _ _ end))
        ]

  -- When sa is as long as the text at least, every two neighbouring blocks of the text differ in more
  -- than 160 places by the count of blockDiff, and the descriptor array that SuffixArray starts with
  -- has a place for every byte of the whole blocks but not for every byte of the text, then SuffixArray
  -- writes outside of that array, and so panics.
  pub suffix_array-none :
      (tmp : List Entry) (slack sa : List ℕ) (pooled : Option Scratch)
      → length t ≤ length sa
      → ((g : ℕ)
          → g + 1 < length t / block_size
          → run_split < block_diff t (g * block_size) ((g + 1) * block_size))
      → length t / block_size * block_size ≤ (scratch_for t pooled).dcap
      → (scratch_for t pooled).dcap < length t
      → suffix_array t tmp slack pooled sa ≡ none
  unfolding suffix_array emit_text finish_in
  suffix_array-none tmp slack sa pooled out apart whole short =
      let s = scratch_for t pooled in
      let (ok, e) =
        emit_runs-apart apart tmp s.dcap (length t / block_size) 0
          (record { arena = []; descs = [] }) (omega arith) (omega arith) whole refl in
      let used = length-emit_tail (emit_text t tmp s.desc2 slack s.dcap).0 e in
      let some_text : (length t == 0 || ltb (length sa) (length t)) ≡ false = ground arith in
      let over : ltb s.dcap (length t) ≡ true = lt→ltb s.dcap (length t) short in
      rw (some_text, ok, used, over) refl

module _ (t : List ℕ) where
  -- What a call of SuffixArray comes to: a panic, or an answer that declines, or the sorted
  -- permutation in sa[:n]. Where an index of s.desc or s.desc2 is out of range, the first scratch
  -- object is too small.
  abbrev pub Answer : List Entry → List ℕ → Option Scratch → ℕ → Option (List ℕ × Bool) → Type 0
  Answer tmp slack pooled p none =
      let s = scratch_for t pooled in
      ((emit_text t tmp s.desc2 slack s.dcap).1 ≡ true)
      × ((s.dcap < length t) ⊎ (length s.desc2 < length t))
  Answer tmp slack pooled p (some (r, false)) = Unit {0}
  Answer tmp slack pooled p (some (r, true)) =
      Chain (UpTo t) (take (length t) r)
      × (count p (take (length t) r) ≡ (if ltb p (length t) then 1 else 0))

module _ (t : List ℕ) (bytes : All IsByte t) (small : length t ≤ 2 ^ 20) where
  returned :
      (tmp : List Entry) (slack sa : List ℕ) (s : Scratch) (room : ℕ)
      → 512 ≤ length tmp
      → length t ≤ s.dcap
      → length t ≤ length s.desc2
      → (emit_text t tmp s.desc2 slack room).1 ≡ true
      → finish_in t tmp slack s (emit_text t tmp s.desc2 slack room).0 sa ≢ none
  unfolding finish_in
  returned tmp slack sa s room wide places sized ok =
      let lists = (emit_text t tmp s.desc2 slack room).0 in
      let used = length (emit_tail t lists).descs in
      let (good, _) = emitted_text t bytes small tmp s.desc2 slack room wide in
      let (h, a, d) = good ok in
      let (_, a', d') = emit_tail_lem t bytes small lists h a d in
      let bound : (ltb s.dcap used || ltb (length s.desc2) used) ≡ false = ground arith in
      rw bound (λ e. cc)

  -- No panic with a descriptor for every place, nor after a first attempt that ran out of room.
  suffix_array-returns :
      (tmp : List Entry) (slack sa : List ℕ) (pooled : Option Scratch)
      → 512 ≤ length tmp
      → (((length t ≤ (scratch_for t pooled).dcap)
            × (length t ≤ length (scratch_for t pooled).desc2))
          ⊎ ((emit_text t tmp (scratch_for t pooled).desc2 slack (scratch_for t pooled).dcap).1
              ≡ false))
      → suffix_array t tmp slack pooled sa ≢ none
  unfolding suffix_array
  suffix_array-returns tmp slack sa pooled wide start =
      let n = length t in
      let full = n + block_size + 8 in
      let s = scratch_for t pooled in
      let grown = record s { dcap = full; desc2 = replicate full no_desc } in
      let first = emit_text t tmp s.desc2 slack s.dcap in
      let again = emit_text t tmp grown.desc2 slack full in
      by_way (n == 0 || ltb (length sa) n) first.1 (leb full s.dcap) again.1
        (finish_in t tmp slack s first.0 sa) (finish_in t tmp slack grown again.0 sa)
        (λ ok. elim start [
          | inl (places, sized) ↦ returned tmp slack sa s s.dcap wide places sized ok
          | inr out ↦ cc
        ])
        (λ ok.
          returned tmp slack sa grown full wide (omega arith)
            (omega (arith, length-replicate full no_desc)) ok)
    where
      by_way :
          (a b c d : Bool) (x y : Option (List ℕ × Bool))
          → (b ≡ true → x ≢ none)
          → (d ≡ true → y ≢ none)
          → (if a
              then some (sa, false)
              else if b
              then x
              else if c
              then some (sa, false)
              else if d
              then y
              else some (sa, false))
            ≢ none
      by_way true b c d x y fst snd = λ h. cc
      by_way false true c d x y fst snd = fst refl
      by_way false false true d x y fst snd = λ h. cc
      by_way false false false true x y fst snd = snd refl
      by_way false false false false x y fst snd = λ h. cc

  -- For a text of bytes of at most 2^20 places, with s.order2 of at least 512 entries: SuffixArray
  -- leaves the bounds of s.desc or s.desc2, and so panics, or returns false, or returns true. When it
  -- returns true, sa[:n] has every place of the text once and no other, in the order of the suffixes,
  -- whatever the scratch object held before and whether or not the first attempt ran out of room. It
  -- leaves those bounds only when the first attempt found room for the runs and s.desc or s.desc2 has
  -- fewer places than the text then.
  pub suffix_array_lem :
      (tmp : List Entry) (slack sa : List ℕ) (pooled : Option Scratch) (p : ℕ)
      → 512 ≤ length tmp
      → Answer t tmp slack pooled p (suffix_array t tmp slack pooled sa)
  suffix_array_lem tmp slack sa pooled p wide = answer (suffix_array t tmp slack pooled sa) refl
    where
      s : Scratch
      s = scratch_for t pooled

      answer :
          (o : Option (List ℕ × Bool))
          → suffix_array t tmp slack pooled sa ≡ o
          → Answer t tmp slack pooled p o
      answer (some (r, false)) e = tt
      answer (some (r, true)) e = suffix_array-Chain t bytes small tmp slack sa pooled p r wide e
      answer none e = elim (Bool-cases (emit_text t tmp s.desc2 slack s.dcap).1) [
        | inr out ↦ absurd (suffix_array-returns tmp slack sa pooled wide (inr out) e)
        | inl ok ↦ elim (Bool-cases (ltb s.dcap (length t))) [
          | inl few ↦ (ok, inl (ltb→lt s.dcap (length t) few))
          | inr many ↦ elim (Bool-cases (ltb (length s.desc2) (length t))) [
            | inl few2 ↦ (ok, inr (ltb→lt (length s.desc2) (length t) few2))
            | inr many2 ↦ absurd (
                suffix_array-returns tmp slack sa pooled wide
                  (inl (
                    ltb_false→le s.dcap (length t) many,
                    ltb_false→le (length s.desc2) (length t) many2,
                  ))
                  e)
          ]
        ]
      ]
