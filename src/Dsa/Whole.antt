-- ===== src/Dsa/Whole.antt =====
-- SuffixArray of internal/dsa/dsa.go from the text to the suffix array.
use derostorm.Base.{
  ℕ, ◌+◌, ◌-◌, ◌*◌, ◌/◌, ◌^◌, ◌≤◌, ◌<◌, ◌≡◌, refl, sym, ap, ◌∙◌, arith, Bool, true, false, ◌&&◌,
  ◌||◌, Option, none, some, replicate, List, [], ◌∷◌, ◌++◌, ltb, ltb→lt, ltb_false→le, leb, ◌==◌,
  if◌then◌else◌, length, length-append, take, All, Chain, count, inl, inr, Bool-cases,
}
use mathlib.Core.Path.{subst}
use derostorm.Base.Bytes.{IsByte}
use derostorm.Dsa.Words.{Desc, block_size, key32}
use derostorm.Dsa.Suffix.{UpTo}
use derostorm.Dsa.Column.{Entry}
use derostorm.Dsa.Emit.{Lists, single_loop}
use derostorm.Dsa.Emit.Blocks.{emit_tail}
use derostorm.Dsa.Emit.Valid.{Holds, Holds-arena}
use derostorm.Dsa.Emit.Emitted.{Slice-end}
use derostorm.Dsa.Emit.Loop.{column_counts, column_counts_cons, column_counts_nil}
use derostorm.Dsa.Emit.Single.{single_loop_lem}
use derostorm.Dsa.Emit.Runs.{Holds-same, below, emit_runs_lem, AllRuns}
use derostorm.Dsa.Sort.{Scratch, no_desc, scratch_for, emit_text, finish, finish_in, suffix_array}
use derostorm.Dsa.Finish.{finish_lem}

tail_places :
    (m rel p : ℕ)
    → (if ltb p m then 1 else 0) + ((if leb m p && leb p (m + rel) then 1 else 0) + 0)
      ≡ (if ltb p (m + rel + 1) then 1 else 0)
tail_places m rel p = ground arith

long_enough : (n m : ℕ) → (n == 0 || ltb m n) ≡ false → n ≤ m
long_enough n m h = ground arith

module _ (t : List ℕ) (bytes : All IsByte t) (small : length t ≤ 2 ^ 20) where
  -- The tail adds the places behind the last whole block.
  pub emit_tail_lem :
      (s : Lists)
      → Holds t s (below t bytes small (length t / block_size * block_size))
      → length s.arena ≤ length t / block_size * block_size
      → length s.descs ≤ length t / block_size * block_size
      → Holds t (emit_tail t s) (below t bytes small (length t))
        × (length (emit_tail t s).arena ≤ length t)
        × (length (emit_tail t s).descs ≤ length t)
  unfolding emit_tail
  emit_tail_lem s holds arena descs =
      let n = length t in
      let m = n / block_size * block_size in
      elim (Bool-cases (ltb m n)) [
        | inl more ↦
            let lt : m < n = ltb→lt m n more in
            let rel = n - 1 - m in
            let last : n - 1 ≡ m + rel = omega arith in
            let arena' = s.arena ++ m ∷ [] in
            let c = below t bytes small m in
            let holds' : Holds t (record { arena = arena'; descs = s.descs }) c =
              Holds-arena t s c (m ∷ []) holds in
            let (h, len) =
              single_loop_lem t bytes small arena' m (length s.arena) (Slice-end s.arena (m ∷ []))
                (omega arith) rel s.descs c (omega arith) (omega arith) holds' in
            let all : n ≡ m + rel + 1 = omega arith in
            let descs' = single_loop t m (length s.arena) rel (key32 t n (m + rel)) s.descs in
            let done : Holds t (record { arena = arena'; descs = descs' }) (below t bytes small n) =
              Holds-same t bytes small (record { arena = arena'; descs = descs' })
                (λ p. c p + column_counts rel (m ∷ []) p) (below t bytes small n)
                (λ p.
                  ap (λ l. c p + l)
                    (column_counts_cons rel m p []
                      ∙ ap (λ l. (if leb m p && leb p (m + rel) then 1 else 0) + l)
                          (column_counts_nil rel p))
                  ∙ tail_places m rel p
                  ∙ ap (λ l. if ltb p l then 1 else 0) (sym all))
                h in
            let result : Holds t (record { arena = arena'; descs = descs' }) (below t bytes small n)
                × (length arena' ≤ n)
                × (length descs' ≤ n) =
              (done, omega (arith, length-append s.arena (m ∷ [])), omega arith) in
            rw more (
              subst
                (λ q.
                  let l : List Desc = single_loop t m (length s.arena) rel (key32 t n q) s.descs in
                  Holds t (record { arena = arena'; descs = l }) (below t bytes small n)
                  × (length arena' ≤ n)
                  × (length l ≤ n))
                (sym last) result)
        | inr whole ↦
            let e : m ≡ n = omega (arith, ltb_false→le m n whole) in
            rw whole (
              subst
                (λ l.
                  Holds t s (below t bytes small l) × (length s.arena ≤ l) × (length s.descs ≤ l))
                e (holds, arena, descs))
      ]

  -- The first attempt, or the second.
  pub emitted_text :
      (tmp : List Entry) (spare : List Desc) (slack : List ℕ) (room : ℕ)
      → 512 ≤ length tmp
      → AllRuns t bytes small room (emit_text t tmp spare slack room)
  unfolding emit_text
  emitted_text tmp spare slack room wide =
      emit_runs_lem t bytes small tmp room (length t / block_size) 0
        (record { arena = []; descs = [] }) (omega arith) (omega arith) wide (omega arith)
        (omega arith) (tt, λ p. ground arith)

  -- For a text of bytes of at most 2^20 places, and s.order2 of at least 512 entries: with room for a
  -- descriptor at every place and 264 more, as on the second attempt, the emission of all runs does
  -- not decline; the arena and the descriptors of the runs and of the tail are then at most as many as
  -- the text has places.
  pub emit_text-full :
      (tmp : List Entry) (spare : List Desc) (slack : List ℕ)
      → 512 ≤ length tmp
      → ((emit_text t tmp spare slack (length t + block_size + 8)).1 ≡ true)
        × (length (emit_tail t (emit_text t tmp spare slack (length t + block_size + 8)).0).arena
            ≤ length t)
        × (length (emit_tail t (emit_text t tmp spare slack (length t + block_size + 8)).0).descs
            ≤ length t)
  emit_text-full tmp spare slack wide =
      let (good, enough) = emitted_text tmp spare slack (length t + block_size + 8) wide in
      let ok = enough (omega arith) in
      let (h, a, d) = good ok in
      let (_, arena, descs) =
        emit_tail_lem (emit_text t tmp spare slack (length t + block_size + 8)).0 h a d in
      (ok, arena, descs)

  -- The sorted permutation.
  Sorted : ℕ → List ℕ × Bool → Type 0
  Sorted p r =
      Chain (UpTo t) (take (length t) r.0)
      × (count p (take (length t) r.0) ≡ (if ltb p (length t) then 1 else 0))

  -- When nothing was out of range, what is returned is what the last part returns.
  finished_in :
      (tmp : List Entry) (slack sa : List ℕ) (s : Scratch) (room p : ℕ) (r : List ℕ)
      → 512 ≤ length tmp
      → length t ≤ length sa
      → (emit_text t tmp s.desc2 slack room).1 ≡ true
      → finish_in t tmp slack s (emit_text t tmp s.desc2 slack room).0 sa ≡ some (r, true)
      → Sorted p (r, true)
  unfolding finish_in
  finished_in tmp slack sa s room p r wide text ok done =
      let lists = (emit_text t tmp s.desc2 slack room).0 in
      let used = length (emit_tail t lists).descs in
      let (inside, e) =
        in_range (ltb s.dcap used) (ltb (length s.desc2) used) (finish t tmp s.desc2 slack lists sa)
          done in
      let (good, _) = emitted_text tmp s.desc2 slack room wide in
      let (h, a, d) = good ok in
      let ((valid, once), a', d') = emit_tail_lem lists h a d in
      subst (Sorted p) e (
        unfold Sorted in
        finish_lem t slack sa tmp s.desc2 lists p bytes text (omega arith)
          (ltb_false→le (length s.desc2) used inside) valid once (ap (λ q. q.1) e))
    where
      in_range :
          (a b : Bool) (x : List ℕ × Bool)
          → (if a || b then none else some x) ≡ some (r, true)
          → (b ≡ false) × (x ≡ (r, true))
      in_range true b x h = cc
      in_range false true x h = cc
      in_range false false x h = (refl, cc)

  -- For a text of bytes of at most 2^20 places, with s.order2 of at least 512 entries: when
  -- SuffixArray returns true, and does not panic, sa[:n] has every place of the text once and no
  -- other, in the order of the suffixes, whatever the scratch object held before and whether or not
  -- the first attempt ran out of room.
  pub suffix_array-Chain :
      (tmp : List Entry) (slack sa : List ℕ) (pooled : Option Scratch) (p : ℕ) (r : List ℕ)
      → 512 ≤ length tmp
      → suffix_array t tmp slack pooled sa ≡ some (r, true)
      → Chain (UpTo t) (take (length t) r)
        × (count p (take (length t) r) ≡ (if ltb p (length t) then 1 else 0))
  unfolding suffix_array Sorted
  suffix_array-Chain tmp slack sa pooled p r wide done =
      let n = length t in
      let full = n + block_size + 8 in
      let s = scratch_for t pooled in
      let grown = record s { dcap = full; desc2 = replicate full no_desc } in
      let first = emit_text t tmp s.desc2 slack s.dcap in
      let again = emit_text t tmp grown.desc2 slack full in
      by_way (n == 0 || ltb (length sa) n) first.1 (leb full s.dcap) again.1
        (finish_in t tmp slack s first.0 sa) (finish_in t tmp slack grown again.0 sa)
        (λ e. long_enough n (length sa) e)
        (λ text ok. finished_in tmp slack sa s s.dcap p r wide text ok)
        (λ text ok. finished_in tmp slack sa grown full p r wide text ok) done
    where
      by_way :
          (a b c d : Bool) (x y : Option (List ℕ × Bool))
          → (a ≡ false → length t ≤ length sa)
          → (length t ≤ length sa → b ≡ true → x ≡ some (r, true) → Sorted p (r, true))
          → (length t ≤ length sa → d ≡ true → y ≡ some (r, true) → Sorted p (r, true))
          → (if a
              then some (sa, false)
              else if b
              then x
              else if c
              then some (sa, false)
              else if d
              then y
              else some (sa, false))
            ≡ some (r, true)
          → Sorted p (r, true)
      by_way true b c d x y text fst snd h = cc
      by_way false true c d x y text fst snd h = fst (text refl) refl h
      by_way false false true d x y text fst snd h = cc
      by_way false false false true x y text fst snd h = snd (text refl) refl h
      by_way false false false false x y text fst snd h = cc
