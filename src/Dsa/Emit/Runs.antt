-- ===== src/Dsa/Emit/Runs.antt =====
-- The runs of a text and its tail in SuffixArray of internal/dsa/dsa.go: which places they name.
use derostorm.Base.{
  ℕ, zero, suc, ◌+◌, ◌-◌, ◌*◌, ◌/◌, ◌^◌, ◌≤◌, ◌≡◌, refl, sym, ap, ◌∙◌, arith, Bool, true, false,
  ◌&&◌, List, [], ltb, leb, ◌==◌, if◌then◌else◌, length, All, inl, inr, Bool-cases,
}
use mathlib.Core.Path.{subst}
use derostorm.Base.Bytes.{IsByte}
use derostorm.Dsa.Words.{block_size}
use derostorm.Dsa.Column.{Entry}
use derostorm.Dsa.Emit.{Lists, emit_one, emit_two}
use derostorm.Dsa.Emit.Constant.{constant_mask}
use derostorm.Dsa.Emit.Run.{block_ends, emit_many, emit_run}
use derostorm.Dsa.Emit.Blocks.{run_length, run_max, run_split, block_diff, emit_runs}
use derostorm.Dsa.Emit.Valid.{Holds}
use derostorm.Dsa.Emit.Loop.{
  Outcome, column_counts, column_counts_cons, column_counts_nil, cells, cells-mul,
}
use derostorm.Dsa.Emit.Start.{length-block_ends, emit_many_lem}
use derostorm.Dsa.Emit.Single.{emit_one_lem}
use derostorm.Dsa.Emit.Turn.{emit_two_lem}

-- A run has at least one block, at most 512, and none behind the last whole block.
pub run_length_lem :
    (t : List ℕ) (g left len : ℕ)
    → g + len ≤ length t / block_size
    → (len ≤ run_length t g left len)
      × (run_length t g left len ≤ len + left)
      × (g + run_length t g left len ≤ length t / block_size)
unfolding run_length
run_length_lem t g zero len h = (omega arith, omega arith, h)
run_length_lem t g (suc left) len h = elim (Bool-cases (ltb (g + len) (length t / block_size))) [
  | inl more ↦
      let (lo, hi, inside) = run_length_lem t g left (len + 1) (ground arith) in
      elim (Bool-cases
        (leb (block_diff t ((g + len - 1) * block_size) ((g + len) * block_size)) run_split)) [
          | inl near ↦ rw (more, near) (omega arith, omega arith, omega arith)
          | inr far ↦ rw (more, far) (omega arith, omega arith, h)
        ]
  | inr last ↦ rw last (omega arith, omega arith, h)
]

no_block :
    (base p : ℕ) → ◌≡◌ {A = ℕ} 0 (if leb base p && ltb p (base + 0 * block_size) then 1 else 0)
no_block base p = ground arith

one_more :
    (n base p : ℕ)
    → (if leb base p && leb p (base + 255) then 1 else 0)
        + (if leb (base + block_size) p && ltb p (base + block_size + n * block_size) then 1 else 0)
      ≡ (if leb base p && ltb p (base + suc n * block_size) then 1 else 0)
one_more n base p = ground arith

-- The columns of the blocks of a run are its places.
column_counts-run :
    (n base p : ℕ)
    → column_counts 255 (block_ends n base) p
      ≡ (if leb base p && ltb p (base + n * block_size) then 1 else 0)
unfolding block_ends
column_counts-run zero base p = column_counts_nil 255 p ∙ no_block base p
column_counts-run (suc n) base p =
    column_counts_cons 255 base p (block_ends n (base + block_size))
    ∙ ap (λ l. (if leb base p && leb p (base + 255) then 1 else 0) + l)
        (column_counts-run n (base + block_size) p)
    ∙ one_more n base p

next_below :
    (g n p : ℕ)
    → (if ltb p (g * block_size) then 1 else 0)
        + (if leb (g * block_size) p && ltb p (g * block_size + n * block_size) then 1 else 0)
      ≡ (if ltb p ((g + n) * block_size) then 1 else 0)
next_below g n p = ground arith

-- The ways of a round of the loop over the runs.
pub first_way :
    {A : Type 0} (a b : Bool) (x y z : A)
    → a ≡ true
    → b ≡ true
    → (if a then (if b then x else y) else z) ≡ x
first_way a b x y z ea eb = rw (ea, eb) refl

second_way :
    {A : Type 0} (a b : Bool) (x y z : A)
    → a ≡ true
    → b ≡ false
    → (if a then (if b then x else y) else z) ≡ y
second_way a b x y z ea eb = rw (ea, eb) refl

pub last_way :
    {A : Type 0} (a b : Bool) (x y z : A) → a ≡ false → (if a then (if b then x else y) else z) ≡ z
last_way a b x y z ea = rw ea refl

-- The third of three ways.
third :
    {A : Type 0} (a b : Bool) (x y z : A)
    → a ≡ false
    → b ≡ false
    → (if a then x else if b then y else z) ≡ z
third a b x y z ea eb = rw (ea, eb) refl

emit_run-emit_many :
    (t : List ℕ) (tmp : List Entry) (room first n : ℕ) (s : Lists)
    → emit_run t tmp room first (suc (suc (suc n))) s
      ≡ emit_many t tmp room (first * block_size) (suc (suc (suc n))) s
unfolding emit_run
emit_run-emit_many t tmp room first n s =
    third (suc (suc (suc n)) == 1) (suc (suc (suc n)) == 2) (emit_one t room (first * block_size) s)
      (emit_two t room (first * block_size) s)
      (emit_many t tmp room (first * block_size) (suc (suc (suc n))) s) (ground arith)
      (ground arith)

module _ (t : List ℕ) (bytes : All IsByte t) (small : length t ≤ 2 ^ 20) where
  pub Holds-same : (s : Lists) (c d : ℕ → ℕ) → ((p : ℕ) → c p ≡ d p) → Holds t s c → Holds t s d
  Holds-same s c d e (a, k) = (a, λ p. k p ∙ e p)

  -- What a run of n blocks ends with.
  abbrev pub Emitted : ℕ → ℕ → ℕ → Lists → (ℕ → ℕ) → Lists × Bool → Type 0
  Emitted n base room s c r =
      (r.1 ≡ true
        → Holds t r.0 (λ p. c p + (if leb base p && ltb p (base + n * block_size) then 1 else 0))
          × (length r.0.arena ≤ length s.arena + n * block_size)
          × (length r.0.descs ≤ length s.descs + n * block_size))
      × (length s.descs + n * block_size ≤ room → r.1 ≡ true)

  emitted :
      (constant : List ℕ) (tmp : List Entry) (n base room : ℕ) (s : Lists) (c : ℕ → ℕ)
      (r : Lists × Bool)
      → Outcome t bytes small (block_ends n base) constant tmp room base 255 s c r
      → Emitted n base room s c r
  emitted constant tmp n base room s c r (good, enough) =
      let len = length-block_ends n base in
      let sized = cells-mul (length (block_ends n base)) 255 in
      let area : cells (length (block_ends n base)) 255 ≡ n * block_size =
        sized ∙ ap (λ l. l * 256) len in
      (
        λ ok.
            let (h, a, d) = good ok in
            (
              Holds-same r.0 (λ p. c p + column_counts 255 (block_ends n base) p)
                  (λ p. c p + (if leb base p && ltb p (base + n * block_size) then 1 else 0))
                  (λ p. ap (λ l. c p + l) (column_counts-run n base p)) h,
              rw area at a,
              rw area at d,
            ),
        λ room'. enough (rw area room'),
      )

  emit_run_lem :
      (tmp : List Entry) (room first n : ℕ) (s : Lists) (c : ℕ → ℕ)
      → first * block_size + n * block_size ≤ length t
      → 1 ≤ n
      → n ≤ 512
      → n ≤ length tmp
      → length s.arena ≤ first * block_size
      → Holds t s c
      → Emitted n (first * block_size) room s c (emit_run t tmp room first n s)
  unfolding emit_run block_ends
  emit_run_lem tmp room first zero s c inside some few wide space holds = absurd (omega arith)
  emit_run_lem tmp room first (suc zero) s c inside some few wide space holds =
      emitted [] [] 1 (first * block_size) room s c (emit_one t room (first * block_size) s)
        (emit_one_lem t bytes small room (first * block_size) s c (omega arith) space holds)
  emit_run_lem tmp room first (suc (suc zero)) s c inside some few wide space holds =
      emitted [] [] 2 (first * block_size) room s c (emit_two t room (first * block_size) s)
        (emit_two_lem t bytes small room (first * block_size) s c (omega arith) space holds)
  emit_run_lem tmp room first (suc (suc (suc n))) s c inside some few wide space holds =
      let base = first * block_size in
      let m = suc (suc (suc n)) in
      subst (Emitted m base room s c) (sym (emit_run-emit_many t tmp room first n s)) (
        emitted (constant_mask t base m) tmp m base room s c (emit_many t tmp room base m s)
          (emit_many_lem t bytes small tmp room base (suc (suc n)) s c inside few wide space holds))

  -- The places below m.
  abbrev pub below : ℕ → ℕ → ℕ
  below m p = if ltb p m then 1 else 0

  -- What the loop over the runs ends with.
  abbrev pub AllRuns : ℕ → Lists × Bool → Type 0
  AllRuns room r =
      (r.1 ≡ true
        → Holds t r.0 (below (length t / block_size * block_size))
          × (length r.0.arena ≤ length t / block_size * block_size)
          × (length r.0.descs ≤ length t / block_size * block_size))
      × (length t / block_size * block_size ≤ room → r.1 ≡ true)

  -- All the runs from block g on.
  pub emit_runs_lem :
      (tmp : List Entry) (room rounds g : ℕ) (s : Lists)
      → length t / block_size ≤ g + rounds
      → g ≤ length t / block_size
      → 512 ≤ length tmp
      → length s.arena ≤ g * block_size
      → length s.descs ≤ g * block_size
      → Holds t s (below (g * block_size))
      → AllRuns room (emit_runs t tmp room rounds g s)
  unfolding emit_runs
  emit_runs_lem tmp room zero g s last inside wide arena descs holds =
      let e : g ≡ length t / block_size = omega arith in
      ((λ ok. (rw e at holds, rw e at arena, rw e at descs)), λ _. refl)
  emit_runs_lem tmp room (suc rounds) g s last inside wide arena descs holds =
      elim (Bool-cases (ltb g (length t / block_size))) [
        | inl more ↦
            let (lo, hi, fits) = run_length_lem t g (run_max - 1) 1 (ground arith) in
            let n = run_length t g (run_max - 1) 1 in
            let run = emit_run t tmp room g n s in
            let (good, enough) =
              emit_run_lem tmp room g n s (below (g * block_size)) (omega arith) lo (omega arith)
                (omega arith) arena holds in
            elim (Bool-cases run.1) [
              | inl ok ↦
                  let (h, a, d) = good ok in
                  let h' : Holds t run.0 (below ((g + n) * block_size)) =
                    Holds-same run.0
                      (λ p.
                        below (g * block_size) p
                        + (if leb (g * block_size) p && ltb p (g * block_size + n * block_size)
                            then 1
                            else 0))
                      (below ((g + n) * block_size)) (λ p. next_below g n p) h in
                  let rest =
                    emit_runs_lem tmp room rounds (g + n) run.0 (omega arith) fits wide
                      (omega arith) (omega arith) h' in
                  subst (AllRuns room)
                    (sym (
                      first_way (ltb g (length t / block_size)) run.1
                        (emit_runs t tmp room rounds (g + n) run.0) (run.0, false) (s, true) more
                        ok))
                    rest
              | inr refused ↦
                  subst (AllRuns room)
                    (sym (
                      second_way (ltb g (length t / block_size)) run.1
                        (emit_runs t tmp room rounds (g + n) run.0) (run.0, false) (s, true) more
                        refused))
                    (
                      (λ ok. cc),
                      λ room'. let accepted = enough (omega arith) in sym refused ∙ accepted,
                    )
            ]
        | inr end ↦
            let e : g ≡ length t / block_size = ground arith in
            let n = run_length t g (run_max - 1) 1 in
            let run = emit_run t tmp room g n s in
            subst (AllRuns room)
              (sym (
                last_way (ltb g (length t / block_size)) run.1
                  (emit_runs t tmp room rounds (g + n) run.0) (run.0, false) (s, true) end))
              ((λ ok. (rw e at holds, rw e at arena, rw e at descs)), λ _. refl)
      ]
