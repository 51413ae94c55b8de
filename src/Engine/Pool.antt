-- ===== src/Engine/Pool.antt =====
-- The pool of CPU workers: SetThreads of cmd/derostorm/engine.go. A stop channel is a number, and
-- `closed` lists the channels that were closed, the last one first.
use derostorm.Base.{
  ℕ, zero, suc, ◌+◌, ◌-◌, ◌≤◌, ◌<◌, ◌≡◌, refl, sym, ap, ◌∙◌, arith, true, false, Option, none, some,
  List, [], ◌∷◌, ◌++◌, ltb, ltb→lt, ltb_false→le, if◌then◌else◌, length, get_or, take, drop,
  length-append, length-take, take_all, drop_all, take-take, drop-take_last, inl, inr, Bool-cases,
}
use mathlib.Core.List.{append_assoc, append-nil}
use native.Mathlib.Nat.{add-zero}
use derostorm.Base.Int.{ℤ, pos, negsuc}

abbrev pub max_threads : ℕ
max_threads = 256

-- `go e.RunMiner(slot, stop)`
pub record Worker : Type 0 where
  pub slot : ℕ
  pub stop : ℕ

pub record Pool : Type 0 where
  pub workers : List ℕ
  pub nthread : ℕ
  pub fresh : ℕ
  pub closed : List ℕ
  pub started : List Worker

pub data ThreadsError : Type 0 where
  out_of_range : ThreadsError

-- One round of the first loop: make a channel, append it, start the worker on the new slot.
unfoldable pub grow_round : Pool → Pool
grow_round p = record p {
  workers = p.workers ++ p.fresh ∷ [];
  fresh = p.fresh + 1;
  started = p.started ++ record { slot = length p.workers; stop = p.fresh } ∷ [];
}

-- One round of the second loop: close the last channel and drop it.
unfoldable pub shrink_round : Pool → Pool
shrink_round p =
    let last = length p.workers - 1 in
    record p { closed = get_or p.workers last 0 ∷ p.closed; workers = take last p.workers }

-- for len(e.workers) < n
pub grow : ℕ → ℕ → Pool → Pool
unfolding grow_round
grow zero n p = p
grow (suc fuel) n p = elim (ltb (length p.workers) n) [
  | true ↦ grow fuel n (grow_round p)
  | false ↦ p
]

-- for len(e.workers) > n
pub shrink : ℕ → ℕ → Pool → Pool
unfolding shrink_round
shrink zero n p = p
shrink (suc fuel) n p = elim (ltb n (length p.workers)) [
  | true ↦ shrink fuel n (shrink_round p)
  | false ↦ p
]

-- SetThreads. The fuel of each loop is the number of rounds that it can make at most.
unfoldable pub set_threads : ℤ → Pool → Pool × Option ThreadsError
unfolding grow shrink
set_threads (negsuc n) p = (p, some out_of_range)
set_threads (pos n) p =
    if ltb max_threads n
    then (p, some out_of_range)
    else (let grown = grow n n p in
        let shrunk = shrink (length grown.workers) n grown in (record shrunk { nthread = n }, none))

-- The channels that are made from `fresh` on.
abbrev pub channels : ℕ → ℕ → List ℕ
channels zero fresh = []
channels (suc k) fresh = fresh ∷ channels k (fresh + 1)

-- The workers that are started for them, from a slot on.
abbrev pub workers_from : ℕ → ℕ → ℕ → List Worker
workers_from zero slot fresh = []
workers_from (suc k) slot fresh =
    record { slot = slot; stop = fresh } ∷ workers_from k (slot + 1) (fresh + 1)

length-channels : (k fresh : ℕ) → length (channels k fresh) ≡ k
length-channels zero fresh = refl
length-channels (suc k) fresh = ap suc (length-channels k (fresh + 1))

abbrev pub grown_by : ℕ → Pool → Pool
grown_by k p = record p {
  workers = p.workers ++ channels k p.fresh;
  fresh = p.fresh + k;
  started = p.started ++ workers_from k (length p.workers) p.fresh;
}

grown_by_none : (n : ℕ) (p : Pool) → n ≤ length p.workers → p ≡ grown_by (n - length p.workers) p
grown_by_none n p h =
    let none_left : n - length p.workers ≡ 0 = omega arith in
    rw (none_left, append-nil, append-nil, add-zero)

-- A round in front of k more is k + 1 rounds.
grown_by_round :
    (n : ℕ) (p : Pool) (k : ℕ)
    → n - length p.workers ≡ suc k
    → grown_by k (grow_round p) ≡ grown_by (n - length p.workers) p
unfolding grow_round
grown_by_round n p k e =
    rw (e, append_assoc, append_assoc, length-append p.workers (p.fresh ∷ []), suc_swap)
  where
    suc_swap : p.fresh + 1 + k ≡ p.fresh + suc k
    suc_swap = omega arith

-- Growing to n starts a worker on each free slot below n, and changes no slot in use.
grow-grown_by :
    (fuel n : ℕ) (p : Pool)
    → n ≤ fuel + length p.workers
    → grow fuel n p ≡ grown_by (n - length p.workers) p
unfolding grow
grow-grown_by zero n p h = grown_by_none n p (omega arith)
grow-grown_by (suc fuel) n p h = elim (Bool-cases (ltb (length p.workers) n)) [
  | inr full ↦ rw (full, grow) (grown_by_none n p (ground arith))
  | inl room ↦
      rw (room, grow)
        (grow-grown_by fuel n (grow_round p) (ground (arith, longer))
          ∙ grown_by_round n p (n - length (grow_round p).workers) (ground (arith, longer)))
]
  where
    longer : length (grow_round p).workers ≡ length p.workers + 1
    longer = unfold grow_round in length-append p.workers (p.fresh ∷ [])

abbrev pub shrunk_to : ℕ → Pool → Pool
shrunk_to n p = record p { workers = take n p.workers; closed = drop n p.workers ++ p.closed }

shrunk_to_all : (n : ℕ) (p : Pool) → length p.workers ≤ n → p ≡ shrunk_to n p
shrunk_to_all n p h = rw (take_all n p.workers h, drop_all n p.workers h)

shrunk_to_round :
    (n : ℕ) (p : Pool) → n < length p.workers → shrunk_to n (shrink_round p) ≡ shrunk_to n p
unfolding shrink_round
shrunk_to_round n p h =
    let m = length p.workers - 1 in
    rw (
      take-take n m p.workers (omega arith),
      drop-take_last n m p.workers p.closed 0 (omega arith) (omega arith),
    )

-- Shrinking to n closes the channels of the slots from n on, and changes no slot below.
shrink-shrunk_to :
    (fuel n : ℕ) (p : Pool)
    → length p.workers ≤ fuel + n
    → n ≤ length p.workers
    → shrink fuel n p ≡ shrunk_to n p
unfolding shrink
shrink-shrunk_to zero n p h le = shrunk_to_all n p (omega arith)
shrink-shrunk_to (suc fuel) n p h le = elim (Bool-cases (ltb n (length p.workers))) [
  | inr done ↦ rw (done, shrink) (shrunk_to_all n p (ground arith))
  | inl over ↦
      rw (over, shrink)
        (shrink-shrunk_to fuel n (shrink_round p) (ground (arith, shorter))
            (ground (arith, shorter))
          ∙ shrunk_to_round n p (ground arith))
]
  where
    shorter : length (shrink_round p).workers ≡ length p.workers - 1
    shorter = unfold shrink_round in omega (arith, length-take (length p.workers - 1) p.workers)

resized :
    (n : ℕ) (p : Pool)
    → n ≤ max_threads
    → set_threads (pos n) p
      ≡ (record (shrunk_to n (grown_by (n - length p.workers) p)) { nthread = n }, none)
unfolding set_threads
resized n p h =
    let accepted : ltb max_threads n ≡ false = ground arith in
    let k = n - length p.workers in
    rw (
      accepted,
      grow-grown_by n n p (omega arith),
      shrink-shrunk_to (length (p.workers ++ channels k p.fresh)) n (grown_by k p) (omega arith)
          (omega (arith, length-append p.workers (channels k p.fresh), length-channels k p.fresh)),
    )

-- No new channel is closed again.
closed_old_only :
    (n : ℕ) (p : Pool)
    → drop n (p.workers ++ channels (n - length p.workers) p.fresh) ≡ drop n p.workers
closed_old_only n p = elim (Bool-cases (ltb (length p.workers) n)) [
  | inl more ↦
      drop_all n _ (
        omega (
          arith,
          length-append p.workers (channels (n - length p.workers) p.fresh),
          length-channels (n - length p.workers) p.fresh,
          ltb→lt (length p.workers) n more,
        ))
      ∙ sym (drop_all n p.workers (omega (arith, ltb→lt (length p.workers) n more)))
  | inr enough ↦
      let none_new : n - length p.workers ≡ 0 =
        omega (arith, ltb_false→le (length p.workers) n enough) in
      rw (none_new, append-nil)
]

-- For a count n from 0 to 256, SetThreads succeeds and ends with n workers: those on the slots
-- below n stay as they were, with their channels open; every free slot below n gets a new worker
-- that is started with that slot's number; every slot from n on has its channel closed; and the
-- thread count that is reported is n.
pub set_threads_lem :
    (p : Pool) (n : ℕ)
    → n ≤ max_threads
    → let k = n - length p.workers in
      let after = (set_threads (pos n) p).0 in
      ((set_threads (pos n) p).1 ≡ none)
      × (after.workers ≡ take n (p.workers ++ channels k p.fresh))
      × (length after.workers ≡ n)
      × (after.started ≡ p.started ++ workers_from k (length p.workers) p.fresh)
      × (after.closed ≡ drop n p.workers ++ p.closed)
      × (after.nthread ≡ n)
set_threads_lem p n h =
    let k = n - length p.workers in
    let e = resized n p h in
    let e0 = ap (λ (r : Pool × Option ThreadsError). r.0) e in
    (
      ap (λ (r : Pool × Option ThreadsError). r.1) e,
      ap (λ (q : Pool). q.workers) e0,
      ap (λ (q : Pool). length q.workers) e0
          ∙ omega (
            arith,
            length-take n (p.workers ++ channels k p.fresh),
            length-append p.workers (channels k p.fresh),
            length-channels k p.fresh,
          ),
      ap (λ (q : Pool). q.started) e0,
      ap (λ (q : Pool). q.closed) e0 ∙ ap (λ l. l ++ p.closed) (closed_old_only n p),
      ap (λ (q : Pool). q.nthread) e0,
    )
