-- ===== src/Gpu/Workers/Added.antt =====
-- The rounds of SetGPUs of cmd/derostorm/gpu_worker.go: which workers they add.
use derostorm.Base.{
  ℕ, ◌+◌, ◌≡◌, ◌⊎◌, refl, sym, ap, ◌∙◌, arith, Bool, true, false, ◌&&◌, not, Option, none, some,
  List, [], ◌∷◌, ◌++◌, ltb, leb, ◌==◌, if◌then◌else◌, length, inl, inr, Bool-cases,
}
use mathlib.Core.Path.{subst}
use derostorm.Base.Int.{ℤ, pos, negsuc}
use derostorm.Gpu.Workers.{
  max_gpus, Started, Gpus, want, find_worker, start_worker, start_round, start_wanted,
}

abbrev pub runs : Option ℕ → Bool
runs none = false
runs (some c) = true

-- The workers that are wanted, and the channels of the others.
abbrev pub wanted_workers : List ℤ → List (ℕ × ℕ) → List (ℕ × ℕ)
wanted_workers devices [] = []
wanted_workers devices (w ∷ ws) =
    if want devices w.0 then w ∷ wanted_workers devices ws else wanted_workers devices ws

abbrev pub unwanted_stops : List ℤ → List (ℕ × ℕ) → List ℕ
unwanted_stops devices [] = []
unwanted_stops devices (w ∷ ws) =
    if want devices w.0 then unwanted_stops devices ws else w.1 ∷ unwanted_stops devices ws

-- The devices that do not exist and do not run.
abbrev pub refusals : List ℤ → List (ℕ × ℕ) → List ℤ
refusals [] ws = []
refusals (negsuc d ∷ devices) ws = negsuc d ∷ refusals devices ws
refusals (pos d ∷ devices) ws =
    if leb max_gpus d && not (runs (find_worker ws d))
    then pos d ∷ refusals devices ws
    else refusals devices ws

-- How many of some workers are of device k.
abbrev pub times_started : ℕ → List Started → ℕ
times_started k [] = 0
times_started k (s ∷ new) = (if s.device == k then 1 else 0) + times_started k new

-- Their channels are new ones, in order.
abbrev pub Fresh : ℕ → List Started → Type 0
Fresh n [] = Unit {0}
Fresh n (s ∷ new) = (s.stop ≡ n) × Fresh (n + 1) new

-- The map with these workers.
abbrev pub with_started : List Started → List (ℕ × ℕ) → List (ℕ × ℕ)
with_started [] ws = ws
with_started (s ∷ new) ws = with_started new ((s.device, s.stop) ∷ ws)

-- 1 for a device that is wanted, exists and does not run.
abbrev pub missing : List ℤ → List (ℕ × ℕ) → ℕ → ℕ
missing devices ws k =
    if (want devices k && ltb k max_gpus) && not (runs (find_worker ws k)) then 1 else 0

append_one : {A : Type 0} (a : List A) (x : A) (b : List A) → (a ++ x ∷ []) ++ b ≡ a ++ x ∷ b
append_one [] x b = refl
append_one (y ∷ a) x b = ap (◌∷◌ y) (append_one a x b)

append_nil : {A : Type 0} (a : List A) → a ≡ a ++ []
append_nil [] = refl
append_nil (y ∷ a) = ap (◌∷◌ y) (append_nil a)

-- What the second loop does to everything but the map.
pub record Added (devices : List ℤ) (g g' : Gpus) (k : ℕ) (new : List Started) : Type 0 where
  pub started : g'.started ≡ g.started ++ new
  pub fresh : g'.fresh ≡ g.fresh + length new
  pub channels : Fresh g.fresh new
  pub workers : g'.workers ≡ with_started new g.workers
  pub closed : g'.closed ≡ g.closed
  pub refused : g'.refused ≡ g.refused ++ refusals devices g.workers
  pub once : times_started k new ≡ missing devices g.workers k

refusals-worker :
    (devices : List ℤ) (d stop : ℕ) (ws : List (ℕ × ℕ))
    → ltb d max_gpus ≡ true
    → refusals devices ((d, stop) ∷ ws) ≡ refusals devices ws
unfolding find_worker
refusals-worker [] d stop ws h = refl
refusals-worker (negsuc x ∷ devices) d stop ws h =
    ap (◌∷◌ (negsuc x)) (refusals-worker devices d stop ws h)
refusals-worker (pos x ∷ devices) d stop ws h = ground (arith, refusals-worker devices d stop ws h)

-- A device that runs is passed over.
Added-same :
    (d : ℕ) (devices : List ℤ) (g g' : Gpus) (k : ℕ)
    → runs (find_worker g.workers d) ≡ true
    → (new : List Started) × Added devices g g' k new
    → (new : List Started) × Added (pos d ∷ devices) g g' k new
unfolding want
Added-same d devices g g' k running (new, a) = (
  new,
  record {
    started = a.started;
    fresh = a.fresh;
    channels = a.channels;
    workers = a.workers;
    closed = a.closed;
    refused = a.refused ∙ ap (◌++◌ g.refused) (ground arith);
    once = a.once ∙ ground arith;
  },
)

-- A device that does not exist is refused.
Added-refused :
    (d : ℤ) (devices : List ℤ) (g g' : Gpus) (k : ℕ)
    → refusals (d ∷ devices) g.workers ≡ d ∷ refusals devices g.workers
    → (want (d ∷ []) k && ltb k max_gpus) ≡ false
    → (new : List Started) × Added devices (record g { refused = g.refused ++ d ∷ [] }) g' k new
    → (new : List Started) × Added (d ∷ devices) g g' k new
Added-refused d devices g g' k refusal out (new, a) = (
  new,
  record {
    started = a.started;
    fresh = a.fresh;
    channels = a.channels;
    workers = a.workers;
    closed = a.closed;
    refused =
        a.refused
        ∙ append_one g.refused d (refusals devices g.workers)
        ∙ ap (◌++◌ g.refused) (sym refusal);
    once = a.once ∙ still d out;
  },
)
  where
    still :
        (d : ℤ)
        → (want (d ∷ []) k && ltb k max_gpus) ≡ false
        → missing devices g.workers k ≡ missing (d ∷ devices) g.workers k
    still (pos d) out = unfold want in ground arith
    still (negsuc d) out = unfold want in refl

-- Any other gets a worker.
Added-started :
    (d : ℕ) (devices : List ℤ) (g g' : Gpus) (k : ℕ)
    → ltb d max_gpus ≡ true
    → runs (find_worker g.workers d) ≡ false
    → (new : List Started) × Added devices (start_worker d g) g' k new
    → (new : List Started) × Added (pos d ∷ devices) g g' k new
unfolding want start_worker find_worker
Added-started d devices g g' k inside idle (new, a) = (
  record { device = d; stop = g.fresh } ∷ new,
  record {
    started = a.started ∙ append_one g.started (record { device = d; stop = g.fresh }) new;
    fresh = a.fresh ∙ omega arith;
    channels = (refl, a.channels);
    workers = a.workers;
    closed = a.closed;
    refused =
        a.refused
        ∙ ap (◌++◌ g.refused) (
            refusals-worker devices d g.fresh g.workers inside
            ∙ passed (refusals devices g.workers));
    once = ap (λ n. (if d == k then 1 else 0) + n) a.once ∙ counted (Bool-cases (d == k));
  },
)
  where
    passed :
        (rest : List ℤ)
        → rest
          ≡ (if leb max_gpus d && not (runs (find_worker g.workers d)) then pos d ∷ rest else rest)
    passed rest = let low : leb max_gpus d ≡ false = ground arith in rw low refl

    counted :
        ((d == k) ≡ true) ⊎ ((d == k) ≡ false)
        → (if d == k then 1 else 0) + missing devices ((d, g.fresh) ∷ g.workers) k
          ≡ missing (pos d ∷ devices) g.workers k
    counted (inl same) =
        let e : d ≡ k = ground arith in
        let low : ltb k max_gpus ≡ true = rw e at inside in
        let none_yet : runs (find_worker g.workers k) ≡ false = rw e at idle in
        rw (same, low, none_yet) (ground arith)
    counted (inr other) = rw other (omega arith)

start_round-running :
    (d c : ℕ) (g : Gpus) → find_worker g.workers d ≡ some c → start_round (pos d) g ≡ g
unfolding start_round
start_round-running d c g e = rw (start_round, e) refl

start_round-past :
    (d : ℕ) (g : Gpus)
    → find_worker g.workers d ≡ none
    → leb max_gpus d ≡ true
    → start_round (pos d) g ≡ record g { refused = g.refused ++ pos d ∷ [] }
unfolding start_round
start_round-past d g e out = rw (start_round, e, out) refl

start_round-idle :
    (d : ℕ) (g : Gpus)
    → find_worker g.workers d ≡ none
    → leb max_gpus d ≡ false
    → start_round (pos d) g ≡ start_worker d g
unfolding start_round
start_round-idle d g e inside = rw (start_round, e, inside) refl

-- The rounds after the first, from h on.
abbrev AfterRound : ℕ → List ℤ → Gpus → ℕ → Gpus → Type 0
AfterRound d devices g k h =
    (new : List Started) × Added (pos d ∷ devices) g (start_wanted devices h) k new

start_round_lem :
    (d : ℕ) (devices : List ℤ) (g : Gpus) (k : ℕ) (r : Option ℕ)
    → find_worker g.workers d ≡ r
    → ((h : Gpus) → (new : List Started) × Added devices h (start_wanted devices h) k new)
    → AfterRound d devices g k (start_round (pos d) g)
start_round_lem d devices g k (some c) e rest =
    subst (AfterRound d devices g k) (sym (start_round-running d c g e))
      (Added-same d devices g _ k (ap runs e) (rest g))
start_round_lem d devices g k none e rest = elim (Bool-cases (leb max_gpus d)) [
  | inl out ↦ subst (AfterRound d devices g k) (sym (start_round-past d g e out)) (
      Added-refused (pos d) devices g _ k (rw (out, e) refl) (unfold want in ground arith)
        (rest (record g { refused = g.refused ++ pos d ∷ [] })))
  | inr inside ↦
      subst (AfterRound d devices g k) (sym (start_round-idle d g e inside))
        (Added-started d devices g _ k (ground arith) (ap runs e) (rest (start_worker d g)))
]

pub start_wanted_lem :
    (devices : List ℤ) (g : Gpus) (k : ℕ)
    → (new : List Started) × Added devices g (start_wanted devices g) k new
unfolding start_wanted
start_wanted_lem [] g k =
    unfold want in
    (
      [],
      record {
        started = append_nil g.started;
        fresh = omega arith;
        channels = tt;
        workers = refl;
        closed = refl;
        refused = append_nil g.refused;
        once = refl;
      },
    )
start_wanted_lem (negsuc d ∷ devices) g k =
    Added-refused (negsuc d) devices g _ k refl (unfold want in refl)
      (start_wanted_lem devices (start_round (negsuc d) g) k)
start_wanted_lem (pos d ∷ devices) g k =
    start_round_lem d devices g k (find_worker g.workers d) refl (λ h. start_wanted_lem devices h k)
