-- ===== src/Gpu/Workers.antt =====
-- SetGPUs of cmd/derostorm/gpu_worker.go. The map from devices to stop channels is an association
-- list; a range over it only removes entries, so that its order makes no difference.
pub mod Added
pub mod Changed
use derostorm.Base.{
  ℕ, ◌+◌, ◌≡◌, ◌⊎◌, refl, sym, ◌∙◌, arith, Bool, true, false, ◌||◌, ◌&&◌, Option, none, some, List,
  [], ◌∷◌, ◌++◌, ltb, leb, ◌==◌, if◌then◌else◌, length, inl, inr, Bool-cases,
}
use derostorm.Base.Int.{ℤ, pos, negsuc}

abbrev pub max_gpus : ℕ
max_gpus = 16

pub record Started : Type 0 where
  pub device : ℕ
  pub stop : ℕ

pub record Gpus : Type 0 where
  pub workers : List (ℕ × ℕ)
  pub ngpu : ℕ
  pub fresh : ℕ
  pub closed : List ℕ
  pub started : List Started
  pub refused : List ℤ

-- want[d]
pub want : List ℤ → ℕ → Bool
want [] d = false
want (pos x ∷ devices) d = x == d || want devices d
want (negsuc x ∷ devices) d = want devices d

-- e.gpuWorkers[d]
pub find_worker : List (ℕ × ℕ) → ℕ → Option ℕ
find_worker [] d = none
find_worker ((k, stop) ∷ ws) d = if k == d then some stop else find_worker ws d

-- The first loop: close and delete the workers that are not wanted.
pub stop_unwanted : List ℤ → List (ℕ × ℕ) → List (ℕ × ℕ) × List ℕ
unfolding want
stop_unwanted devices [] = ([], [])
stop_unwanted devices ((k, stop) ∷ ws) =
    let (kept, closed) = stop_unwanted devices ws in
    if want devices k then ((k, stop) ∷ kept, closed) else (kept, stop ∷ closed)

unfoldable pub start_worker : ℕ → Gpus → Gpus
start_worker d g = record g {
  workers = (d, g.fresh) ∷ g.workers;
  fresh = g.fresh + 1;
  started = g.started ++ record { device = d; stop = g.fresh } ∷ [];
}

-- One round of the second loop.
unfoldable pub start_round : ℤ → Gpus → Gpus
unfolding find_worker start_worker
start_round (negsuc d) g = record g { refused = g.refused ++ negsuc d ∷ [] }
start_round (pos d) g = elim (find_worker g.workers d) [
  | some stop ↦ g
  | none ↦
      if leb max_gpus d then record g { refused = g.refused ++ pos d ∷ [] } else start_worker d g
]

pub start_wanted : List ℤ → Gpus → Gpus
unfolding start_round
start_wanted [] g = g
start_wanted (d ∷ devices) g = start_wanted devices (start_round d g)

unfoldable pub set_gpus : List ℤ → Gpus → Gpus
unfolding stop_unwanted start_wanted
set_gpus devices g =
    let (kept, closed) = stop_unwanted devices g.workers in
    let g' = start_wanted devices (record g { workers = kept; closed = closed ++ g.closed }) in
    record g' { ngpu = length g'.workers }
