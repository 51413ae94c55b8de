-- ===== src/Gpu/Workers/Changed.antt =====
-- What SetGPUs of cmd/derostorm/gpu_worker.go has started and closed when it returns.
use derostorm.Base.{
  ℕ, ◌+◌, ◌≡◌, ◌⊎◌, refl, sym, ap, ◌∙◌, arith, false, ◌||◌, ◌&&◌, Option, none, some, List, [], ◌∷◌,
  ◌++◌, ltb, if◌then◌else◌, length, inl, inr, Bool-cases,
}
use derostorm.Base.Int.{ℤ, pos, negsuc}
use derostorm.Gpu.Workers.{
  max_gpus, Started, Gpus, want, find_worker, stop_unwanted, start_round, start_wanted, set_gpus,
}
use derostorm.Gpu.Workers.Added.{
  runs, wanted_workers, unwanted_stops, refusals, times_started, Fresh, with_started, missing,
  start_wanted_lem,
}

find_worker-stop_unwanted :
    (devices : List ℤ) (ws : List (ℕ × ℕ)) (d : ℕ)
    → find_worker (stop_unwanted devices ws).0 d
      ≡ (if want devices d then find_worker ws d else none)
unfolding find_worker stop_unwanted
find_worker-stop_unwanted devices [] d = ground arith
find_worker-stop_unwanted devices ((k, stop) ∷ ws) d =
    ground (arith, find_worker-stop_unwanted devices ws d)

stop_unwanted_lem :
    (devices : List ℤ) (ws : List (ℕ × ℕ))
    → stop_unwanted devices ws ≡ (wanted_workers devices ws, unwanted_stops devices ws)
unfolding stop_unwanted
stop_unwanted_lem devices [] = refl
stop_unwanted_lem devices ((k, stop) ∷ ws) = ground (arith, stop_unwanted_lem devices ws)

find_worker-start_round_kept :
    (d : ℤ) (g : Gpus) (k c : ℕ)
    → find_worker g.workers k ≡ some c
    → find_worker (start_round d g).workers k ≡ some c
unfolding start_round
find_worker-start_round_kept (negsuc d) g k c h = h
find_worker-start_round_kept (pos d) g k c h = ground arith

runs-start_round :
    (d : ℤ) (g : Gpus) (k : ℕ)
    → runs (find_worker (start_round d g).workers k)
      ≡ (runs (find_worker g.workers k) || (want (d ∷ []) k && ltb k max_gpus))
unfolding start_round want
runs-start_round (negsuc d) g k = ground arith
runs-start_round (pos d) g k = ground arith

find_worker-start_wanted_kept :
    (devices : List ℤ) (g : Gpus) (k c : ℕ)
    → find_worker g.workers k ≡ some c
    → find_worker (start_wanted devices g).workers k ≡ some c
unfolding start_wanted
find_worker-start_wanted_kept [] g k c h = h
find_worker-start_wanted_kept (d ∷ devices) g k c h =
    find_worker-start_wanted_kept devices (start_round d g) k c
      (find_worker-start_round_kept d g k c h)

runs-start_wanted :
    (devices : List ℤ) (g : Gpus) (k : ℕ)
    → runs (find_worker (start_wanted devices g).workers k)
      ≡ (runs (find_worker g.workers k) || (want devices k && ltb k max_gpus))
unfolding start_wanted
runs-start_wanted [] g k = unfold want in ground arith
runs-start_wanted (d ∷ devices) g k =
    runs-start_wanted devices (start_round d g) k ∙ rw (runs-start_round d g k) (want_step d)
  where
    want_step :
        (d : ℤ)
        → ((runs (find_worker g.workers k) || (want (d ∷ []) k && ltb k max_gpus))
            || (want devices k && ltb k max_gpus))
          ≡ (runs (find_worker g.workers k) || (want (d ∷ devices) k && ltb k max_gpus))
    want_step (pos x) = unfold want in ground arith
    want_step (negsuc x) = unfold want in ground arith

-- SetGPUs closes the stop channels of exactly the workers that are not wanted, and keeps the others
-- with their channels. It starts a worker, once, for exactly the wanted devices of the 16 that are
-- supported that did not run, each with a channel of its own that is new, and enters it in the map.
-- It refuses the other devices it was given that do not run, and counts the workers in the map. So a
-- device is in the map exactly when it is wanted and was there before or is one of the 16; and one
-- that is wanted and was there before has the channel that it had.
pub set_gpus_lem :
    (devices : List ℤ) (g : Gpus) (k : ℕ)
    → ((new : List Started) × ((set_gpus devices g).started ≡ g.started ++ new)
        × (times_started k new ≡ missing devices g.workers k)
        × Fresh g.fresh new
        × ((set_gpus devices g).fresh ≡ g.fresh + length new)
        × ((set_gpus devices g).workers ≡ with_started new (wanted_workers devices g.workers)))
      × ((set_gpus devices g).closed ≡ unwanted_stops devices g.workers ++ g.closed)
      × ((set_gpus devices g).refused
          ≡ g.refused ++ refusals devices (wanted_workers devices g.workers))
      × ((set_gpus devices g).ngpu ≡ length (set_gpus devices g).workers)
      × (runs (find_worker (set_gpus devices g).workers k)
          ≡ (want devices k && (runs (find_worker g.workers k) || ltb k max_gpus)))
      × (((want devices k && runs (find_worker g.workers k)) ≡ false)
          ⊎ (find_worker (set_gpus devices g).workers k ≡ find_worker g.workers k))
unfolding set_gpus
set_gpus_lem devices g k =
    let (kept, closed) = stop_unwanted devices g.workers in
    let g' : Gpus = record g { workers = kept; closed = closed ++ g.closed } in
    let found = find_worker-stop_unwanted devices g.workers k in
    let split = stop_unwanted_lem devices g.workers in
    let (new, a) = start_wanted_lem devices g' k in
    (
      (
        new,
        a.started,
        a.once ∙ same_missing kept found,
        a.channels,
        a.fresh,
        a.workers ∙ ap (λ r. with_started new r.0) split,
      ),
      a.closed ∙ ap (λ r. r.1 ++ g.closed) split,
      a.refused ∙ ap (λ r. g.refused ++ refusals devices r.0) split,
      refl,
      runs-start_wanted devices g' k ∙ rw found (ground arith),
      same_worker (find_worker g.workers k) refl,
    )
  where
    same_missing :
        (kept : List (ℕ × ℕ))
        → find_worker kept k ≡ (if want devices k then find_worker g.workers k else none)
        → missing devices kept k ≡ missing devices g.workers k
    same_missing kept found = rw found (ground arith)

    same_worker :
        (r : Option ℕ)
        → find_worker g.workers k ≡ r
        → ((want devices k && runs (find_worker g.workers k)) ≡ false)
          ⊎ (find_worker (set_gpus devices g).workers k ≡ find_worker g.workers k)
    same_worker none e = inl (rw e (ground arith))
    same_worker (some c) e = elim (Bool-cases (want devices k)) [
      | inr unwanted ↦ inl (rw unwanted refl)
      | inl wanted ↦ inr (
          unfold set_gpus in
          find_worker-start_wanted_kept devices _ k c
            (find_worker-stop_unwanted devices g.workers k ∙ rw wanted e)
          ∙ sym e)
    ]
