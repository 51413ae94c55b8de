-- ===== src/Gpu/Pipeline.antt =====
-- The batch pipeline of RunGPUMiner in cmd/derostorm/gpu_worker.go. The card is behind a library
-- that is loaded at run time (Submit, Collect and InFlight of cmd/derostorm/gpu_backend.go call
-- it), so it is the interface Card, with what gpu_backend.go documents of the three calls.
pub mod Order
use derostorm.Base.{
  ℕ, zero, suc, ◌+◌, ◌-◌, ◌*◌, ◌%◌, ◌^◌, ◌≤◌, ◌<◌, ◌≡◌, Bool, true, false, Option, none, some, List,
  [], ◌∷◌, ◌++◌, ltb, if◌then◌else◌, length,
}
use derostorm.Difficulty.{Target, meets}
use derostorm.Engine.Work.{with_nonce}

-- `queued` is the batches in flight by their first nonces, the oldest first.
pub record Card : Type 1 where
  pub State : Type 0
  pub queued : State → List ℕ
  pub submit : State → ℕ → Option State
  pub collect : State → Option (List ℕ × State)
  pub in_flight : State → ℕ
  pub submit_queues :
      (s : State) (start : ℕ) {t : State}
      → submit s start ≡ some t
      → queued t ≡ queued s ++ start ∷ []
  pub collect_oldest :
      (s : State) {hits : List ℕ} {t : State}
      → collect s ≡ some (hits, t)
      → (start : ℕ) × (queued s ≡ start ∷ queued t)
  pub in_flight_counts : (s : State) → in_flight s ≡ length (queued s)

abbrev pub pipeline_depth : ℕ
pipeline_depth = 2

module _ (c : Card) where
  -- What the worker keeps during one job. `sent` and `taken` are the first nonces of the batches
  -- that were submitted and collected for it.
  pub record Feed : Type 0 where
    pub card : c.State
    pub nonce : ℕ
    pub hashes : ℕ
    pub work : List ℕ
    pub shares : List (List ℕ × List ℕ)
    pub rejected : ℕ
    pub sent : List ℕ
    pub taken : ℕ

module _ (c : Card) (size batch : ℕ) (target : Target) (pow : List ℕ → List ℕ) where
  -- One hit: hashed again on the CPU, and submitted only if it meets the target there.
  unfoldable pub check_hit : Feed c → ℕ → Feed c
  check_hit f hit =
      let work = with_nonce size f.work hit in
      let powhash = pow work in
      if meets target powhash
      then record f { work = work; shares = f.shares ++ (work, powhash) ∷ [] }
      else record f { work = work; rejected = f.rejected + 1 }

  pub check_hits : Feed c → List ℕ → Feed c
  unfolding check_hit
  check_hits f [] = f
  check_hits f (hit ∷ hits) = check_hits (check_hit f hit) hits

  -- take: collect the oldest batch, count it and check its hits; false if the card failed.
  unfoldable pub take_batch : Feed c → Feed c × Bool
  unfolding check_hits
  take_batch f = elim (c.collect f.card) [
    | none ↦ (f, false)
    | some (hits, card) ↦ (
      check_hits
          (record f { card = card; hashes = (f.hashes + batch) % 2 ^ 64; taken = f.taken + 1 })
          hits,
      true,
    )
  ]

  -- for g.InFlight() < gpuPipelineDepth: submit; the Boolean is `failed`.
  pub fill : ℕ → Feed c → Feed c × Bool
  fill zero f = (f, false)
  fill (suc fuel) f = elim (ltb (c.in_flight f.card) pipeline_depth) [
    | false ↦ (f, false)
    | true ↦ elim (c.submit f.card f.nonce) [
      | none ↦ (f, true)
      | some card ↦ fill fuel (record f {
        card = card;
        nonce = (f.nonce + batch) % 2 ^ 32;
        sent = f.sent ++ f.nonce ∷ [];
      })
    ]
  ]

  -- One round of the mining loop: fill the queue, then take one batch; the Boolean is `failed`. A
  -- fill makes two submissions at most.
  unfoldable pub mining_round : Feed c → Feed c × Bool
  unfolding fill take_batch
  mining_round f =
      let (f', failed) = fill pipeline_depth f in
      if failed
      then (f', true)
      else (let (f'', fine) = take_batch f' in if fine then (f'', false) else (f'', true))

  -- The mining loop for as long as the job is current, which lets through `rounds` rounds.
  pub mining_rounds : ℕ → Feed c → Feed c × Bool
  unfolding mining_round
  mining_rounds zero f = (f, false)
  mining_rounds (suc rounds) f =
      let (f', failed) = mining_round f in
      elim failed [ true ↦ (f', true) | false ↦ mining_rounds rounds f' ]

  -- for !failed && g.InFlight() > 0 { if !take() { break } }
  pub drain : ℕ → Feed c → Feed c
  unfolding take_batch
  drain zero f = f
  drain (suc fuel) f = elim (ltb 0 (c.in_flight f.card)) [
    | false ↦ f
    | true ↦ (let (f', fine) = take_batch f in elim fine [ true ↦ drain fuel f' | false ↦ f' ])
  ]

  -- The drain after a failure, which throws away what it collects.
  pub quiet_drain : ℕ → Feed c → Feed c
  quiet_drain zero f = f
  quiet_drain (suc fuel) f = elim (ltb 0 (c.in_flight f.card)) [
    | false ↦ f
    | true ↦ elim (c.collect f.card) [
      | none ↦ f
      | some (hits, card) ↦ quiet_drain fuel (record f { card = card; taken = f.taken + 1 })
    ]
  ]

  -- One job on the card; the Boolean says whether the worker returns. A drain collects at most the
  -- batches that are in flight.
  unfoldable pub run_job : ℕ → Feed c → Feed c × Bool
  unfolding mining_rounds drain quiet_drain
  run_job rounds f =
      let (f', failed) = mining_rounds rounds f in
      if failed
      then (quiet_drain (c.in_flight f'.card) f', true)
      else (drain (c.in_flight f'.card) f', false)
