-- ===== src/Engine/Mine.antt =====
-- The mining loops of RunMiner in cmd/derostorm/engine.go, and submit. The proof-of-work functions
-- are astrobwt's, outside the sources: a function from a work to its hash is a parameter. The test
-- of a loop (the job is still the current one, and nobody stopped the worker) is the environment's:
-- a loop is run for as many rounds as it lets through.
pub mod Pairing
pub mod Share
pub mod Valid
use derostorm.Base.{
  ℕ, zero, suc, ◌+◌, ◌-◌, ◌*◌, ◌/◌, ◌%◌, ◌^◌, ◌≤◌, ◌<◌, Bool, true, false, Option, none, some, List,
  [], ◌∷◌, ◌++◌, ltb, leb, ◌==◌, if◌then◌else◌, length, get_or,
}
use mathlib.Core.List.{reverse}
use derostorm.Base.Bytes.{from_be}
use derostorm.Difficulty.{Target, meets, one_lsh_256}
use derostorm.Engine.Work.{with_nonce}

-- What a worker changes while it mines: its nonce counter (uint32), its hash counter (uint64), its
-- buffer, and the shares that it handed to submit.
pub record Miner : Type 0 where
  pub i : ℕ
  pub hashes : ℕ
  pub work : List ℕ
  pub shares : List (List ℕ × List ℕ)

abbrev pub next_nonce : ℕ → ℕ
next_nonce i = (i + 1) % 2 ^ 32

-- if target.Meets(&powhash) { e.submit(myjob, work, &powhash) }
unfoldable pub offer : Target → List ℕ → List ℕ → List (List ℕ × List ℕ) → List (List ℕ × List ℕ)
offer target work powhash shares =
    if meets target powhash then shares ++ (work, powhash) ∷ [] else shares

module _ (size : ℕ) (target : Target) where
  -- One round of the loop over single nonces; it is the same before and after the hard fork, with
  -- another `pow`.
  unfoldable pub single_round : (List ℕ → List ℕ) → Miner → Miner
  single_round pow m =
      let i = next_nonce m.i in
      let work = with_nonce size m.work i in
      let powhash = pow work in
      record {
        i = i;
        hashes = (m.hashes + 1) % 2 ^ 64;
        work = work;
        shares = offer target work powhash m.shares;
      }

  pub single_rounds : (List ℕ → List ℕ) → ℕ → Miner → Miner
  unfolding single_round
  single_rounds pow zero m = m
  single_rounds pow (suc k) m = single_rounds pow k (single_round pow m)

  -- One round of the paired loop. The second buffer is the other component of the state.
  unfoldable pub paired_round :
      (List ℕ → List ℕ → List ℕ × List ℕ) → Miner × List ℕ → Miner × List ℕ
  paired_round pow_pair (m, work_b) =
      let i = next_nonce m.i in
      let work = with_nonce size m.work i in
      let i' = next_nonce i in
      let work_b' = with_nonce size work_b i' in
      let (hash_a, hash_b) = pow_pair work work_b' in
      (
        record {
          i = i';
          hashes = (m.hashes + 2) % 2 ^ 64;
          work = work;
          shares = offer target work_b' hash_b (offer target work hash_a m.shares);
        },
        work_b',
      )

  pub paired_rounds : (List ℕ → List ℕ → List ℕ × List ℕ) → ℕ → Miner × List ℕ → Miner × List ℕ
  unfolding paired_round
  paired_rounds pow_pair zero s = s
  paired_rounds pow_pair (suc k) s = paired_rounds pow_pair k (paired_round pow_pair s)

  -- copy(workB[:], work[:]), then the paired loop.
  unfoldable pub mine_paired : (List ℕ → List ℕ → List ℕ × List ℕ) → ℕ → Miner → Miner × List ℕ
  unfolding paired_rounds
  mine_paired pow_pair k m = paired_rounds pow_pair k (m, m.work)

  -- The loop of one job: by the height, the hash from before the hard fork, and by `paired`, two
  -- nonces at a time or one.
  unfoldable pub mine_job :
      (List ℕ → List ℕ)
      → (List ℕ → List ℕ)
      → (List ℕ → List ℕ → List ℕ × List ℕ)
      → ℕ
      → Bool
      → ℕ
      → ℕ
      → Miner
      → Miner
  unfolding single_rounds mine_paired
  mine_job pow_fast pow pow_pair fork_height paired height k m =
      if ltb height fork_height
      then single_rounds pow_fast k m
      else if paired
      then (mine_paired pow_pair k m).0
      else single_rounds pow k m

-- shareDifficulty: floor(2^256 / h), at most 2^64 - 1. The bytes are copied from the end.
abbrev pub big_endian : List ℕ → List ℕ
big_endian h = reverse h

unfoldable pub share_difficulty : List ℕ → ℕ
share_difficulty h =
    let v = from_be (big_endian h) in
    if v == 0 then 0 else (let d = one_lsh_256 / v in if ltb d (2 ^ 64) then d else 2 ^ 64 - 1)

-- What submit changes. `conn` says whether there is a connection; a share that is sent is the hex
-- text of the work, which is kept as the work itself.
pub record Reporting : Type 0 where
  pub submitted : ℕ
  pub best_share : ℕ
  pub last_share_ns : ℕ
  pub conn : Bool
  pub sent : List (List ℕ)

unfoldable pub submit : ℕ → List ℕ → List ℕ → Reporting → Reporting
submit now work powhash e =
    let d = share_difficulty powhash in
    let counted = record e {
      submitted = (e.submitted + 1) % 2 ^ 64;
      last_share_ns = now;
      best_share = if ltb e.best_share d then d else e.best_share;
    } in
    if counted.conn then record counted { sent = counted.sent ++ work ∷ [] } else counted
