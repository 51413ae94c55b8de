-- ===== src/Engine/GetWork.antt =====
-- RunGetWork of cmd/derostorm/engine.go: the connection to the node, its jobs, and what the console
-- is told. What the network and Stop do is a list of events; `post` is kept as the list of what was
-- offered to the console, which may drop it; an int64 is kept as its 64 bits.
pub mod Shown
pub mod Accepted
use derostorm.Base.{
  ℕ, zero, suc, ◌+◌, ◌*◌, ◌%◌, ◌^◌, ◌≤◌, ◌<◌, ◌≡◌, ◌≢◌, ◌⊎◌, refl, arith, Bool, true, false, not,
  Option, none, some, List, [], ◌∷◌, ◌++◌, ltb, ◌==◌, if◌then◌else◌, length, inl, inr, Bool-cases,
}

pub data MinerState : Type 0 where
  connecting : MinerState
  mining : MinerState
  reconnecting : MinerState
  stopping : MinerState

-- rpc.GetBlockTemplate_Result, as far as the miner reads it.
pub record Job : Type 0 where
  pub blob : List ℕ
  pub difficulty : List ℕ
  pub height : ℕ
  pub mini_blocks : ℕ
  pub blocks : ℕ
  pub rejected : ℕ
  pub last_error : List ℕ

-- What is posted to the console.
pub data Post : Type 0 where
  dialing : Post
  retrying : Post
  connected : Post
  lost : Post
  node_error : List ℕ → Post
  new_height : ℕ → Post
  accepted : ℕ → Post
  block_found : ℕ → Post
  share_rejected : ℕ → Post

-- Where the goroutine stands: before a dial, in the read loop, or returned.
pub data Phase : Type 0 where
  at_dial : Phase
  reading : Phase
  returned : Phase

pub record Session : Type 0 where
  pub phase : Phase
  pub first : Bool
  pub quit : Bool
  pub state : MinerState
  pub conn : Option ℕ
  pub connected_ns : ℕ
  pub job : Job
  pub job_counter : ℕ
  pub last_job_ns : ℕ
  pub block_event_ns : ℕ
  pub posts : List Post

-- What happens next: Stop, the outcome of a dial (the connection, the time), and the outcome of a
-- read (the result, the time).
pub data Happening : Type 0 where
  stop : Happening
  dial_failed : Happening
  dialed : ℕ → ℕ → Happening
  read_failed : Happening
  received : Job → ℕ → Happening

abbrev pub post_if : Bool → Post → List Post → List Post
post_if b p posts = if b then posts ++ p ∷ [] else posts

-- The head of the outer loop, up to the dial.
unfoldable pub begin_dial : Session → Session
begin_dial s =
    if s.quit
    then record s { phase = returned }
    else if s.first
    then record s {
      phase = at_dial;
      state = connecting;
      first = false;
      posts = s.posts ++ dialing ∷ [];
    }
    else record s { phase = at_dial; state = reconnecting }

-- A failed dial waits ten seconds or for Stop.
unfoldable pub on_dial_failed : Session → Session
unfolding begin_dial
on_dial_failed s = begin_dial (record s { posts = s.posts ++ retrying ∷ [] })

unfoldable pub on_dialed : ℕ → ℕ → Session → Session
on_dialed conn now s = record s {
  phase = reading;
  conn = some conn;
  connected_ns = now;
  posts = s.posts ++ connected ∷ [];
}

unfoldable pub on_read_failed : Session → Session
unfolding begin_dial
on_read_failed s =
    if s.quit
    then record s { phase = returned }
    else begin_dial (record s { state = reconnecting; posts = s.posts ++ lost ∷ [] })

unfoldable pub on_received : Job → ℕ → Session → Session
on_received result now s =
    let posts1 =
      post_if (not (length result.last_error == 0)) (node_error result.last_error) s.posts in
    let posts2 = post_if (not (result.height == s.job.height)) (new_height result.height) posts1 in
    let posts3 =
      post_if (ltb s.job.mini_blocks result.mini_blocks) (accepted result.mini_blocks) posts2 in
    let posts4 = post_if (ltb s.job.blocks result.blocks) (block_found result.blocks) posts3 in
    let posts5 =
      post_if (ltb s.job.rejected result.rejected) (share_rejected result.rejected) posts4 in
    record s {
      job = result;
      job_counter = (s.job_counter + 1) % 2 ^ 64;
      last_job_ns = now;
      state = mining;
      block_event_ns = if ltb s.job.blocks result.blocks then now else s.block_event_ns;
      posts = posts5;
    }

-- One happening; one that cannot occur in the phase changes nothing.
unfoldable pub step : Happening → Session → Session
unfolding on_dial_failed on_dialed on_read_failed on_received
step stop s = record s { quit = true }
step dial_failed s = elim s.phase [ at_dial ↦ on_dial_failed s | reading ↦ s | returned ↦ s ]
step (dialed conn now) s = elim s.phase [
  | at_dial ↦ on_dialed conn now s
  | reading ↦ s
  | returned ↦ s
]
step read_failed s = elim s.phase [ at_dial ↦ s | reading ↦ on_read_failed s | returned ↦ s ]
step (received result now) s = elim s.phase [
  | at_dial ↦ s
  | reading ↦ on_received result now s
  | returned ↦ s
]

pub run : List Happening → Session → Session
unfolding step
run [] s = s
run (h ∷ hs) s = run hs (step h s)
