-- ===== src/Engine/Work/Nonce.antt =====
-- The nonce spaces of the workers: which inputs can coincide.
use derostorm.Base.{
  ℕ, ◌+◌, ◌-◌, ◌/◌, ◌%◌, ◌^◌, ◌≤◌, ◌<◌, ◌≡◌, ap, ◌∙◌, arith, List, ◌++◌, ◌==◌, if◌then◌else◌,
  length, length-set, length-append, length-take, length-drop, get_or, set, take, drop,
}
use derostorm.Base.Reverse.{get_or-set}
use derostorm.Engine.Work.{copy_at, put_uint32, cpu_tag, gpu_tag, stamp, with_nonce}

pub length-put_uint32 : (dst : List ℕ) (at v : ℕ) → length (put_uint32 dst at v) ≡ length dst
unfolding put_uint32
length-put_uint32 dst at v =
    length-set _ (at + 3) _
    ∙ length-set _ (at + 2) _
    ∙ length-set _ (at + 1) _
    ∙ length-set dst at _

-- The four bytes of the nonce, and every other byte as it was.
pub get-put_uint32 :
    (dst : List ℕ) (at v j : ℕ)
    → at + 3 < length dst
    → get_or (put_uint32 dst at v) j 0 ≡ (
        if at + 3 == j
        then v % 256
        else if at + 2 == j
        then v / 2 ^ 8 % 256
        else if at + 1 == j
        then v / 2 ^ 16 % 256
        else if at == j
        then v / 2 ^ 24 % 256
        else get_or dst j 0)
unfolding put_uint32
get-put_uint32 dst at v j h =
    let a = set dst at (v / 2 ^ 24 % 256) in
    let b = set a (at + 1) (v / 2 ^ 16 % 256) in
    let c = set b (at + 2) (v / 2 ^ 8 % 256) in
    ground (
      arith,
      get_or-set dst at j (v / 2 ^ 24 % 256) 0,
      get_or-set a (at + 1) j (v / 2 ^ 16 % 256) 0,
      get_or-set b (at + 2) j (v / 2 ^ 8 % 256) 0,
      get_or-set c (at + 3) j (v % 256) 0,
      length-set dst at (v / 2 ^ 24 % 256),
      length-set a (at + 1) (v / 2 ^ 16 % 256),
      length-set b (at + 2) (v / 2 ^ 8 % 256),
    )

length-copy_at :
    (dst src : List ℕ) (at : ℕ)
    → at + length src ≤ length dst
    → length (copy_at dst at src) ≡ length dst
unfolding copy_at
length-copy_at dst src at h = omega (
  arith,
  length-append (take at dst) (take (length dst - at) src ++ drop (at + length src) dst),
  length-append (take (length dst - at) src) (drop (at + length src) dst),
  length-take at dst,
  length-take (length dst - at) src,
  length-drop (at + length src) dst,
)

-- A worker of the engine: a CPU thread on a slot, or a GPU device.
pub data Source : Type 0 where
  cpu : ℕ → Source
  gpu : ℕ → Source

abbrev pub tag_of : Source → ℕ
tag_of (cpu tid) = cpu_tag tid
tag_of (gpu device) = gpu_tag device

-- The tags are told apart for 240 CPU threads and 16 devices.
abbrev pub InTagRange : Source → Type 0
InTagRange (cpu tid) = tid < 240
InTagRange (gpu device) = device < 16

tag_of-injective : (s t : Source) → InTagRange s → InTagRange t → tag_of s ≡ tag_of t → s ≡ t
unfolding cpu_tag gpu_tag
tag_of-injective (cpu a) (cpu b) ha hb e = ap cpu (omega arith)
tag_of-injective (cpu a) (gpu b) ha hb e = absurd (omega arith)
tag_of-injective (gpu a) (cpu b) ha hb e = absurd (omega arith)
tag_of-injective (gpu a) (gpu b) ha hb e = ap gpu (omega arith)

module _ (size : ℕ) (big : 12 ≤ size) where
  length-stamp :
      (tag : ℕ) (random work : List ℕ)
      → length random ≡ 12
      → length work ≡ size
      → length (stamp size tag random work) ≡ size
  unfolding stamp
  length-stamp tag random work hr hw =
      length-set (copy_at work (size - 12) random) (size - 1) tag
      ∙ length-copy_at work random (size - 12) (omega arith)
      ∙ hw

  last-stamp :
      (tag : ℕ) (random work : List ℕ)
      → length random ≡ 12
      → length work ≡ size
      → get_or (stamp size tag random work) (size - 1) 0 ≡ tag
  unfolding stamp
  last-stamp tag random work hr hw = ground (
    arith,
    get_or-set (copy_at work (size - 12) random) (size - 1) (size - 1) tag 0,
    length-copy_at work random (size - 12),
  )

  -- Two stamped works with nonces in them are one input only if tag and nonce are the same.
  with_nonce-stamp :
      (tag tag' i j : ℕ) (random random' work work' : List ℕ)
      → length random ≡ 12
      → length random' ≡ 12
      → length work ≡ size
      → length work' ≡ size
      → with_nonce size (stamp size tag random work) i
        ≡ with_nonce size (stamp size tag' random' work') j
      → (tag ≡ tag') × (i % 2 ^ 32 ≡ j % 2 ^ 32)
  unfolding with_nonce
  with_nonce-stamp tag tag' i j random random' work work' hr hr' hw hw' e =
      let w = stamp size tag random work in
      let w' = stamp size tag' random' work' in
      let lw = length-stamp tag random work hr hw in
      let lw' = length-stamp tag' random' work' hr' hw' in
      let byte : (k : ℕ)
          → get_or (put_uint32 w (size - 5) i) k 0 ≡ get_or (put_uint32 w' (size - 5) j) k 0 =
        λ k. ap (λ l. get_or l k 0) e in
      (
        ground (
          arith,
          byte (size - 1),
          get-put_uint32 w (size - 5) i (size - 1),
          get-put_uint32 w' (size - 5) j (size - 1),
          last-stamp tag random work hr hw,
          last-stamp tag' random' work' hr' hw',
        ),
        omega (
          arith,
          at i j w w' lw lw' byte 0 (omega arith),
          at i j w w' lw lw' byte 1 (omega arith),
          at i j w w' lw lw' byte 2 (omega arith),
          at i j w w' lw lw' byte 3 (omega arith),
        ),
      )
    where
      digit : ℕ → ℕ → ℕ
      digit v k =
          if 3 == k
          then v % 256
          else if 2 == k
          then v / 2 ^ 8 % 256
          else if 1 == k
          then v / 2 ^ 16 % 256
          else v / 2 ^ 24 % 256

      at :
          (i j : ℕ) (w w' : List ℕ)
          → length w ≡ size
          → length w' ≡ size
          → ((k : ℕ)
              → get_or (put_uint32 w (size - 5) i) k 0 ≡ get_or (put_uint32 w' (size - 5) j) k 0)
          → (k : ℕ) → k < 4
          → digit i k ≡ digit j k
      at i j w w' lw lw' byte k h = ground (
        arith,
        byte (size - 5 + k),
        get-put_uint32 w (size - 5) i (size - 5 + k),
        get-put_uint32 w' (size - 5) j (size - 5 + k),
      )

  -- Two workers in the range of the tags never hash one input, whatever their jobs, random bytes
  -- and nonces; and one worker's inputs from two nonces differ, if the nonces differ as uint32.
  pub worker_inputs-distinct :
      (s t : Source) (i j : ℕ) (random random' work work' : List ℕ)
      → InTagRange s
      → InTagRange t
      → length random ≡ 12
      → length random' ≡ 12
      → length work ≡ size
      → length work' ≡ size
      → with_nonce size (stamp size (tag_of s) random work) i
        ≡ with_nonce size (stamp size (tag_of t) random' work') j
      → (s ≡ t) × (i % 2 ^ 32 ≡ j % 2 ^ 32)
  worker_inputs-distinct s t i j random random' work work' hs ht hr hr' hw hw' e =
      let (tags, nonces) =
        with_nonce-stamp (tag_of s) (tag_of t) i j random random' work work' hr hr' hw hw' e in
      (tag_of-injective s t hs ht tags, nonces)
