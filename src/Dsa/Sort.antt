-- ===== src/Dsa/Sort.antt =====
-- SuffixArray and getScratch of internal/dsa/dsa.go.
use derostorm.Base.{
  ℕ, ◌+◌, ◌/◌, Bool, false, ◌&&◌, ◌||◌, Option, none, some, List, [], ltb, leb, ◌==◌, if◌then◌else◌,
  length, take, replicate,
}
use derostorm.Dsa.Words.{Desc, block_size}
use derostorm.Dsa.Radix.{sort_desc}
use derostorm.Dsa.Column.{Entry}
use derostorm.Dsa.Emit.{Lists}
use derostorm.Dsa.Emit.Blocks.{emit_runs, emit_tail}
use derostorm.Dsa.Groups.{groups, write_groups}

-- What a scratch object has room for, cap and dcap, and what s.desc2 holds. The length of s.desc is
-- dcap.
pub record Scratch : Type 0 where
  pub cap : ℕ
  pub dcap : ℕ
  pub desc2 : List Desc

-- A descriptor of a new array.
abbrev pub no_desc : Desc
no_desc = record { key = 0; packed = 0 }

-- getScratch: a pooled object, grown where it falls short, or a new one.
unfoldable pub get_scratch : Option Scratch → ℕ → ℕ → Scratch
get_scratch none n want = record { cap = n; dcap = want; desc2 = replicate want no_desc }
get_scratch (some s) n want = record {
  cap = if ltb s.cap n then n else s.cap;
  dcap = if ltb s.dcap want then want else s.dcap;
  desc2 = if ltb s.dcap want then replicate want no_desc else s.desc2;
}

-- The scratch object that SuffixArray starts with.
abbrev pub scratch_for : List ℕ → Option Scratch → Scratch
scratch_for t pooled = get_scratch pooled (length t) (length t / 2 + block_size + 8)

module _ (t : List ℕ) (tmp : List Entry) (spare : List Desc) (slack : List ℕ) where
  -- The descriptors of all runs, with room for `room` of them.
  unfoldable pub emit_text : ℕ → Lists × Bool
  unfolding emit_runs
  emit_text room =
      emit_runs t tmp room (length t / block_size) 0 (record { arena = []; descs = [] })

  -- From the tail walk to the end.
  unfoldable pub finish : Lists → List ℕ → List ℕ × Bool
  unfolding emit_tail sort_desc groups write_groups
  finish s sa =
      let e = emit_tail t s in
      let w =
        write_groups t e.arena slack (groups (sort_desc e.descs (take (length e.descs) spare)))
          (sa, 0) in
      (w.0.0, w.1 && w.0.1 == length t)

-- From the tail walk to the end, with the checks of the bounds: the tail walk writes into s.desc,
-- which has s.dcap places, without a test of its own, and s.desc2 is cut to the same length. `none`
-- is the panic of an index that is out of range.
unfoldable pub finish_in :
    List ℕ → List Entry → List ℕ → Scratch → Lists → List ℕ → Option (List ℕ × Bool)
unfolding emit_tail finish
finish_in t tmp slack s lists sa =
    let used = length (emit_tail t lists).descs in
    if ltb s.dcap used || ltb (length s.desc2) used
    then none
    else some (finish t tmp s.desc2 slack lists sa)

-- SuffixArray. After a first attempt without room there is one more, with room for a descriptor
-- at every place; a second failure declines.
unfoldable pub suffix_array :
    List ℕ → List Entry → List ℕ → Option Scratch → List ℕ → Option (List ℕ × Bool)
unfolding emit_text get_scratch finish_in
suffix_array t tmp slack pooled sa =
    let n = length t in
    let full = n + block_size + 8 in
    let s = scratch_for t pooled in
    let grown = record s { dcap = full; desc2 = replicate full no_desc } in
    let first = emit_text t tmp s.desc2 slack s.dcap in
    let again = emit_text t tmp grown.desc2 slack grown.dcap in
    if n == 0 || ltb (length sa) n
    then some (sa, false)
    else if first.1
    then finish_in t tmp slack s first.0 sa
    else if leb full s.dcap
    then some (sa, false)
    else if again.1
    then finish_in t tmp slack grown again.0 sa
    else some (sa, false)
