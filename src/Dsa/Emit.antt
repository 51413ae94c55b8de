-- ===== src/Dsa/Emit.antt =====
-- emitRun of internal/dsa/dsa.go: the descriptors of one run of blocks. s.arena[:*arenaLen] and
-- s.desc[:*descLen] are lists that grow at their ends; `room` is descRoom.
pub mod Constant
pub mod Mask
pub mod Still
pub mod Run
pub mod Blocks
pub mod Valid
pub mod Grouped
pub mod Emitted
pub mod Slide
pub mod Next
pub mod Loop
pub mod First
pub mod Start
pub mod Single
pub mod Pair
pub mod Turn
pub mod Runs
use derostorm.Base.{
  ℕ, zero, suc, ◌+◌, ◌-◌, ◌*◌, ◌/◌, ◌%◌, ◌^◌, Bool, true, false, ◌&&◌, ◌||◌, not, List, [], ◌∷◌,
  ◌++◌, map, ltb, leb, ◌==◌, if◌then◌else◌, length, get_or, set, take, drop, replicate,
}
use derostorm.Dsa.Words.{Desc, block_size, make_desc, key32, slide_key, u64le}
use derostorm.Dsa.Compare.{suffix_less}
use derostorm.Dsa.Column.{Entry, no_entry, column_step}

pub record Lists : Type 0 where
  pub arena : List ℕ
  pub descs : List Desc

-- What changes from column to column for two blocks: keys and order, and the arena offset that
-- the next descriptors refer to, which is stale while `dirty`.
pub record Two : Type 0 where
  pub key0 : ℕ
  pub key1 : ℕ
  pub swapped : Bool
  pub dirty : Bool
  pub arena_off : ℕ
  pub lists : Lists

-- The arena gets the two bases in their order.
unfoldable pub two_flush : ℕ → ℕ → Two → Two
two_flush first second w =
    if w.dirty
    then record w {
      arena_off = length w.lists.arena;
      lists = record { arena = w.lists.arena ++ first ∷ second ∷ []; descs = w.lists.descs };
      dirty = false;
    }
    else w

-- One descriptor for both places, or one for each.
unfoldable pub two_descs : ℕ → ℕ → ℕ → ℕ → List Desc → List Desc
two_descs rel first_key second_key arena_off descs =
    if first_key == second_key
    then descs ++ make_desc first_key rel arena_off 2 ∷ []
    else descs
      ++ make_desc first_key rel arena_off 1 ∷ make_desc second_key rel (arena_off + 1) 1 ∷ []

-- A column: the flush and the descriptors.
unfoldable pub two_column : ℕ → ℕ → ℕ → Two → Two
unfolding two_flush two_descs
two_column b0 b1 rel w =
    let f = two_flush (if w.swapped then b1 else b0) (if w.swapped then b0 else b1) w in
    record f {
      lists = record {
        arena = f.lists.arena;
        descs =
            two_descs rel (if w.swapped then w.key1 else w.key0)
              (if w.swapped then w.key0 else w.key1) f.arena_off f.lists.descs;
      };
    }

module _ (t : List ℕ) where
  -- The descriptors of the places base + rel .. base, each a list of one place, from the last to the
  -- first; `key` is the key of base + rel, and slides.
  unfoldable pub single_loop : ℕ → ℕ → ℕ → ℕ → List Desc → List Desc
  single_loop base arena_off zero key descs = descs ++ make_desc key 0 arena_off 1 ∷ []
  single_loop base arena_off (suc rel) key descs =
      single_loop base arena_off rel (slide_key (get_or t (base + rel) 0) key)
        (descs ++ make_desc key (suc rel) arena_off 1 ∷ [])

  -- blocks == 1
  unfoldable pub emit_one : ℕ → ℕ → Lists → Lists × Bool
  unfolding single_loop
  emit_one room base s = if ltb room (length s.descs + block_size) then (s, false) else (
    record {
      arena = s.arena ++ base ∷ [];
      descs =
          single_loop base (length s.arena) 255 (key32 t (length t) (base + block_size - 1))
            s.descs;
    },
    true,
  )

  -- The step to the column in front.
  unfoldable pub two_next : ℕ → ℕ → ℕ → Two → Two
  two_next b0 b1 col w =
      let c0 = get_or t (b0 + col) 0 in
      let c1 = get_or t (b1 + col) 0 in
      let slid = record w { key0 = slide_key c0 w.key0; key1 = slide_key c1 w.key1 } in
      if c0 == c1 then slid else record slid {
        dirty = if w.swapped then not (ltb c1 c0) else ltb c1 c0;
        swapped = ltb c1 c0;
      }

  unfoldable pub two_loop : ℕ → ℕ → ℕ → Two → Two
  unfolding two_column two_next
  two_loop b0 b1 zero w = two_column b0 b1 0 w
  two_loop b0 b1 (suc rel) w =
      two_loop b0 b1 rel (two_next b0 b1 rel (two_column b0 b1 (suc rel) w))

  -- blocks == 2
  unfoldable pub emit_two : ℕ → ℕ → Lists → Lists × Bool
  unfolding two_loop
  emit_two room base s =
      if ltb room (length s.descs + 2 * block_size)
      then (s, false)
      else (let n = length t in
          let b0 = base in
          let b1 = base + block_size in
          (
            (two_loop b0 b1 255 (record {
              key0 = key32 t n (b0 + block_size - 1);
              key1 = key32 t n (b1 + block_size - 1);
              swapped = suffix_less t n (b1 + block_size - 1) (b0 + block_size - 1);
              dirty = true;
              arena_off = 0;
              lists = s;
            })).lists,
            true,
          ))
