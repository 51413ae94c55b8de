-- ===== src/Dsa/Emit/Run.antt =====
-- emitRun of internal/dsa/dsa.go for three and more blocks. order[:blocks] and keys[:blocks] are one
-- list of pairs (block base, key); the keys are stale while `uniform`, and one key stands for all.
use derostorm.Base.{
  ℕ, zero, suc, ◌+◌, ◌-◌, ◌*◌, Bool, true, false, List, [], ◌∷◌, ◌++◌, map, ltb, ◌==◌,
  if◌then◌else◌, length, get_or, set,
}
use derostorm.Dsa.Words.{Desc, block_size, make_desc, key32, slide_key}
use derostorm.Dsa.Compare.{suffix_less}
use derostorm.Dsa.Column.{Entry, no_entry, column_step}
use derostorm.Dsa.Emit.{Lists, emit_one, emit_two}
use derostorm.Dsa.Emit.Constant.{constant_mask}

-- order[i] = base + i*blockSize + 255, for `left` blocks.
unfoldable pub block_ends : ℕ → ℕ → List ℕ
block_ends zero p = []
block_ends (suc left) p = p ∷ block_ends left (p + block_size)

-- The inner loop over j: v moves in front of the places with larger suffixes.
unfoldable pub place_end : List ℕ → ℕ → ℕ → List ℕ → List ℕ
place_end t v zero order = set order 0 v
place_end t v (suc j) order =
    let rest = place_end t v j (set order (suc j) (get_or order j 0)) in
    if suffix_less t (length t) v (get_or order j 0) then rest else set order (suc j) v

-- The outer loop over i.
unfoldable pub sort_ends : List ℕ → ℕ → ℕ → List ℕ → List ℕ
unfolding place_end
sort_ends t zero i order = order
sort_ends t (suc left) i order = sort_ends t left (i + 1) (place_end t (get_or order i 0) i order)

-- The bases of the blocks in the order of their last places.
unfoldable pub first_order : List ℕ → ℕ → ℕ → List ℕ
unfolding block_ends sort_ends
first_order t base blocks =
    map (λ p. p - 255) (sort_ends t (blocks - 1) 1 (block_ends blocks (base + 255)))

-- keys[i] != k0 for some i
unfoldable pub all_same : ℕ → List Entry → Bool
all_same k [] = true
all_same k (e ∷ es) = let rest = all_same k es in if e.1 == k then rest else false

-- keys[0]
unfoldable pub first_key : List Entry → ℕ
first_key es = (get_or es 0 no_entry).1

-- The state between columns.
pub record Columns : Type 0 where
  pub entries : List Entry
  pub k0 : ℕ
  pub uniform : Bool
  pub dirty : Bool
  pub arena_off : ℕ
  pub lists : Lists

-- The loop over i and j: a descriptor for every group of equal keys. m entries from i on have the
-- key k, so that j is i + m.
unfoldable pub group_loop : ℕ → ℕ → ℕ → ℕ → ℕ → List Entry → List Desc
group_loop rel arena_off i k m [] = make_desc k rel (arena_off + i) m ∷ []
group_loop rel arena_off i k m (e ∷ es) =
    let same = e.1 == k in
    let rest =
      group_loop rel arena_off (if same then i else i + m) e.1 (if same then m + 1 else 1) es in
    if same then rest else make_desc k rel (arena_off + i) m ∷ rest

unfoldable pub group_descs : ℕ → ℕ → List Entry → List Desc
unfolding group_loop
group_descs rel arena_off [] = []
group_descs rel arena_off (e ∷ es) = group_loop rel arena_off 0 e.1 1 es

-- if dirty: the order goes to the arena.
unfoldable pub flush : Columns → Columns
flush w =
    if w.dirty
    then record w {
      arena_off = length w.lists.arena;
      lists = record { arena = w.lists.arena ++ map (λ e. e.0) w.entries; descs = w.lists.descs };
      dirty = false;
    }
    else w

unfoldable pub add_descs : List Desc → Columns → Columns
add_descs new w = record w {
  lists = record { arena = w.lists.arena; descs = w.lists.descs ++ new };
}

-- The descriptors of a column, and whether one key is left.
unfoldable pub column_descs : ℕ → Columns → Columns
unfolding add_descs group_descs first_key
column_descs rel f =
    let groups = group_descs rel f.arena_off f.entries in
    let split = add_descs groups f in
    if f.uniform
    then add_descs (make_desc f.k0 rel f.arena_off (length f.entries) ∷ []) f
    else if length groups == 1
    then record split { k0 = first_key f.entries; uniform = true }
    else split

-- A column: the flush and the descriptors.
unfoldable pub emit_column : ℕ → Columns → Columns
unfolding flush column_descs
emit_column rel w = column_descs rel (flush w)

-- keys[x] = k0
unfoldable pub spread : Columns → List Entry
spread w = if w.uniform then map (λ (e : Entry). (e.0, w.k0)) w.entries else w.entries

-- The step to the column in front. `tmp` is s.order2 with its keys.
unfoldable pub next_column : List ℕ → List ℕ → List Entry → ℕ → ℕ → Columns → Columns
unfolding spread
next_column t constant tmp base col w =
    let hi = get_or t (base + col) 0 in
    if get_or constant col 0 == 0
    then record w {
      uniform = false;
      entries =
          column_step
            (map (λ (e : Entry). (e.0, slide_key (get_or t (e.0 + col) 0) e.1)) (spread w)) tmp;
      dirty = true;
    }
    else if w.uniform
    then record w { k0 = slide_key hi w.k0 }
    else record w { entries = map (λ (e : Entry). (e.0, slide_key hi e.1)) w.entries }

-- The loop over rel, down from the given column. It stops when the descriptors have no room.
unfoldable pub columns_loop : List ℕ → List ℕ → List Entry → ℕ → ℕ → ℕ → Columns → Lists × Bool
unfolding emit_column next_column
columns_loop t constant tmp room base zero w =
    if ltb room (length w.lists.descs + length w.entries)
    then (w.lists, false)
    else ((emit_column 0 w).lists, true)
columns_loop t constant tmp room base (suc rel) w =
    let rest =
      columns_loop t constant tmp room base rel
        (next_column t constant tmp base rel (emit_column (suc rel) w)) in
    if ltb room (length w.lists.descs + length w.entries) then (w.lists, false) else rest

-- keys[i] = key32(t, n, order[i]+255)
unfoldable pub first_entries : List ℕ → ℕ → ℕ → List Entry
unfolding first_order
first_entries t base blocks =
    map (λ b. (b, key32 t (length t) (b + 255))) (first_order t base blocks)

-- What emitRun starts the loop with.
unfoldable pub start_columns : List ℕ → ℕ → ℕ → Lists → Columns
unfolding first_entries first_key all_same
start_columns t base blocks s =
    let es = first_entries t base blocks in
    record {
      entries = es;
      k0 = first_key es;
      uniform = all_same (first_key es) es;
      dirty = true;
      arena_off = 0;
      lists = s;
    }

-- blocks > 2
unfoldable pub emit_many : List ℕ → List Entry → ℕ → ℕ → ℕ → Lists → Lists × Bool
unfolding columns_loop start_columns constant_mask
emit_many t tmp room base blocks s =
    columns_loop t (constant_mask t base blocks) tmp room base 255 (start_columns t base blocks s)

-- emitRun: `blocks` blocks from number `first` on. The text is shorter than 2^31, so that no
-- position wraps around.
unfoldable pub emit_run : List ℕ → List Entry → ℕ → ℕ → ℕ → Lists → Lists × Bool
unfolding emit_one emit_two emit_many
emit_run t tmp room first blocks s =
    let base = first * block_size in
    if blocks == 1
    then emit_one t room base s
    else if blocks == 2
    then emit_two t room base s
    else emit_many t tmp room base blocks s
