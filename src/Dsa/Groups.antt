-- ===== src/Dsa/Groups.antt =====
-- SuffixArray of internal/dsa/dsa.go after the sort of the descriptors: the groups of one sort key
-- are merged into the suffix array.
pub mod Merge
pub mod Valid
pub mod Written
pub mod Ascend
use derostorm.Base.{
  ℕ, zero, suc, ◌+◌, ◌%◌, ◌^◌, Bool, true, false, ◌&&◌, ◌||◌, List, [], ◌∷◌, ◌++◌, map, ltb, leb,
  ◌==◌, if◌then◌else◌, length, get_or, set, take, drop,
}
use derostorm.Dsa.Words.{Desc, key_bytes, off, dlen, sort_key, column}
use derostorm.Dsa.Compare.{suffix_less_from}

abbrev pub group_cap : ℕ
group_cap = 8192

-- A new descriptor d in front of the groups of the later ones: ds[i:j] with equal sort keys.
unfoldable pub join_group : Desc → List (List Desc) → List (List Desc)
join_group d [] = (d ∷ []) ∷ []
join_group d ([] ∷ gs) = (d ∷ []) ∷ gs
join_group d ((e ∷ g) ∷ gs) =
    if sort_key e == sort_key d then (d ∷ e ∷ g) ∷ gs else (d ∷ []) ∷ (e ∷ g) ∷ gs

unfoldable pub groups : List Desc → List (List Desc)
unfolding join_group
groups [] = []
groups (d ∷ ds) = join_group d (groups ds)

-- sa[out:] = the given places
pub write_all : ℕ → List ℕ → List ℕ → List ℕ
write_all out [] sa = sa
write_all out (p ∷ ps) sa = write_all (out + 1) ps (set sa out p)

-- s.arena[off(d) : off(d)+dlen(d)] with the column added.
unfoldable pub places : List ℕ → Desc → List ℕ
places arena d = map (λ p. (p + column d) % 2 ^ 32) (take (dlen d) (drop (off d) arena))

-- need: the lengths of a group.
pub need : List Desc → ℕ
need [] = 0
need (d ∷ ds) = dlen d + need ds

-- The two-list merge: the head of the second list goes first only if it is less.
pub merge_places : (ℕ → ℕ → Bool) → List ℕ → List ℕ → List ℕ
merge_places less [] ys = ys
merge_places less (a ∷ xs) [] = a ∷ xs
merge_places less (a ∷ xs) (b ∷ ys) = elim (less b a) [
  | true ↦ b ∷ merge_places less (a ∷ xs) ys
  | false ↦ a ∷ merge_places less xs (b ∷ ys)
]

-- A round of the merge tree: the lists in pairs, a last one alone.
pub merge_round : (ℕ → ℕ → Bool) → List (List ℕ) → List (List ℕ)
unfolding merge_places
merge_round less [] = []
merge_round less (a ∷ []) = a ∷ []
merge_round less (a ∷ b ∷ ls) = merge_places less a b ∷ merge_round less ls

-- The merge tree: rounds while there is more than one list.
pub merge_tree : (ℕ → ℕ → Bool) → ℕ → List (List ℕ) → List (List ℕ)
unfolding merge_round
merge_tree less zero ls = ls
merge_tree less (suc rounds) ls =
    let rest = merge_tree less rounds (merge_round less ls) in
    if ltb 1 (length ls) then rest else ls

-- a[:total] when one list is left.
unfoldable pub first_list : List (List ℕ) → List ℕ
first_list [] = []
first_list (l ∷ ls) = l

-- sa and out.
abbrev pub Filled : Type 0
Filled = List ℕ × ℕ

-- A group of one descriptor. `slack` is what stands in s.arena behind arenaLen.
unfoldable pub write_single : List ℕ → List ℕ → ℕ → Desc → Filled → Filled
unfolding write_all places
write_single arena slack n d w =
    let src = λ (z : ℕ). (get_or (arena ++ slack) (off d + z) 0 + column d) % 2 ^ 32 in
    if leb (dlen d) 4 && leb (w.1 + 4) n
    then (
      set (set (set (set w.0 w.1 (src 0)) (w.1 + 1) (src 1)) (w.1 + 2) (src 2)) (w.1 + 3) (src 3),
      w.1 + dlen d,
    )
    else (write_all w.1 (places arena d) w.0, w.1 + dlen d)

module _ (t : List ℕ) where
  -- suffixLessFrom(text, n, x, y, keyBytes)
  unfoldable pub less_in_group : ℕ → ℕ → Bool
  less_in_group x y = suffix_less_from t (length t) x y key_bytes

  -- A group of several descriptors: its places in order.
  unfoldable pub merge_group : List ℕ → List Desc → List ℕ
  unfolding merge_places merge_tree first_list places less_in_group
  merge_group arena (d0 ∷ d1 ∷ []) = merge_places less_in_group (places arena d0) (places arena d1)
  merge_group arena ds = first_list (merge_tree less_in_group (length ds) (map (places arena) ds))

  -- A group goes to sa[out:], unless it is too large.
  unfoldable pub write_group : List ℕ → List ℕ → List Desc → Filled → Filled × Bool
  unfolding write_single merge_group need write_all
  write_group arena slack [] w = (w, true)
  write_group arena slack (d ∷ []) w = (write_single arena slack (length t) d w, true)
  write_group arena slack (d0 ∷ d1 ∷ ds) w =
      let g : List Desc = d0 ∷ d1 ∷ ds in
      let merged = merge_group arena g in
      if ltb group_cap (need g) || ltb group_cap (length g)
      then (w, false)
      else ((write_all w.1 merged w.0, w.1 + length merged), true)

  -- The loop over the groups.
  unfoldable pub write_groups : List ℕ → List ℕ → List (List Desc) → Filled → Filled × Bool
  unfolding write_group
  write_groups arena slack [] w = (w, true)
  write_groups arena slack (g ∷ gs) w =
      let now = write_group arena slack g w in
      let rest = write_groups arena slack gs now.0 in if now.1 then rest else now
