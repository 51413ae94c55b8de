-- ===== src/Examples/Suffixes.antt =====
-- Runs of the theorems on the suffix sort of internal/dsa/dsa.go, on small texts.
use derostorm.Base.{
  none, some, ◌<◌, ◌*◌, ◌+◌, true, suc, zero, get_or, ℕ, ◌≤◌, ◌≡◌, refl, arith, List, [], ◌∷◌, ◌++◌,
  ltb, if◌then◌else◌, length, take, replicate, All, Chain, count,
}
use derostorm.Base.Bytes.{IsByte}
use derostorm.Dsa.Words.{block_size, Desc, sort_key, make_desc, key32, slide_key, off, dlen, column}
use derostorm.Dsa.Suffix.{UpTo}
use derostorm.Dsa.Buckets.{bucket, count_loop, sums, scatter}
use derostorm.Dsa.Radix.{radix_passes}
use derostorm.Dsa.Buckets.Stable.{SortedBy}
use derostorm.Dsa.Column.{Entry, no_entry, top_byte, column_step}
use derostorm.Dsa.Column.Agree.{column_step-SortedBy}
use derostorm.Dsa.Emit.{Lists}
use derostorm.Dsa.Emit.Blocks.{run_split, block_diff, emit_tail}
use derostorm.Dsa.Emit.Run.{sort_ends, block_ends}
use derostorm.Dsa.Emit.Constant.{constant_mask, clear_blocks, clear_words, clear_bytes}
use derostorm.Dsa.Emit.Still.{constant_mask-All}
use derostorm.Dsa.Words.{u64le}
use derostorm.Dsa.Emit.First.{sort_ends-Chain}
use derostorm.Dsa.Groups.{merge_tree, merge_group, places}
use derostorm.Dsa.Groups.Merge.{length-merge_tree}
use derostorm.Dsa.Groups.Valid.{IsRun, IsDesc, all_places, merge_group-IsRun}
use derostorm.Dsa.Sort.{get_scratch, finish, emit_text, suffix_array}
use derostorm.Dsa.Finish.{finish_lem}
use derostorm.Dsa.Whole.{emit_text-full}
use derostorm.Dsa.Bounds.{Answer, suffix_array_lem, suffix_array-none}

-- Five blocks, two of them with the top byte 1.
abbrev five : List Entry
five = (0, 0x020000) ∷ (256, 0x010000) ∷ (512, 0x030000) ∷ (768, 0x010001) ∷ (1024, 0x000000) ∷ []

column_step-SortedBy_example :
    SortedBy top_byte (column_step five (replicate 512 no_entry))
    × (bucket top_byte 1 (column_step five (replicate 512 no_entry)) ≡ bucket top_byte 1 five)
    × (length (column_step five (replicate 512 no_entry)) ≡ length five)
column_step-SortedBy_example =
    column_step-SortedBy five (replicate 512 no_entry) 1
      (omega arith, (omega arith, (omega arith, (omega arith, (omega arith, tt))))) (omega arith)
      (omega arith) (omega arith)

-- "bab": its suffixes in order stand at 1, 2 and 0.
abbrev bab : List ℕ
bab = 98 ∷ 97 ∷ 98 ∷ []

abbrev blank : Desc
blank = record { key = 0; packed = 0 }

abbrev nothing : Lists
nothing = record { arena = []; descs = [] }

abbrev blanks : List Desc
blanks = blank ∷ blank ∷ blank ∷ []

bab-IsByte : All IsByte bab
bab-IsByte = (omega arith, (omega arith, (omega arith, tt)))

-- The descriptors of its three places.
valid : All (IsDesc bab (emit_tail bab nothing).arena) (emit_tail bab nothing).descs
unfolding emit_tail make_desc key32 slide_key off dlen sort_key column places
valid = (
  ((((omega arith, refl), tt), (tt, tt)), refl),
  (
    ((((omega arith, refl), tt), (tt, tt)), refl),
    (((((omega arith, refl), tt), (tt, tt)), refl), tt),
  ),
)

finish_lem_example :
    Chain (UpTo bab) (take 3 (finish bab [] blanks [] nothing (0 ∷ 0 ∷ 0 ∷ [])).0)
    × (count 1 (take 3 (finish bab [] blanks [] nothing (0 ∷ 0 ∷ 0 ∷ [])).0)
        ≡ (if ltb 1 3 then 1 else 0))
unfolding emit_tail make_desc key32 slide_key off dlen sort_key column places finish radix_passes
    scatter sums count_loop
finish_lem_example =
    finish_lem bab [] (0 ∷ 0 ∷ 0 ∷ []) [] blanks nothing 1 bab-IsByte (omega arith) (omega arith)
      (omega arith) valid (λ q. ground arith) refl

-- Two lists of one place each, with the key "aaa".
abbrev aaaaa : List ℕ
aaaaa = replicate 5 97

abbrev pair : List Desc
pair = record { key = 0x616161; packed = 1 } ∷ record { key = 0x616161; packed = 4097 } ∷ []

pair-IsDesc : All (IsDesc aaaaa (1 ∷ 0 ∷ [])) pair
unfolding key32 off dlen sort_key column places
pair-IsDesc = (
  ((((omega arith, refl), tt), (tt, tt)), refl),
  (((((omega arith, refl), tt), (tt, tt)), refl), tt),
)

merge_group-IsRun_example :
    IsRun aaaaa 0x616161 (merge_group aaaaa (1 ∷ 0 ∷ []) pair)
    × (count 0 (merge_group aaaaa (1 ∷ 0 ∷ []) pair) ≡ count 0 (all_places aaaaa (1 ∷ 0 ∷ []) pair))
merge_group-IsRun_example =
    merge_group-IsRun aaaaa (1 ∷ 0 ∷ []) 0x616161 0
      (omega arith, (omega arith, (omega arith, (omega arith, (omega arith, tt))))) pair
      (unfold sort_key in (refl, (refl, tt))) pair-IsDesc

length-merge_tree_example : length (merge_tree ltb 3 ((5 ∷ []) ∷ (1 ∷ 7 ∷ []) ∷ (4 ∷ []) ∷ [])) ≤ 1
length-merge_tree_example =
    length-merge_tree ltb 3 ((5 ∷ []) ∷ (1 ∷ 7 ∷ []) ∷ (4 ∷ []) ∷ []) (omega arith)

sort_ends-Chain_example :
    Chain (UpTo bab) (sort_ends bab 2 1 (0 ∷ 1 ∷ 2 ∷ []))
    × (count 0 (sort_ends bab 2 1 (0 ∷ 1 ∷ 2 ∷ [])) ≡ count 0 (0 ∷ 1 ∷ 2 ∷ []))
    × (length (sort_ends bab 2 1 (0 ∷ 1 ∷ 2 ∷ [])) ≡ length {A = ℕ} (0 ∷ 1 ∷ 2 ∷ []))
sort_ends-Chain_example =
    sort_ends-Chain bab bab-IsByte 0 (1 ∷ 2 ∷ []) 0 (omega arith, (omega arith, (omega arith, tt)))

emit_text-full_example :
    ((emit_text bab (replicate 512 no_entry) blanks [] (3 + 256 + 8)).1 ≡ true)
    × (length
          (emit_tail bab (emit_text bab (replicate 512 no_entry) blanks [] (3 + 256 + 8)).0).arena
        ≤ 3)
    × (length
          (emit_tail bab (emit_text bab (replicate 512 no_entry) blanks [] (3 + 256 + 8)).0).descs
        ≤ 3)
emit_text-full_example =
    emit_text-full bab bab-IsByte (omega arith) (replicate 512 no_entry) blanks [] (omega arith)

suffix_array_lem_example :
    Answer bab
      (replicate 512 no_entry)
      []
      none
      2
      (suffix_array bab (replicate 512 no_entry) [] none (0 ∷ 0 ∷ 0 ∷ []))
suffix_array_lem_example =
    suffix_array_lem bab bab-IsByte (omega arith) (replicate 512 no_entry) [] (0 ∷ 0 ∷ 0 ∷ []) none
      2 (omega arith)

-- The answer there: true, with the places 1, 2, 0.
answer_for_bab :
    suffix_array bab (replicate 512 no_entry) [] none (0 ∷ 0 ∷ 0 ∷ []) ≡ some (1 ∷ 2 ∷ 0 ∷ [], true)
unfolding emit_tail make_desc key32 slide_key off dlen sort_key column places suffix_array
    radix_passes scatter sums count_loop
answer_for_bab = refl

-- A text of 529 bytes: two blocks that differ everywhere, and a tail of 17 places.
abbrev overrun : List ℕ
overrun = replicate 256 0 ++ replicate 256 1 ++ replicate 17 0

overrun_diff : block_diff overrun 0 256 ≡ 256
unfolding block_diff u64le
overrun_diff = refl

overrun-apart :
    (g : ℕ) → g + 1 < 2 → run_split < block_diff overrun (g * block_size) ((g + 1) * block_size)
overrun-apart zero h = rw overrun_diff (omega arith)
overrun-apart (suc g) h = absurd (omega arith)

suffix_array-none_example :
    suffix_array overrun (replicate 512 no_entry) [] none (replicate 529 0) ≡ none
unfolding get_scratch
suffix_array-none_example =
    suffix_array-none overrun (replicate 512 no_entry) [] (replicate 529 0) none (omega arith)
      overrun-apart (omega arith) (omega arith)

-- Two blocks that differ in column 1.
abbrev two_blocks : List ℕ
two_blocks = replicate 257 97 ++ 98 ∷ replicate 254 97 ++ []

replicate-IsByte : (n : ℕ) (rest : List ℕ) → All IsByte rest → All IsByte (replicate n 97 ++ rest)
replicate-IsByte zero rest a = a
replicate-IsByte (suc n) rest a = (omega arith, replicate-IsByte n rest a)

two_blocks-IsByte : All IsByte two_blocks
two_blocks-IsByte =
    replicate-IsByte 257 (98 ∷ replicate 254 97 ++ []) (omega arith, replicate-IsByte 254 [] tt)

constant_mask-All_example :
    All (λ b. get_or two_blocks (b + 5) 0 ≡ get_or two_blocks (0 + 5) 0) (block_ends 2 0)
unfolding constant_mask clear_blocks clear_words clear_bytes u64le
constant_mask-All_example =
    constant_mask-All two_blocks two_blocks-IsByte 0 2 5 (omega arith) (omega arith) refl
