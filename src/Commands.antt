-- ===== src/Commands.antt =====
-- cmd/derostorm/commands.go: the editor of the command line, and the argument of "threads".
pub mod Typed
use derostorm.Base.{
  ℕ, zero, suc, ◌+◌, ◌-◌, ◌*◌, ◌^◌, ◌≤◌, ◌<◌, ◌≡◌, refl, arith, Bool, true, false, ◌||◌, ◌&&◌, not,
  Option, none, some, List, [], ◌∷◌, ◌++◌, ltb, leb, ◌==◌, if◌then◌else◌, length, take,
}
use mathlib.Core.List.{reverse}
use derostorm.Base.Int.{ℤ, pos, negsuc}
use derostorm.Engine.Work.{set_string}
use derostorm.Engine.Pool.{max_threads}

-- The white space of strings.TrimSpace, below U+0100.
abbrev pub is_space : ℕ → Bool
is_space c = c == 0x20 || (leb 0x09 c && leb c 0x0d || (c == 0x85 || c == 0xa0))

pub trim_left : List ℕ → List ℕ
trim_left [] = []
trim_left (c ∷ s) = let rest = trim_left s in if is_space c then rest else c ∷ s

unfoldable pub trim_space : List ℕ → List ℕ
unfolding trim_left
trim_space s = reverse (trim_left (reverse (trim_left s)))

-- Feed: the buffer afterwards, and the line that is completed.
unfoldable pub feed : List ℕ → ℕ → List ℕ × Option (List ℕ)
unfolding trim_space
feed buf b =
    if b == 0x0d || b == 0x0a
    then ([], some (trim_space buf))
    else if b == 0x7f || b == 0x08
    then (take (length buf - 1) buf, none)
    else if b == 0x15
    then ([], none)
    else if b == 0x1b
    then ([], none)
    else if leb 0x20 b && ltb b 0x7f
    then (if ltb (length buf) 120 then buf ++ b ∷ [] else buf, none)
    else (buf, none)

-- What ReadCommands dispatches in raw mode: the completed lines that are not empty.
pub read_commands : List ℕ → List ℕ → List (List ℕ)
unfolding feed
read_commands buf [] = []
read_commands buf (b ∷ input) =
    let (buf', line) = feed buf b in
    let rest = read_commands buf' input in
    elim line [ none ↦ rest | some l ↦ if length l == 0 then rest else l ∷ rest ]

-- strconv.Atoi: what SetString reads, within an int64.
unfoldable pub atoi : List ℕ → Option ℤ
atoi s = elim (set_string s) [
  | none ↦ none
  | some (pos n) ↦ if ltb n (2 ^ 63) then some (pos n) else none
  | some (negsuc n) ↦ if ltb n (2 ^ 63) then some (negsuc n) else none
]

-- current + n and current - n, where both are counts below 2^63; a sum that does not fit wraps to a
-- negative number.
unfoldable pub adjusted : Bool → ℕ → ℕ → ℤ
adjusted true current n =
    if ltb (current + n) (2 ^ 63) then pos (current + n) else negsuc (2 ^ 64 - (current + n) - 1)
adjusted false current n = if leb n current then pos (current - n) else negsuc (n - current - 1)

unfoldable pub in_range : ℤ → Option ℕ
in_range (negsuc n) = none
in_range (pos n) = if ltb max_threads n then none else some n

-- The number behind an optional sign; a negative one is an error.
unfoldable pub parse_count : List ℕ → Option ℕ
unfolding atoi
parse_count s = elim (atoi s) [ none ↦ none | some (negsuc n) ↦ none | some (pos n) ↦ some n ]

-- parseThreadArg; `none` is an error.
unfoldable pub parse_thread_arg : List ℕ → ℕ → Option ℕ
unfolding parse_count adjusted in_range
parse_thread_arg [] current = none
parse_thread_arg (c ∷ s) current =
    if c == b'+'
    then elim (parse_count s) [ none ↦ none | some n ↦ in_range (adjusted true current n) ]
    else if c == b'-'
    then elim (parse_count s) [ none ↦ none | some n ↦ in_range (adjusted false current n) ]
    else elim (parse_count (c ∷ s)) [ none ↦ none | some n ↦ in_range (pos n) ]
