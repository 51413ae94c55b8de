-- ===== src/Commands/Typed.antt =====
-- What a typed command can be.
use derostorm.Base.{
  ℕ, ◌-◌, ◌≤◌, ◌<◌, ◌≡◌, refl, sym, ap, ◌∙◌, arith, true, false, ◌||◌, ◌&&◌, Option, none, some,
  List, [], ◌∷◌, ltb, ltb→lt, leb, ◌==◌, if◌then◌else◌, length, length-append, length-take, All,
  All-append, All-take, inl, inr, Bool-cases,
}
use mathlib.Core.List.{reverse, reverse-cons}
use mathlib.Core.Path.{subst}
use derostorm.Base.Int.{ℤ, pos, negsuc}
use derostorm.Engine.Pool.{Pool, max_threads, set_threads}
use derostorm.Commands.{
  is_space, trim_left, trim_space, feed, read_commands, adjusted, in_range, parse_count,
  parse_thread_arg,
}

-- A printable ASCII character.
abbrev pub IsPrintable : ℕ → Type 0
IsPrintable c = (0x20 ≤ c) × (c < 0x7f)

-- A line that can stand in the editor: at most 120 printable characters.
abbrev pub IsLine : List ℕ → Type 0
IsLine s = (length s ≤ 120) × All IsPrintable s

feed-IsLine : (buf : List ℕ) (b : ℕ) → IsLine buf → IsLine (feed buf b).0
unfolding feed
feed-IsLine buf b (len, ok) = elim (Bool-cases (b == 0x0d || b == 0x0a)) [
  | inl e ↦ rw e (omega arith, tt)
  | inr e ↦ elim (Bool-cases (b == 0x7f || b == 0x08)) [
    | inl f ↦
        rw (e, f)
          (
            omega (arith, length-take (length buf - 1) buf),
            All-take IsPrintable (length buf - 1) buf ok,
          )
    | inr f ↦ elim (Bool-cases (b == 0x15)) [
      | inl g ↦ rw (e, f, g) (omega arith, tt)
      | inr g ↦ elim (Bool-cases (b == 0x1b)) [
        | inl h ↦ rw (e, f, g, h) (omega arith, tt)
        | inr h ↦ elim (Bool-cases (leb 0x20 b && ltb b 0x7f)) [
          | inr i ↦ rw (e, f, g, h, i) (len, ok)
          | inl i ↦ elim (Bool-cases (ltb (length buf) 120)) [
            | inr j ↦ rw (e, f, g, h, i, j) (len, ok)
            | inl j ↦
                rw (e, f, g, h, i, j)
                  (
                    omega (arith, length-append buf (b ∷ []), ltb→lt (length buf) 120 j),
                    All-append IsPrintable buf (b ∷ []) ok ((ground arith, ground arith), tt),
                  )
          ]
        ]
      ]
    ]
  ]
]

trim_left-IsLine : (s : List ℕ) → IsLine s → IsLine (trim_left s)
unfolding trim_left
trim_left-IsLine [] v = v
trim_left-IsLine (c ∷ s) (len, (hc, ok)) = elim (Bool-cases (is_space c)) [
  | inl e ↦ rw (e, trim_left) (trim_left-IsLine s (omega arith, ok))
  | inr e ↦ rw (e, trim_left) (len, (hc, ok))
]

length-reverse : (s : List ℕ) → length (reverse s) ≡ length s
length-reverse [] = refl
length-reverse (c ∷ s) =
    ap length (reverse-cons c s)
    ∙ omega (arith, length-append (reverse s) (c ∷ []), length-reverse s)

All-reverse : (P : ℕ → Type 0) (s : List ℕ) → All P s → All P (reverse s)
All-reverse P [] h = tt
All-reverse P (c ∷ s) (hc, h) =
    subst (All P) (sym (reverse-cons c s))
      (All-append P (reverse s) (c ∷ []) (All-reverse P s h) (hc, tt))

IsLine-reverse : (s : List ℕ) → IsLine s → IsLine (reverse s)
IsLine-reverse s (len, ok) = (omega (arith, length-reverse s, len), All-reverse IsPrintable s ok)

trim_space-IsLine : (s : List ℕ) → IsLine s → IsLine (trim_space s)
unfolding trim_space
trim_space-IsLine s v =
    IsLine-reverse (trim_left (reverse (trim_left s))) (
      trim_left-IsLine (reverse (trim_left s))
        (IsLine-reverse (trim_left s) (trim_left-IsLine s v)))

-- The line that a byte completes.
IsLine? : Option (List ℕ) → Type 0
IsLine? none = Unit
IsLine? (some l) = IsLine l

feed-IsLine_done : (buf : List ℕ) (b : ℕ) → IsLine buf → IsLine? (feed buf b).1
unfolding feed IsLine?
feed-IsLine_done buf b v = elim (Bool-cases (b == 0x0d || b == 0x0a)) [
  | inl e ↦ rw e (trim_space-IsLine buf v)
  | inr e ↦ elim (Bool-cases (b == 0x7f || b == 0x08)) [
    | inl f ↦ rw (e, f) tt
    | inr f ↦ elim (Bool-cases (b == 0x15)) [
      | inl g ↦ rw (e, f, g) tt
      | inr g ↦ elim (Bool-cases (b == 0x1b)) [
        | inl h ↦ rw (e, f, g, h) tt
        | inr h ↦ elim (Bool-cases (leb 0x20 b && ltb b 0x7f)) [
          | inr i ↦ rw (e, f, g, h, i) tt
          | inl i ↦ rw (e, f, g, h, i) tt
        ]
      ]
    ]
  ]
]

-- Whatever bytes are typed after a line that can stand in the editor, every command that is
-- dispatched is a line of 1 to 120 printable characters.
pub read_commands-IsLine :
    (buf input : List ℕ)
    → IsLine buf
    → All (λ l. (0 < length l) × IsLine l) (read_commands buf input)
unfolding read_commands
read_commands-IsLine buf [] v = tt
read_commands-IsLine buf (b ∷ input) v =
    dispatched (feed buf b).1 (feed-IsLine_done buf b v)
      (read_commands-IsLine (feed buf b).0 input (feed-IsLine buf b v))
  where
    dispatched :
        (line : Option (List ℕ))
        → IsLine? line
        → All (λ l. (0 < length l) × IsLine l) (read_commands (feed buf b).0 input)
        → All
            (λ l. (0 < length l) × IsLine l)
            (elim line [
              | none ↦ read_commands (feed buf b).0 input
              | some l ↦
                  if length l == 0
                  then read_commands (feed buf b).0 input
                  else l ∷ read_commands (feed buf b).0 input
            ])
    dispatched none v rest = rest
    dispatched (some l) v rest = elim (Bool-cases (length l == 0)) [
      | inl e ↦ rw e rest
      | inr e ↦ rw e ((ground arith, unfold IsLine? in v), rest)
    ]

in_range-le : (z : ℤ) (n : ℕ) → in_range z ≡ some n → n ≤ max_threads
unfolding in_range
in_range-le (pos m) n e = ground (arith, e)
in_range-le (negsuc m) n e = absurd (ground (arith, e))

-- A thread count that parseThreadArg accepts, absolute or relative to any current count, is one
-- that SetThreads accepts.
pub parse_thread_arg-set_threads :
    (s : List ℕ) (current n : ℕ) (p : Pool)
    → parse_thread_arg s current ≡ some n
    → (set_threads (pos n) p).1 ≡ none
unfolding parse_thread_arg
parse_thread_arg-set_threads s current n p e = accepted (le s e)
  where
    accepted : n ≤ max_threads → (set_threads (pos n) p).1 ≡ none
    accepted h = unfold set_threads in ground arith

    ranged :
        (r : Option ℕ) (f : ℕ → ℤ)
        → elim r as (λ _. Option ℕ) [ none ↦ none | some m ↦ in_range (f m) ] ≡ some n
        → n ≤ max_threads
    ranged none f e = absurd (ground (arith, e))
    ranged (some m) f e = in_range-le (f m) n e

    le : (s : List ℕ) → parse_thread_arg s current ≡ some n → n ≤ max_threads
    le [] e = absurd (ground (arith, e))
    le (c ∷ s) e = elim (Bool-cases (c == b'+')) [
      | inl plus ↦ ranged (parse_count s) (adjusted true current) (rw plus at e)
      | inr no_plus ↦ elim (Bool-cases (c == b'-')) [
        | inl minus ↦ ranged (parse_count s) (adjusted false current) (rw (no_plus, minus) at e)
        | inr no_minus ↦ ranged (parse_count (c ∷ s)) pos (rw (no_plus, no_minus) at e)
      ]
    ]
