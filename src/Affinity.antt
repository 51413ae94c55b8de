-- ===== src/Affinity.antt =====
-- cmd/derostorm/affinity.go and cmd/derostorm/thread_linux.go: the logical CPU of a worker's slot.
-- GOMAXPROCS is the argument `count`.
use derostorm.Base.{
  ℕ, ◌+◌, ◌-◌, ◌*◌, ◌/◌, ◌%◌, ◌<◌, ◌≡◌, ◌≢◌, arith, Option, none, some, ltb, leb, if◌then◌else◌,
}
use derostorm.Base.Int.{ℤ, pos, negsuc}

-- spreadOverCores, for a slot that is not negative.
unfoldable pub spread_over_cores : ℕ → ℕ → ℕ
spread_over_cores slot count =
    if ltb count 2 then 0 else if ltb slot (count / 2) then slot * 2 else (slot - count / 2) * 2 + 1

-- pinToCPU: the CPU that the thread is bound to, or none where it returns before it binds it. A
-- negative slot is turned down whatever it maps to.
unfoldable pub pin_to_cpu : ℤ → ℕ → Option ℕ
unfolding spread_over_cores
pin_to_cpu (negsuc n) count = none
pin_to_cpu (pos slot) count =
    let cpu = spread_over_cores slot count in if leb count cpu then none else some cpu

-- On a machine with two CPUs or more, no two slots are bound to one CPU.
pub pin_to_cpu-injective :
    (s t count cpu : ℕ)
    → 1 < count
    → pin_to_cpu (pos s) count ≡ some cpu
    → pin_to_cpu (pos t) count ≡ some cpu
    → s ≡ t
unfolding pin_to_cpu
pin_to_cpu-injective s t count cpu h hs ht = ground arith

-- With an even number of CPUs, every CPU has a slot below the number of CPUs that is bound to it,
-- and that slot is in the first half exactly for the even CPUs, which are the physical cores.
pub pin_to_cpu-onto :
    (count cpu : ℕ)
    → count % 2 ≡ 0
    → cpu < count
    → (slot : ℕ) × (slot < count)
      × (pin_to_cpu (pos slot) count ≡ some cpu)
      × (ltb slot (count / 2) ≡ leb (cpu % 2) 0)
unfolding pin_to_cpu
pin_to_cpu-onto count cpu even h = (
  if leb (cpu % 2) 0 then cpu / 2 else cpu / 2 + count / 2,
  ground arith,
  ground arith,
  ground arith,
)

-- With an odd number of CPUs above 1, no slot is bound to the last CPU, and the last slot below the
-- number of CPUs is bound to none.
pub pin_to_cpu-odd :
    (count slot : ℕ)
    → 1 < count
    → count % 2 ≡ 1
    → (pin_to_cpu (pos slot) count ≢ some (count - 1)) × (pin_to_cpu (pos (count - 1)) count ≡ none)
unfolding pin_to_cpu
pin_to_cpu-odd count slot h odd = (λ e. ground arith, ground arith)
