-- ===== src/Engine/Mine/Share.antt =====
-- What submit reports: the best difficulty that a share has met.
use derostorm.Base.{
  ℕ, ◌+◌, ◌-◌, ◌*◌, ◌/◌, ◌%◌, ◌^◌, ◌≤◌, ◌<◌, max, ◌≡◌, arith, true, false, some, List, ltb, ◌==◌,
  if◌then◌else◌,
}
use native.Mathlib.Nat.{le-div_iff_mul-le}
use derostorm.Base.Bytes.{from_le}
use derostorm.Difficulty.{one_lsh_256, check_pow_hash_big}
use derostorm.Difficulty.HashBytes.{hash_to_big-from_le, from_be-reverse}
use derostorm.Engine.Mine.{Reporting, share_difficulty, submit}

-- x ≤ N / d gives d ≤ N / x.
swap_divisors : (x d n : ℕ) → 0 < x → 0 < d → x ≤ n / d → d ≤ n / x
swap_divisors x d n hx hd h =
    (le-div_iff_mul-le hx).1 (let m : x * d ≤ n = (le-div_iff_mul-le hd).0 h in omega arith)

share_difficulty-from_le :
    (h : List ℕ)
    → 0 < from_le h
    → share_difficulty h
      ≡ (if ltb (one_lsh_256 / from_le h) (2 ^ 64) then one_lsh_256 / from_le h else 2 ^ 64 - 1)
unfolding share_difficulty
share_difficulty-from_le h pos =
    let nonzero : (from_le h == 0) ≡ false = ground arith in rw (from_be-reverse h, nonzero)

-- A hash other than zero that the reference test accepts at a difficulty below 2^64 is reported
-- with at least that difficulty, and submit counts the share and keeps the greatest difficulty.
pub submit-best_share :
    (now d : ℕ) (work h : List ℕ) (e : Reporting)
    → 0 < d
    → d < 2 ^ 64
    → 0 < from_le h
    → check_pow_hash_big h d ≡ some true
    → (d ≤ share_difficulty h)
      × ((submit now work h e).best_share ≡ max e.best_share (share_difficulty h))
      × ((submit now work h e).submitted ≡ (e.submitted + 1) % 2 ^ 64)
      × (share_difficulty h < 2 ^ 64)
unfolding submit check_pow_hash_big
submit-best_share now d work h e hd small nonzero met = (
  ground (arith, met_le, swap_divisors (from_le h) d one_lsh_256, share_difficulty_lem),
  ground arith,
  ground arith,
  ground (arith, share_difficulty_lem),
)
  where
    share_difficulty_lem :
        share_difficulty h
        ≡ (if ltb (one_lsh_256 / from_le h) (2 ^ 64) then one_lsh_256 / from_le h else 2 ^ 64 - 1)
    share_difficulty_lem = share_difficulty-from_le h nonzero

    met_le : from_le h ≤ one_lsh_256 / d
    met_le = ground (arith, hash_to_big-from_le h)
