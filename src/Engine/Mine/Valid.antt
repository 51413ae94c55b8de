-- ===== src/Engine/Mine/Valid.antt =====
-- Which shares a worker hands to submit.
use derostorm.Base.{
  ℕ, zero, suc, ◌*◌, ◌≤◌, ◌<◌, ◌≡◌, refl, sym, ap, ◌∙◌, Bool, true, Option, none, some, List, [],
  ◌∷◌, ltb, if◌then◌else◌, length, All, All-append, inl, inr, Bool-cases,
}
use mathlib.Core.Path.{subst}
use derostorm.Difficulty.{IsHash, Target, new_target, meets, check_pow_hash_big}
use derostorm.Difficulty.Meets.{meets-check_pow_hash_big}
use derostorm.Engine.Work.{with_nonce}
use derostorm.Engine.Mine.{Miner, next_nonce, offer, single_round, single_rounds, mine_job}
use derostorm.Engine.Mine.Pairing.{mine_paired-single_rounds}

-- A share with the hash of its work, which the reference test accepts at difficulty d.
abbrev pub IsValid : (List ℕ → List ℕ) → ℕ → List ℕ × List ℕ → Type 0
IsValid pow d s = (pow s.0 ≡ s.1) × (check_pow_hash_big s.1 d ≡ some true)

some-injective : (t u : Target) → some t ≡ some u → t ≡ u
some-injective t u e = ap (λ (o : Option Target). elim o [ none ↦ t | some v ↦ v ]) e

module _ (size d : ℕ) (target : Target) (pos : 0 < d) (of_d : new_target d ≡ some target) where
  meets-accepted :
      (h : List ℕ) → IsHash h → meets target h ≡ true → check_pow_hash_big h d ≡ some true
  meets-accepted h hash met =
      let (t, e, verdict) = meets-check_pow_hash_big h d hash pos in
      let same : t ≡ target = some-injective t target (sym e ∙ of_d) in
      verdict ∙ ap (λ u. some (meets u h)) same ∙ ap some met

  module _ (pow : List ℕ → List ℕ) (hashes : (w : List ℕ) → IsHash (pow w)) where
    offer-IsValid :
        (work : List ℕ) (shares : List (List ℕ × List ℕ))
        → All (IsValid pow d) shares
        → All (IsValid pow d) (offer target work (pow work) shares)
    unfolding offer
    offer-IsValid work shares v = elim (Bool-cases (meets target (pow work))) [
      | inl e ↦ rw e (
          All-append (IsValid pow d) shares ((work, pow work) ∷ []) v
            ((refl, meets-accepted (pow work) (hashes work) e), tt))
      | inr e ↦ rw e v
    ]

    single_rounds-IsValid :
        (k : ℕ) (m : Miner)
        → All (IsValid pow d) m.shares
        → All (IsValid pow d) (single_rounds size target pow k m).shares
    unfolding single_rounds single_round
    single_rounds-IsValid zero m v = v
    single_rounds-IsValid (suc k) m v =
        single_rounds-IsValid k (single_round size target pow m)
          (offer-IsValid (with_nonce size m.work (next_nonce m.i)) m.shares v)

  -- With the target of difficulty d, and proof-of-work functions that return 32 bytes, of which the
  -- pair function hashes each of its two works, every share that a job hands to submit, on either
  -- side of the fork and paired or not, has the hash of its work, and the big.Int reference test
  -- accepts that hash at difficulty d.
  pub mine_job-IsValid :
      (pow_fast pow : List ℕ → List ℕ) (pow_pair : List ℕ → List ℕ → List ℕ × List ℕ)
      (fork_height height k : ℕ) (paired : Bool) (m : Miner)
      → 5 ≤ size
      → length m.work ≡ size
      → m.shares ≡ []
      → ((w : List ℕ) → IsHash (pow_fast w))
      → ((w : List ℕ) → IsHash (pow w))
      → ((a b : List ℕ) → pow_pair a b ≡ (pow a, pow b))
      → All
          (IsValid (if ltb height fork_height then pow_fast else pow) d)
          (mine_job size target pow_fast pow pow_pair fork_height paired height k m).shares
  unfolding mine_job
  mine_job-IsValid pow_fast pow pow_pair fork_height height k paired m big full empty fast_hashes
        hashes pairs =
      let start : (p : List ℕ → List ℕ) → All (IsValid p d) m.shares =
        λ p. subst (All (IsValid p d)) (sym empty) tt in
      elim (Bool-cases (ltb height fork_height)) [
        | inl before ↦ rw before (single_rounds-IsValid pow_fast fast_hashes k m (start pow_fast))
        | inr after ↦ elim (Bool-cases paired) [
          | inl two ↦
              rw (after, two)
                (subst (All (IsValid pow d))
                  (sym ((mine_paired-single_rounds size big target pow pow_pair pairs k m full).0))
                  (single_rounds-IsValid pow hashes (2 * k) m (start pow)))
          | inr one ↦ rw (after, one) (single_rounds-IsValid pow hashes k m (start pow))
        ]
      ]
