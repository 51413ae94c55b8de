-- ===== src/Engine/Mine/Pairing.antt =====
-- The loop of RunMiner that hashes two nonces at a time, next to the one that hashes one.
use derostorm.Base.{ℕ, zero, suc, ◌+◌, ◌-◌, ◌*◌, ◌≤◌, ◌<◌, ◌≡◌, refl, sym, ◌∙◌, arith, List, length}
use derostorm.Base.Reverse.{get_or-ext}
use derostorm.Engine.Work.{with_nonce, put_uint32}
use derostorm.Engine.Work.Nonce.{length-put_uint32, get-put_uint32}
use derostorm.Difficulty.{Target}
use derostorm.Engine.Mine.{
  Miner, next_nonce, single_round, single_rounds, paired_round, paired_rounds, mine_paired,
}

-- A nonce overwrites the one before.
put_uint32-put_uint32 :
    (dst : List ℕ) (at v u : ℕ)
    → at + 3 < length dst
    → put_uint32 (put_uint32 dst at v) at u ≡ put_uint32 dst at u
put_uint32-put_uint32 dst at v u h =
    let l = length-put_uint32 dst at v in
    get_or-ext _ _ 0
      (length-put_uint32 (put_uint32 dst at v) at u ∙ l ∙ sym (length-put_uint32 dst at u))
      (λ j _. ground (
        arith,
        get-put_uint32 (put_uint32 dst at v) at u j,
        get-put_uint32 dst at v j,
        get-put_uint32 dst at u j,
        l,
      ))

module _ (size : ℕ) (big : 5 ≤ size) (target : Target) (pow : List ℕ → List ℕ)
    (pow_pair : List ℕ → List ℕ → List ℕ × List ℕ)
    (pairs : (a b : List ℕ) → pow_pair a b ≡ (pow a, pow b)) where
  with_nonce_again :
      (w : List ℕ) (v u : ℕ)
      → length w ≡ size
      → with_nonce size (with_nonce size w v) u ≡ with_nonce size w u
  unfolding with_nonce
  with_nonce_again w v u h = put_uint32-put_uint32 w (size - 5) v u (omega arith)

  length-with_nonce : (w : List ℕ) (v : ℕ) → length (with_nonce size w v) ≡ length w
  unfolding with_nonce
  length-with_nonce w v = length-put_uint32 w (size - 5) v

  -- The two states stand at the same nonce, hash count and shares, and their buffers differ only
  -- in the nonce.
  record Agree (m : Miner) (s : Miner × List ℕ) : Type 0 where
    nonce : s.0.i ≡ m.i
    count : s.0.hashes ≡ m.hashes
    found : s.0.shares ≡ m.shares
    full : length m.work ≡ size
    full_a : length s.0.work ≡ size
    full_b : length s.1 ≡ size
    first : (v : ℕ) → with_nonce size s.0.work v ≡ with_nonce size m.work v
    second : (v : ℕ) → with_nonce size s.1 v ≡ with_nonce size m.work v

  Agree-round :
      (m : Miner) (s : Miner × List ℕ)
      → Agree m s
      → Agree
          (single_round size target pow (single_round size target pow m))
          (paired_round size target pow_pair s)
  unfolding single_round paired_round
  Agree-round m (p, work_b) a =
      let i = next_nonce m.i in
      let unwritten : (v : ℕ)
          → with_nonce size (with_nonce size (with_nonce size m.work i) (next_nonce i)) v
            ≡ with_nonce size m.work v =
        λ v.
          with_nonce_again (with_nonce size m.work i) (next_nonce i) v
            (length-with_nonce m.work i ∙ a.full)
          ∙ with_nonce_again m.work i v a.full in
      let once = with_nonce_again m.work i (next_nonce i) a.full in
      record {
        nonce = simp a.nonce;
        count = ground arith;
        found = simp (a.nonce, a.found, pairs, a.first, a.second, once);
        full =
            length-with_nonce (with_nonce size m.work i) (next_nonce i)
            ∙ length-with_nonce m.work i
            ∙ a.full;
        full_a = length-with_nonce p.work (next_nonce p.i) ∙ a.full_a;
        full_b = length-with_nonce work_b (next_nonce (next_nonce p.i)) ∙ a.full_b;
        first = λ v.
            with_nonce_again p.work (next_nonce p.i) v a.full_a ∙ a.first v ∙ sym (unwritten v);
        second = λ v.
            with_nonce_again work_b (next_nonce (next_nonce p.i)) v a.full_b
            ∙ a.second v
            ∙ sym (unwritten v);
      }

  Agree-rounds :
      (k : ℕ) (m : Miner) (s : Miner × List ℕ)
      → Agree m s
      → Agree (single_rounds size target pow (2 * k) m) (paired_rounds size target pow_pair k s)
  unfolding single_rounds paired_rounds
  Agree-rounds zero m s a = a
  Agree-rounds (suc k) m s a =
      let two : 2 * suc k ≡ suc (suc (2 * k)) = omega arith in
      rw two (Agree-rounds k _ _ (Agree-round m s a))

  -- For every number k of rounds, the paired loop ends with the nonce, the hash count and the
  -- shares, in their order, of 2k rounds of the single loop, if the pair function hashes each of
  -- its two works.
  pub mine_paired-single_rounds :
      (k : ℕ) (m : Miner)
      → length m.work ≡ size
      → ((mine_paired size target pow_pair k m).0.shares
          ≡ (single_rounds size target pow (2 * k) m).shares)
        × ((mine_paired size target pow_pair k m).0.hashes
            ≡ (single_rounds size target pow (2 * k) m).hashes)
        × ((mine_paired size target pow_pair k m).0.i ≡ (single_rounds size target pow (2 * k) m).i)
  unfolding mine_paired
  mine_paired-single_rounds k m h =
      let a =
        Agree-rounds k m (m, m.work)
          (record {
            nonce = refl;
            count = refl;
            found = refl;
            full = h;
            full_a = h;
            full_b = h;
            first = λ v. refl;
            second = λ v. refl;
          }) in
      (a.found, a.count, a.nonce)
