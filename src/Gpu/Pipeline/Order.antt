-- ===== src/Gpu/Pipeline/Order.antt =====
-- The order in which the batches of one job go through the queue of the card.
use derostorm.Base.{
  ℕ, zero, suc, ◌+◌, ◌%◌, ◌^◌, ◌≤◌, ◌<◌, ◌≡◌, refl, sym, ap, ◌∙◌, arith, true, Option, none, some,
  List, [], ◌∷◌, ◌++◌, inl, inr, ltb, length, drop, All, All-append, length-append, length-drop,
  Bool-cases,
}
use native.Mathlib.Nat.{suc-add}
use derostorm.Difficulty.{Target, meets}
use derostorm.Engine.Work.{with_nonce}
use derostorm.Gpu.Pipeline.{
  Card, Feed, check_hit, check_hits, take_batch, fill, mining_round, mining_rounds, drain,
  quiet_drain, run_job, pipeline_depth,
}

-- The first nonces of k batches from a nonce on, and the nonce behind them.
abbrev pub starts : ℕ → ℕ → ℕ → List ℕ
starts batch zero nonce = []
starts batch (suc k) nonce = nonce ∷ starts batch k ((nonce + batch) % 2 ^ 32)

abbrev nonce_behind : ℕ → ℕ → ℕ → ℕ
nonce_behind batch zero nonce = nonce
nonce_behind batch (suc k) nonce = nonce_behind batch k ((nonce + batch) % 2 ^ 32)

starts_last :
    (batch k nonce : ℕ)
    → starts batch k nonce ++ nonce_behind batch k nonce ∷ [] ≡ starts batch (suc k) nonce
starts_last batch zero nonce = refl
starts_last batch (suc k) nonce = ap (◌∷◌ nonce) (starts_last batch k ((nonce + batch) % 2 ^ 32))

nonce_behind_next :
    (batch k nonce : ℕ)
    → (nonce_behind batch k nonce + batch) % 2 ^ 32 ≡ nonce_behind batch (suc k) nonce
nonce_behind_next batch zero nonce = refl
nonce_behind_next batch (suc k) nonce = nonce_behind_next batch k ((nonce + batch) % 2 ^ 32)

drop-append : (k : ℕ) (xs ys : List ℕ) → k ≤ length xs → drop k (xs ++ ys) ≡ drop k xs ++ ys
drop-append zero xs ys h = refl
drop-append (suc k) [] ys h = absurd (omega arith)
drop-append (suc k) (x ∷ xs) ys h = drop-append k xs ys (omega arith)

drop_rest : (k : ℕ) (xs ys : List ℕ) (y : ℕ) → drop k xs ≡ y ∷ ys → drop (k + 1) xs ≡ ys
drop_rest zero [] ys y h = absurd (ground (arith, h))
drop_rest zero (x ∷ xs) ys y h = ground (arith, h)
drop_rest (suc k) [] ys y h = absurd (ground (arith, h))
drop_rest (suc k) (x ∷ xs) ys y h = rw (suc-add k 1) (drop_rest k xs ys y h)

module _ (c : Card) (size batch : ℕ) (target : Target) (pow : List ℕ → List ℕ) where
  -- From the nonce at which the job began: what was sent is a run of consecutive batches, the card
  -- holds those that were not yet taken, never more than two, and every share was found on the CPU.
  record InOrder (first : ℕ) (f : Feed c) : Type 0 where
    sent_run : f.sent ≡ starts batch (length f.sent) first
    nonce_run : f.nonce ≡ nonce_behind batch (length f.sent) first
    held : c.queued f.card ≡ drop f.taken f.sent
    taken_sent : f.taken ≤ length f.sent
    depth : length f.sent ≤ f.taken + pipeline_depth
    checked : All (λ (s : List ℕ × List ℕ). (pow s.0 ≡ s.1) × (meets target s.1 ≡ true)) f.shares

  InOrder-check_hit :
      (first : ℕ) (f : Feed c) (hit : ℕ)
      → InOrder first f
      → InOrder first (check_hit c size batch target pow f hit)
  unfolding check_hit
  InOrder-check_hit first f hit v =
      let work = with_nonce size f.work hit in
      elim (Bool-cases (meets target (pow work))) [
        | inl e ↦ rw e (record {
          sent_run = v.sent_run;
          nonce_run = v.nonce_run;
          held = v.held;
          taken_sent = v.taken_sent;
          depth = v.depth;
          checked = All-append _ f.shares ((work, pow work) ∷ []) v.checked ((refl, e), tt);
        })
        | inr e ↦ rw e (record {
          sent_run = v.sent_run;
          nonce_run = v.nonce_run;
          held = v.held;
          taken_sent = v.taken_sent;
          depth = v.depth;
          checked = v.checked;
        })
      ]

  InOrder-check_hits :
      (first : ℕ) (f : Feed c) (hits : List ℕ)
      → InOrder first f
      → InOrder first (check_hits c size batch target pow f hits)
  unfolding check_hits
  InOrder-check_hits first f [] v = v
  InOrder-check_hits first f (hit ∷ hits) v =
      InOrder-check_hits first (check_hit c size batch target pow f hit) hits
        (InOrder-check_hit first f hit v)

  -- A batch that is collected leaves the front of the queue.
  InOrder-collect :
      (first : ℕ) (f : Feed c) {hits : List ℕ} {card : c.State} (hashes : ℕ)
      → InOrder first f
      → c.collect f.card ≡ some (hits, card)
      → InOrder first (record f { card = card; hashes = hashes; taken = f.taken + 1 })
  InOrder-collect first f {card} hashes v e =
      let (start, front) = c.collect_oldest f.card e in
      let rest = sym v.held ∙ front in
      record {
        sent_run = v.sent_run;
        nonce_run = v.nonce_run;
        held = sym (drop_rest f.taken f.sent (c.queued card) start rest);
        taken_sent = omega (arith, sym (length-drop f.taken f.sent) ∙ ap length rest, v.taken_sent);
        depth = omega (arith, v.depth);
        checked = v.checked;
      }

  InOrder-take_batch :
      (first : ℕ) (f : Feed c)
      → InOrder first f
      → InOrder first (take_batch c size batch target pow f).0
  unfolding take_batch
  InOrder-take_batch first f v = taken (c.collect f.card) refl
    where
      taken :
          (r : Option (List ℕ × c.State))
          → c.collect f.card ≡ r
          → InOrder first (take_batch c size batch target pow f).0
      taken none e = rw (take_batch, e) v
      taken (some (hits, card)) e =
          rw (take_batch, e) (InOrder-check_hits first _ hits (InOrder-collect first f _ v e))

  -- Between two starts of the job the queue is filled up to two batches.
  InOrder-submit :
      (first : ℕ) (f : Feed c) {card : c.State}
      → InOrder first f
      → ltb (c.in_flight f.card) pipeline_depth ≡ true
      → c.submit f.card f.nonce ≡ some card
      → InOrder first (record f {
        card = card;
        nonce = (f.nonce + batch) % 2 ^ 32;
        sent = f.sent ++ f.nonce ∷ [];
      })
  InOrder-submit first f {card} v room e =
      let longer : length (f.sent ++ f.nonce ∷ []) ≡ suc (length f.sent) =
        length-append f.sent (f.nonce ∷ []) ∙ omega arith in
      let queued : length (drop f.taken f.sent) < 2 =
        ground (arith, room, c.in_flight_counts f.card, ap length v.held) in
      record {
        sent_run =
            ap (λ n. f.sent ++ n ∷ []) v.nonce_run
            ∙ ap (λ s. s ++ nonce_behind batch (length f.sent) first ∷ []) v.sent_run
            ∙ starts_last batch (length f.sent) first
            ∙ ap (λ k. starts batch k first) (sym longer);
        nonce_run =
            ap (λ n. (n + batch) % 2 ^ 32) v.nonce_run
            ∙ nonce_behind_next batch (length f.sent) first
            ∙ ap (λ k. nonce_behind batch k first) (sym longer);
        held =
            c.submit_queues f.card f.nonce e
            ∙ ap (λ q. q ++ f.nonce ∷ []) v.held
            ∙ sym (drop-append f.taken f.sent (f.nonce ∷ []) v.taken_sent);
        taken_sent = omega (arith, longer, v.taken_sent);
        depth = omega (arith, longer, length-drop f.taken f.sent, queued);
        checked = v.checked;
      }

  InOrder-fill :
      (fuel first : ℕ) (f : Feed c)
      → InOrder first f
      → InOrder first (fill c size batch target pow fuel f).0
  unfolding fill
  InOrder-fill zero first f v = v
  InOrder-fill (suc fuel) first f v = elim (Bool-cases (ltb (c.in_flight f.card) pipeline_depth)) [
    | inl room ↦ submitted room (λ g w. InOrder-fill fuel first g w) (c.submit f.card f.nonce) refl
    | inr full ↦ rw (fill, full) v
  ]
    where
      submitted :
          ltb (c.in_flight f.card) pipeline_depth ≡ true
          → ((g : Feed c) → InOrder first g → InOrder first (fill c size batch target pow fuel g).0)
          → (r : Option c.State) → c.submit f.card f.nonce ≡ r
          → InOrder first (fill c size batch target pow (suc fuel) f).0
      submitted room again none e = rw (fill, room, e) v
      submitted room again (some card) e =
          rw (fill, room, e) (again _ (InOrder-submit first f v room e))

  InOrder-mining_round :
      (first : ℕ) (f : Feed c)
      → InOrder first f
      → InOrder first (mining_round c size batch target pow f).0
  unfolding mining_round
  InOrder-mining_round first f v =
      let filled = fill c size batch target pow pipeline_depth f in
      let w = InOrder-fill pipeline_depth first f v in
      elim (Bool-cases filled.1) [
        | inl failed ↦ rw failed w
        | inr fine ↦ rw fine (elim (Bool-cases (take_batch c size batch target pow filled.0).1) [
          | inl e ↦ rw e (InOrder-take_batch first filled.0 w)
          | inr e ↦ rw e (InOrder-take_batch first filled.0 w)
        ])
      ]

  InOrder-mining_rounds :
      (rounds first : ℕ) (f : Feed c)
      → InOrder first f
      → InOrder first (mining_rounds c size batch target pow rounds f).0
  unfolding mining_rounds
  InOrder-mining_rounds zero first f v = v
  InOrder-mining_rounds (suc rounds) first f v =
      let w = InOrder-mining_round first f v in
      elim (Bool-cases (mining_round c size batch target pow f).1) [
        | inl failed ↦ rw (mining_rounds, failed) w
        | inr fine ↦ rw (mining_rounds, fine) (InOrder-mining_rounds rounds first _ w)
      ]

  InOrder-drain :
      (fuel first : ℕ) (f : Feed c)
      → InOrder first f
      → InOrder first (drain c size batch target pow fuel f)
  unfolding drain
  InOrder-drain zero first f v = v
  InOrder-drain (suc fuel) first f v =
      let w = InOrder-take_batch first f v in
      elim (Bool-cases (ltb 0 (c.in_flight f.card))) [
        | inr e ↦ rw (drain, e) v
        | inl e ↦ elim (Bool-cases (take_batch c size batch target pow f).1) [
          | inl fine ↦ rw (drain, e, fine) (InOrder-drain fuel first _ w)
          | inr failed ↦ rw (drain, e, failed) w
        ]
      ]

  InOrder-quiet_drain :
      (fuel first : ℕ) (f : Feed c)
      → InOrder first f
      → InOrder first (quiet_drain c size batch target pow fuel f)
  unfolding quiet_drain
  InOrder-quiet_drain zero first f v = v
  InOrder-quiet_drain (suc fuel) first f v = elim (Bool-cases (ltb 0 (c.in_flight f.card))) [
    | inr e ↦ rw (quiet_drain, e) v
    | inl e ↦ collected e (λ g w. InOrder-quiet_drain fuel first g w) (c.collect f.card) refl
  ]
    where
      collected :
          ltb 0 (c.in_flight f.card) ≡ true
          → ((g : Feed c)
              → InOrder first g
              → InOrder first (quiet_drain c size batch target pow fuel g))
          → (r : Option (List ℕ × c.State)) → c.collect f.card ≡ r
          → InOrder first (quiet_drain c size batch target pow (suc fuel) f)
      collected some_left again none e = rw (quiet_drain, some_left, e) v
      collected some_left again (some (hits, card)) e =
          rw (quiet_drain, some_left, e) (again _ (InOrder-collect first f f.hashes v e))

  InOrder-run_job :
      (rounds first : ℕ) (f : Feed c)
      → InOrder first f
      → InOrder first (run_job c size batch target pow rounds f).0
  unfolding run_job
  InOrder-run_job rounds first f v =
      let w = InOrder-mining_rounds rounds first f v in
      let f' = mining_rounds c size batch target pow rounds f in
      elim (Bool-cases f'.1) [
        | inl failed ↦ rw failed (InOrder-quiet_drain (c.in_flight f'.0.card) first f'.0 w)
        | inr fine ↦ rw fine (InOrder-drain (c.in_flight f'.0.card) first f'.0 w)
      ]

  -- A job that starts on an empty queue with nonce n submits consecutive batches from n on (modulo
  -- 2^32); what is in flight afterwards is exactly what was sent and not collected, in order, and
  -- at most two batches; and every share was hashed on the CPU and meets the target there. This
  -- holds whichever calls of the card fail.
  pub run_job-in_order :
      (rounds : ℕ) (f : Feed c)
      → c.queued f.card ≡ []
      → f.sent ≡ []
      → f.taken ≡ 0
      → f.shares ≡ []
      → let g = (run_job c size batch target pow rounds f).0 in
        (g.sent ≡ starts batch (length g.sent) f.nonce)
        × (c.queued g.card ≡ drop g.taken g.sent)
        × (length (c.queued g.card) ≤ pipeline_depth)
        × All (λ (s : List ℕ × List ℕ). (pow s.0 ≡ s.1) × (meets target s.1 ≡ true)) g.shares
  run_job-in_order rounds f empty none_sent none_taken no_shares =
      let g = (run_job c size batch target pow rounds f).0 in
      let v : InOrder f.nonce g = InOrder-run_job rounds f.nonce f (record {
        sent_run = rw none_sent refl;
        nonce_run = rw none_sent refl;
        held = rw (none_taken, none_sent, empty) refl;
        taken_sent = rw (none_taken, none_sent) (omega arith);
        depth = rw (none_taken, none_sent) (omega arith);
        checked = rw no_shares tt;
      }) in
      (
        v.sent_run,
        v.held,
        omega (arith, ap length v.held, length-drop g.taken g.sent, v.depth),
        v.checked,
      )
