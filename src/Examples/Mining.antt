-- ===== src/Examples/Mining.antt =====
-- Runs on concrete inputs: the proof of work, the workers and the cards.
use derostorm.Base.{
  ℕ, ◌+◌, ◌-◌, ◌*◌, ◌/◌, ◌%◌, ◌^◌, ◌≤◌, ◌<◌, max, ◌≡◌, ◌≢◌, ◌⊎◌, refl, arith, true, false, ◌||◌,
  ◌&&◌, Option, none, some, List, [], ◌∷◌, ◌++◌, ltb, leb, length, drop, get_or, replicate, All,
}
use derostorm.Base.Int.{ℤ, negsuc, pos}
use derostorm.Difficulty.{IsHash, Target, new_target, check_pow_hash_big, meets, hash_to_big}
use derostorm.Difficulty.Meets.{meets-check_pow_hash_big}
use derostorm.Difficulty.HashBytes.{hash_to_big-from_le}
use derostorm.Affinity.{pin_to_cpu, pin_to_cpu-injective, pin_to_cpu-onto, pin_to_cpu-odd}
use mathlib.Core.Path.{sym}
use derostorm.Base.Bytes.{from_le}
use derostorm.Dsa.Words.{
  off, dlen, sort_key, column, make_desc, make_desc-fields, key32, key32-bytes, slide_key,
  slide_key-key32,
}
use derostorm.Dsa.Compare.{suffix_less_from, lex_less, suffix_less_from-lex_less}
use derostorm.Engine.Work.{stamp, with_nonce}
use derostorm.Engine.Work.Nonce.{cpu, tag_of, worker_inputs-distinct}
use derostorm.Engine.Mine.{Miner, single_rounds, mine_paired, Reporting, share_difficulty, submit}
use derostorm.Engine.Mine.{mine_job}
use derostorm.Engine.Mine.Valid.{IsValid, mine_job-IsValid}
use derostorm.Difficulty.{minimal_bytes, right_aligned, target_of_buffer}
use derostorm.Base.{if◌then◌else◌}
use derostorm.Engine.Mine.Pairing.{mine_paired-single_rounds}
use derostorm.Engine.Mine.Share.{submit-best_share}
use derostorm.Gpu.Workers.{Started, Gpus, max_gpus, want, find_worker, set_gpus}
use derostorm.Gpu.Workers.Added.{
  runs, times_started, missing, Fresh, with_started, wanted_workers, unwanted_stops, refusals,
}
use derostorm.Gpu.Workers.Changed.{set_gpus_lem}
use derostorm.Gpu.Pipeline.{Card, Feed, run_job, pipeline_depth}
use derostorm.Gpu.Pipeline.Order.{starts, run_job-in_order}
use derostorm.Gpu.Tune.{contains, raw_candidates, block_candidates, Ascending, block_candidates_lem}
use derostorm.Engine.Pool.{Pool, set_threads, set_threads_lem}

-- A hash that meets difficulty 3 and not difficulty 4.
abbrev hash : List ℕ
hash = 7 ∷ replicate 30 0 ++ 0x50 ∷ []

hash-IsHash : IsHash hash
hash-IsHash = (refl, ground arith)

meets-check_pow_hash_big_example :
    (t : Target) × (new_target 3 ≡ some t) × (check_pow_hash_big hash 3 ≡ some (meets t hash))
meets-check_pow_hash_big_example = meets-check_pow_hash_big hash 3 hash-IsHash (omega arith)

pin_to_cpu-injective_example : ◌≡◌ {A = ℕ} 3 3
pin_to_cpu-injective_example =
    pin_to_cpu-injective 3 3 8 6 (omega arith) (unfold pin_to_cpu in refl)
      (unfold pin_to_cpu in refl)

pin_to_cpu-onto_example :
    (slot : ℕ) × (slot < 8)
    × (pin_to_cpu (pos slot) 8 ≡ some 5)
    × (ltb slot (8 / 2) ≡ leb (5 % 2) 0)
pin_to_cpu-onto_example = pin_to_cpu-onto 8 5 refl (omega arith)

pin_to_cpu-odd_example : (pin_to_cpu (pos 3) 15 ≢ some 14) × (pin_to_cpu (pos 14) 15 ≡ none)
pin_to_cpu-odd_example = pin_to_cpu-odd 15 3 (omega arith) refl

hash_to_big-from_le_example : hash_to_big hash ≡ from_le hash
hash_to_big-from_le_example = hash_to_big-from_le hash

set_threads_lem_example :
    let p : Pool = record {
      workers = 4 ∷ 5 ∷ [];
      nthread = 2;
      fresh = 6;
      closed = [];
      started = [];
    } in
    let after = (set_threads (pos 4) p).0 in
    ((set_threads (pos 4) p).1 ≡ none)
    × (after.workers ≡ 4 ∷ 5 ∷ 6 ∷ 7 ∷ [])
    × (length after.workers ≡ 4)
    × (after.started ≡ record { slot = 2; stop = 6 } ∷ record { slot = 3; stop = 7 } ∷ [])
    × (after.closed ≡ [])
    × (after.nthread ≡ 4)
set_threads_lem_example =
    set_threads_lem
      (record { workers = 4 ∷ 5 ∷ []; nthread = 2; fresh = 6; closed = []; started = [] }) 4
      (omega arith)

abbrev cards : Gpus
cards = record {
  workers = (0, 7) ∷ (3, 8) ∷ [];
  ngpu = 2;
  fresh = 9;
  closed = [];
  started = [];
  refused = [];
}

-- Device 3 runs and is wanted, the others that run are not; 1 is new, and -1 is no device.
abbrev chosen : List ℤ
chosen = pos 3 ∷ pos 1 ∷ negsuc 0 ∷ []

set_gpus_lem_example :
    ((new : List Started) × ((set_gpus chosen cards).started ≡ cards.started ++ new)
      × (times_started 1 new ≡ missing chosen cards.workers 1)
      × Fresh cards.fresh new
      × ((set_gpus chosen cards).fresh ≡ cards.fresh + length new)
      × ((set_gpus chosen cards).workers ≡ with_started new (wanted_workers chosen cards.workers)))
    × ((set_gpus chosen cards).closed ≡ unwanted_stops chosen cards.workers ++ cards.closed)
    × ((set_gpus chosen cards).refused
        ≡ cards.refused ++ refusals chosen (wanted_workers chosen cards.workers))
    × ((set_gpus chosen cards).ngpu ≡ length (set_gpus chosen cards).workers)
    × (runs (find_worker (set_gpus chosen cards).workers 1)
        ≡ (want chosen 1 && (runs (find_worker cards.workers 1) || ltb 1 max_gpus)))
    × (((want chosen 1 && runs (find_worker cards.workers 1)) ≡ false)
        ⊎ (find_worker (set_gpus chosen cards).workers 1 ≡ find_worker cards.workers 1))
set_gpus_lem_example = set_gpus_lem chosen cards 1

block_candidates_lem_example :
    Ascending (block_candidates 84 504)
    × (contains (block_candidates 84 504) 168
        ≡ (contains (raw_candidates 84 504) 168 && (leb 1 168 && leb 168 504)))
    × (contains (block_candidates 84 504) 504 ≡ leb 1 504)
block_candidates_lem_example = block_candidates_lem 84 504 168

hash_meets : check_pow_hash_big hash 3 ≡ some true
unfolding check_pow_hash_big hash_to_big
hash_meets = refl

submit-best_share_example :
    let e : Reporting = record {
      submitted = 2;
      best_share = 1;
      last_share_ns = 0;
      conn = true;
      sent = [];
    } in
    (3 ≤ share_difficulty hash)
    × ((submit 5 [] hash e).best_share ≡ max 1 (share_difficulty hash))
    × ((submit 5 [] hash e).submitted ≡ 3)
    × (share_difficulty hash < 2 ^ 64)
submit-best_share_example =
    submit-best_share 5 3 [] hash
      (record { submitted = 2; best_share = 1; last_share_ns = 0; conn = true; sent = [] })
      (omega arith) (omega arith) (omega arith) hash_meets

abbrev plain_work : List ℕ
plain_work = replicate 48 1

abbrev random_bytes : List ℕ
random_bytes = replicate 12 9

same_input :
    with_nonce 48 (stamp 48 (tag_of (cpu 5)) random_bytes plain_work) 8
    ≡ with_nonce 48 (stamp 48 (tag_of (cpu 5)) random_bytes plain_work) (8 + 2 ^ 32)
unfolding with_nonce stamp
same_input = refl

worker_inputs-distinct_example :
    (cpu 5 ≡ cpu 5) × (◌≡◌ {A = ℕ} (8 % 2 ^ 32) ((8 + 2 ^ 32) % 2 ^ 32))
worker_inputs-distinct_example =
    worker_inputs-distinct 48 (omega arith) (cpu 5) (cpu 5) 8 (8 + 2 ^ 32) random_bytes random_bytes
      plain_work plain_work (omega arith) (omega arith) refl refl refl refl same_input

-- A stand-in for the proof of work, and the miner of one thread.
abbrev toy_pow : List ℕ → List ℕ
toy_pow work = drop 16 work

abbrev toy_pair : List ℕ → List ℕ → List ℕ × List ℕ
toy_pair a b = (toy_pow a, toy_pow b)

abbrev toy_miner : Miner
toy_miner = record { i = 0; hashes = 0; work = plain_work; shares = [] }

abbrev toy_target : Target
toy_target = record { limb0 = 0; limb1 = 0; limb2 = 0; limb3 = 2 ^ 56; all = false }

mine_paired-single_rounds_example :
    ((mine_paired 48 toy_target toy_pair 2 toy_miner).0.shares
      ≡ (single_rounds 48 toy_target toy_pow (2 * 2) toy_miner).shares)
    × ((mine_paired 48 toy_target toy_pair 2 toy_miner).0.hashes
        ≡ (single_rounds 48 toy_target toy_pow (2 * 2) toy_miner).hashes)
    × ((mine_paired 48 toy_target toy_pair 2 toy_miner).0.i
        ≡ (single_rounds 48 toy_target toy_pow (2 * 2) toy_miner).i)
mine_paired-single_rounds_example =
    mine_paired-single_rounds 48 (omega arith) toy_target toy_pow toy_pair (λ a b. refl) 2 toy_miner
      refl

-- A card whose batches have their first nonce as the only hit.
abbrev toy_collect : List ℕ → Option (List ℕ × List ℕ)
toy_collect [] = none
toy_collect (x ∷ s) = some (x ∷ [], s)

some-injective : (x y : List ℕ) → some x ≡ some y → x ≡ y
some-injective x y e = ground (arith, e)

toy_collect_oldest :
    (s hits t : List ℕ) → toy_collect s ≡ some (hits, t) → (start : ℕ) × (s ≡ start ∷ t)
toy_collect_oldest [] hits t e = absurd (ground (arith, e))
toy_collect_oldest (x ∷ s) hits t e = (x, ground (arith, e))

abbrev toy_card : Card
toy_card = record {
  State = List ℕ;
  queued = λ s. s;
  submit = λ s start. some (s ++ start ∷ []);
  collect = toy_collect;
  in_flight = length;
  submit_queues = λ s start {t} e. some-injective t (s ++ start ∷ []) (sym e);
  collect_oldest = λ s {hits} {t} e. toy_collect_oldest s hits t e;
  in_flight_counts = λ s. refl;
}

abbrev toy_feed : Feed toy_card
toy_feed = record {
  card = [];
  nonce = 2 ^ 32 - 1;
  hashes = 0;
  work = plain_work;
  shares = [];
  rejected = 0;
  sent = [];
  taken = 0;
}

run_job-in_order_example :
    let g = (run_job toy_card 48 100 toy_target toy_pow 3 toy_feed).0 in
    (g.sent ≡ starts 100 (length g.sent) (2 ^ 32 - 1))
    × (toy_card.queued g.card ≡ drop g.taken g.sent)
    × (length (toy_card.queued g.card) ≤ pipeline_depth)
    × All (λ (s : List ℕ × List ℕ). (toy_pow s.0 ≡ s.1) × (meets toy_target s.1 ≡ true)) g.shares
run_job-in_order_example =
    run_job-in_order toy_card 48 100 toy_target toy_pow 3 toy_feed refl refl refl refl

abbrev text : List ℕ
text = 1 ∷ 2 ∷ 1 ∷ 2 ∷ 1 ∷ 2 ∷ 1 ∷ 2 ∷ 1 ∷ 2 ∷ 1 ∷ 2 ∷ []

suffix_less_from-lex_less_example :
    suffix_less_from text 12 2 0 4 ≡ lex_less (drop 2 text) (drop 0 text)
suffix_less_from-lex_less_example =
    suffix_less_from-lex_less text 2 0 4 (ground arith) (omega arith) (omega arith) (λ _ _. refl)

make_desc-fields_example :
    (off (make_desc 0x10203 255 7 2) ≡ 7)
    × (dlen (make_desc 0x10203 255 7 2) ≡ 2)
    × (sort_key (make_desc 0x10203 255 7 2) ≡ 0x10203)
    × (column (make_desc 0x10203 255 7 2) ≡ 255)
make_desc-fields_example =
    make_desc-fields 0x10203 255 7 2 (omega arith) (omega arith) (omega arith) (omega arith)

key32-bytes_example :
    key32 text 12 10
    ≡ get_or text 10 0 * 65536 + get_or text (10 + 1) 0 * 256 + get_or text (10 + 2) 0
key32-bytes_example = key32-bytes text 10 (ground arith)

slide_key-key32_example : slide_key (get_or text 10 0) (key32 text 12 (10 + 1)) ≡ key32 text 12 10
slide_key-key32_example = slide_key-key32 text 10 (ground arith)

abbrev third : Target
third = record {
  limb0 = 0x5555555555555555;
  limb1 = 0x5555555555555555;
  limb2 = 0x5555555555555555;
  limb3 = 0x5555555555555555;
  all = false;
}

third-new_target : new_target 3 ≡ some third
unfolding new_target minimal_bytes right_aligned target_of_buffer
third-new_target = refl

abbrev constant_pow : List ℕ → List ℕ
constant_pow work = hash

mine_job-IsValid_example :
    All
      (IsValid (if ltb 600 500 then constant_pow else constant_pow) 3)
      (mine_job 48 third constant_pow constant_pow
        (λ a b. (hash, hash))
        500
        true
        600
        2
        toy_miner).shares
mine_job-IsValid_example =
    mine_job-IsValid 48 3 third (omega arith) third-new_target constant_pow constant_pow
      (λ a b. (hash, hash)) 500 600 2 true toy_miner (omega arith) refl refl (λ w. hash-IsHash)
      (λ w. hash-IsHash) (λ a b. refl)
