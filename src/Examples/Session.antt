-- ===== src/Examples/Session.antt =====
-- Runs on concrete inputs: the session with the node, the typed commands, the radix sort.
use derostorm.Base.{
  ℕ, ◌+◌, ◌≤◌, ◌<◌, ◌≡◌, ◌≢◌, ◌⊎◌, refl, arith, true, false, none, some, List, [], ◌∷◌, length, All,
}
use derostorm.Base.Int.{pos}
use derostorm.Engine.GetWork.{
  connecting, mining, Job, at_dial, reading, returned, Session, Happening, stop, dial_failed,
  dialed, read_failed, received, run,
}
use derostorm.Engine.GetWork.Shown.{run-state_shown}
use derostorm.Engine.GetWork.Accepted.{count_accepted, Rising, run-accepted_bound}
use derostorm.Engine.Pool.{Pool, set_threads}
use derostorm.Commands.{read_commands, parse_thread_arg, adjusted, in_range, parse_count, atoi}
use derostorm.Commands.Typed.{IsLine, read_commands-IsLine, parse_thread_arg-set_threads}
use derostorm.Engine.Work.{set_string, unsigned_string, decimal_value}
use derostorm.NodeInfo.{Info, no_note, NodeWatcher, polls, polls-endpoint}
use derostorm.Dsa.Words.{Desc, sort_key}
use derostorm.Dsa.Buckets.{bucket}
use derostorm.Dsa.Buckets.Stable.{SortedBy}
use derostorm.Dsa.Radix.{sort_desc}
use derostorm.Dsa.Radix.Sorted.{sort_desc-SortedBy}

abbrev job_with : ℕ → Job
job_with n = record {
  blob = [];
  difficulty = [];
  height = 7;
  mini_blocks = n;
  blocks = 0;
  rejected = 0;
  last_error = [];
}

abbrev start : Session
start = record {
  phase = at_dial;
  first = true;
  quit = false;
  state = connecting;
  conn = none;
  connected_ns = 0;
  job = job_with 0;
  job_counter = 0;
  last_job_ns = 0;
  block_event_ns = 0;
  posts = [];
}

abbrev evening : List Happening
evening =
    dial_failed
    ∷ dialed 1 5
    ∷ received (job_with 0) 6
    ∷ received (job_with 2) 7
    ∷ read_failed
    ∷ dialed 2 9
    ∷ received (job_with 3) 10
    ∷ stop
    ∷ read_failed
    ∷ []

idle : start.state ≢ mining
idle h = ground (arith, h)

run-state_shown_example :
    (((run evening start).phase ≡ at_dial) × ((run evening start).state ≢ mining))
    ⊎ (((c : ℕ) × ((run evening start).phase ≡ reading) × ((run evening start).conn ≡ some c))
        ⊎ ((run evening start).phase ≡ returned))
run-state_shown_example = run-state_shown evening start refl idle

evening-Rising : Rising 0 evening
evening-Rising = (omega arith, (omega arith, (omega arith, tt)))

run-accepted_bound_example :
    count_accepted (run evening start).posts + start.job.mini_blocks
    ≤ count_accepted start.posts + (run evening start).job.mini_blocks
run-accepted_bound_example = run-accepted_bound evening start evening-Rising

abbrev typed : List ℕ
typed = b't' ∷ b'x' ∷ 0x08 ∷ b' ' ∷ b'4' ∷ 0x0d ∷ 0x1b ∷ 0x0a ∷ []

read_commands-IsLine_example :
    All (λ l. (0 < length l) × IsLine l) (read_commands (b' ' ∷ []) typed)
read_commands-IsLine_example =
    read_commands-IsLine (b' ' ∷ []) typed (omega arith, ((omega arith, omega arith), tt))

abbrev two_threads : Pool
two_threads = record { workers = 4 ∷ 5 ∷ []; nthread = 2; fresh = 6; closed = []; started = [] }

plus_four : parse_thread_arg (b'+' ∷ b'4' ∷ []) 2 ≡ some 6
unfolding parse_thread_arg parse_count adjusted in_range atoi set_string unsigned_string
    decimal_value
plus_four = refl

parse_thread_arg-set_threads_example : (set_threads (pos 6) two_threads).1 ≡ none
parse_thread_arg-set_threads_example =
    parse_thread_arg-set_threads (b'+' ∷ b'4' ∷ []) 2 6 two_threads plus_four

abbrev descs : List Desc
descs =
    record { key = 0x05000002; packed = 1 }
    ∷ record { key = 0x01001001; packed = 2 }
    ∷ record { key = 0x02000002; packed = 3 }
    ∷ []

sort_desc-SortedBy_example :
    SortedBy sort_key (sort_desc descs descs)
    × (bucket sort_key 2 (sort_desc descs descs) ≡ bucket sort_key 2 descs)
    × (length (sort_desc descs descs) ≡ length descs)
sort_desc-SortedBy_example = sort_desc-SortedBy descs descs 2 (omega arith) refl (omega arith)

abbrev info : Info
info = record { ok = true; figures = 9; endpoint = [] }

abbrev watcher : NodeWatcher
watcher = record {
  cur = record info { endpoint = b'b' ∷ [] };
  note = no_note;
  endpoints = (b'a' ∷ []) ∷ (b'b' ∷ []) ∷ [];
}

polls-endpoint_example :
    (polls ((λ url. none) ∷ (λ url. some info) ∷ []) watcher).cur.endpoint ≡ b'b' ∷ []
polls-endpoint_example =
    polls-endpoint ((λ url. none) ∷ (λ url. some info) ∷ []) watcher (omega arith)
