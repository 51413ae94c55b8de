-- ===== src/Lib.antt =====
-- DEROSTORM is a miner for DERO. This library models the Go program: its proof-of-work test, the
-- engine that runs the CPU workers, the queue of batches on a GPU, the descriptor suffix sort
-- behind the hash, and the text console's cell grid.
--
-- How the parts work together: RunGetWork keeps the current job; every CPU worker (RunMiner) and
-- every GPU worker (RunGPUMiner) stamps the job's blob with its random bytes and its tag, tries
-- nonces, tests each hash against the job's Target, and hands what meets it to submit. SetThreads
-- and SetGPUs start and stop the workers. The hash itself is astrobwt's, outside the sources; its
-- suffix array is replaced by internal/dsa. The console draws what the engine counts into a canvas.
--
-- Which file models what:
--   Base/*        shared helpers: Boolean tests, lists, bytes, bit_or on disjoint bits, integers
--   Difficulty/*  cmd/derostorm/difficulty.go (HashToBig, CheckPowHashBig) and target.go (NewTarget,
--                 Meets); a big.Int is a native number, a division by zero or a panic is `none`
--   Engine/Pool   cmd/derostorm/engine.go: SetThreads
--   Engine/Work   engine.go: the start of a job in RunMiner, and gpu_worker.go: gpuNonceTag
--   Engine/Mine   engine.go: the mining loops of RunMiner, submit, shareDifficulty
--   Engine/GetWork engine.go: RunGetWork, driven by a list of what the network and Stop do
--   Gpu/Workers   cmd/derostorm/gpu_worker.go: SetGPUs
--   Gpu/Pipeline  gpu_worker.go: the body of RunGPUMiner for one job, over the interface Card
--   Gpu/Tune      cmd/derostorm/gpu_tune.go: blockCandidates, newBlockTuner
--   Affinity      cmd/derostorm/affinity.go and thread_linux.go: which CPU a slot is bound to
--   Commands      cmd/derostorm/commands.go: Editor.Feed, ReadCommands, parseThreadArg
--   Dsa/*         internal/dsa/dsa.go. Words, Compare: descriptors, key32, suffixLessFrom; Column:
--                 columnStepKeys; Emit: emitRun for one and two blocks; Emit/Run: for more, with
--                 the mask of Emit/Constant; Emit/Blocks: blockDiff, the runs and the tail of
--                 SuffixArray; Radix (on the counting pass of Buckets): sortDesc; Groups: the
--                 groups and their merges; Sort: getScratch and SuffixArray. The other files
--                 prove: Bounds about the room in s.desc and s.desc2, Suffix about the order of
--                 suffixes, Emit/Mask and Still about the mask,
--                 First about the first order, Valid to Loop about the columns of a run, Start,
--                 Single, Pair and Turn about whole runs, Runs about all runs; Groups/*, Finish and
--                 Whole about what follows the emission, and about SuffixArray
--   Ui/*          internal/ui/text.go, format.go (Commas), canvas.go (Set, Resize, Clear; Ui/Draw:
--                 Text, HLine, VLine, Fill; Ui/Rects: Inset2, Cols)
--   LogView       cmd/derostorm/tui_state.go: logView.apply
--   NodeInfo      cmd/derostorm/nodeinfo.go: poll
--   Examples/*    the theorems applied to concrete inputs
--
-- Conventions: a field of a mutable struct is a field of a record that is passed on; a uint32 or a
-- uint64 that wraps is written with `% 2 ^ w`; a byte slice is a list of numbers, and a theorem that
-- needs them to be bytes says so; a stop channel is a number. Go code behind a C library, the
-- proof-of-work functions and block.MINIBLOCK_SIZE are parameters.
--
-- Bounds and fuel: big.Int.Bytes runs on 32 rounds, one for each digit of a number below 256^32;
-- FormatUint on 20 rounds, since a uint64 has at most 20 digits; the loops of SetThreads on as many
-- rounds as workers can be missing or be too many; fill on the depth of the pipeline and drain on
-- the number of batches in flight. The loop over the runs of a text has one round for
-- each block, the merge tree one for each list. The mining loops take the number of rounds as an
-- argument, since it is the environment that ends them.
--
-- In Dsa the slices of a scratch object that a call fills are lists that start empty; what an earlier
-- call left behind them (`slack`, `tmp`, the content of s.desc2) is an argument. s.desc and s.desc2
-- have the places that getScratch and the retry give them: an index beyond is a panic, `none`. The
-- bounds of the other arrays are not checked. A text is shorter than 2^31, and at most 2^20 where a
-- theorem about packed offsets says so.
--
-- Not modelled: the vendored packages, the C and CUDA kernels and the loaders that bind them, the
-- terminals of the operating systems, network and file access, and floating-point formatting.
pub mod Base
pub mod Difficulty
pub mod Dsa
pub mod Engine
pub mod Gpu
pub mod Affinity
pub mod Ui
pub mod Commands
pub mod LogView
pub mod NodeInfo
pub mod Examples
