-- ===== src/Gpu.antt =====
-- cmd/derostorm/gpu_worker.go and cmd/derostorm/gpu_tune.go: which devices mine, how batches are
-- queued on a card, and which block counts are tried.
pub mod Workers
pub mod Pipeline
pub mod Tune
