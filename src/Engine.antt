-- ===== src/Engine.antt =====
-- cmd/derostorm/engine.go: the mining engine. A goroutine that is started is recorded with the slot
-- and the stop channel that it was given.
pub mod Pool
pub mod Work
pub mod Mine
pub mod GetWork
