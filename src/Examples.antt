-- ===== src/Examples.antt =====
-- Runs of the theorems on concrete inputs.
pub mod Mining
pub mod Console
pub mod Session
pub mod Suffixes
