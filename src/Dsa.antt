-- ===== src/Dsa.antt =====
-- internal/dsa/dsa.go: the structure-exploiting suffix sort. A text is a list of bytes, a slice is a
-- list, a uint32 is a native number with its wrap-around written out.
pub mod Words
pub mod Compare
pub mod Suffix
pub mod Buckets
pub mod Radix
pub mod Column
pub mod Emit
pub mod Groups
pub mod Sort
pub mod Finish
pub mod Whole
pub mod Bounds
