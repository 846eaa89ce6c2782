-- ===== src/Interval.antt =====
-- The interval tool src/utils/pfh_interval2csv.c, which computes the differences between two points
-- of the record files of a run.
pub mod Scan
pub mod Lines
pub mod Pairs
pub mod Events
pub mod Meaning
pub mod Refines
pub mod Files
pub mod Outcome
pub mod Moves
pub mod Halts
pub mod Written
pub mod Rank
pub mod EndToEnd
pub mod Spread
pub mod Turns
pub mod Rankmap
pub mod Arguments
pub mod Demo
mod Tests
use perf_hound.Prelude.{ℕ, Bytes}

-- The points of `arg_t`: the tags as words of 32 bits.
pub record Points : Type 0 where
  pub sgid : ℕ
  pub spid : ℕ
  pub egid : ℕ
  pub epid : ℕ

-- One record file of `arg_t`: an entry of `hosts`, `ranks` and `cpus`.
pub record Job : Type 0 where
  pub host : Bytes
  pub rank : ℕ
  pub cpu : ℕ
