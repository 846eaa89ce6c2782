-- ===== src/Event.antt =====
-- src/probe/ph_evt_x86.c: named hardware events and their parser.
pub mod Entry
pub mod UmasksLow
pub mod UmasksMid
pub mod UmasksHigh
pub mod UmasksTop
pub mod Events
pub mod Libc
pub mod Parse
pub mod Word
pub mod Result
pub mod Kept
pub mod Names
mod Tests
