-- ===== src/Probe.antt =====
-- The probe library src/probe/perfhound.c with its files in src/probe/ph_io.c: its state, and what
-- it takes from the machine.
pub mod Number
pub mod Row
pub mod Buffer
pub mod Setup
pub mod Demo
pub mod Paths
mod Tests
use perf_hound.Prelude.{ℕ, ◌+◌, ◌*◌, List, Bytes, Bool}

-- The build options PH_OPT_TS, PH_OPT_EV and PH_OPT_EVX on x86.
pub data Mode : Type 0 where
  ts ev evx : Mode

-- `ph_nev_max`.
abbrev pub nev_max : Mode → ℕ
nev_max Mode.evx = 8
nev_max _ = 4

-- `PH_NEV`, the slots of a record.
abbrev pub slots : Mode → ℕ
slots Mode.evx = 12
slots _ = 4

-- `sizeof(rec_t)`, which is packed: two tags of 4 bytes and three words in front of the slots.
abbrev pub rec_size : Mode → ℕ
rec_size o = 32 + 8 * slots o

-- How many slots a reading writes: none, `_ph_read_pm_ev` or `_ph_read_pm_evx`.
abbrev pub counters_read : Mode → ℕ
counters_read Mode.ts = 0
counters_read Mode.ev = 4
counters_read Mode.evx = 8

-- What the processor's counters show at one reading.
pub record Sample : Type 0 where
  pub cy : ℕ
  pub ns : ℕ
  pub pmc : ℕ → ℕ

-- The machine: doubles with `%f` and the conversion of a number, the successive readings of the
-- counters, whether the successive attempts to open the record file succeed, and the counters
-- with the two calls that configure them and set them (Pmu has these).
pub record Machine : Type 1 where
  pub Double : Type 0
  pub of_uint : ℕ → Double
  pub print_f : Double → Bytes
  pub sample : ℕ → Sample
  pub opens : ℕ → Bool
  pub Pmu : Type 0
  pub wr_cfgs : ℕ → List ℕ → Pmu → Pmu
  pub wr_cnts : ℕ → List ℕ → Pmu → Pmu

module _ (h : Machine) where
  open h use {Double}

  -- `rec_t`.
  pub record Rec : Type 0 where
    pub gid : ℕ
    pub pid : ℕ
    pub cy : ℕ
    pub ns : ℕ
    pub uval : Double
    pub ev : List ℕ

  -- The globals of perfhound.c, the count of records in ph_io.c and the files of a run. `ticks`
  -- and `attempts` count the readings of the counters and the openings of the record file.
  pub record State : Type 0 where
    pub buf_nrec : ℕ
    pub irec : ℕ
    pub ready : Bool
    pub nev : ℕ
    pub evcodes : List ℕ
    pub precs : List Rec
    pub nrec_tot : ℕ
    pub ticks : ℕ
    pub attempts : ℕ
    pub rec_file : Bytes
    pub etag_file : Bytes
    pub ctag_file : Bytes
    pub rankmap_file : Bytes
    pub info_file : Bytes
    pub pmu : h.Pmu
