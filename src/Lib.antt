-- ===== src/Lib.antt =====
-- PerfHound, a tool set for performance measurement: a kernel module that gives access to the
-- performance counters, a library that a program is instrumented with, and tools that read its
-- records. The probe src/probe/perfhound.c samples the counters into a buffer of records, which it
-- writes as text through src/probe/ph_io.c; src/probe/ph_mpi.c is the probe of a program with
-- several ranks, and src/probe/ph_pmu_x86.c writes the files of the kernel module.
--
-- The kernel module src/kmod/x86/enable_pmu_x86.c exports the configuration, the mask and the
-- value of the counters as files of 64-bit words, which the probe writes and reads; the words are
-- built by the event parser src/probe/ph_evt_x86.c. The modules are:
--
--   Prelude: the shared names, comparisons, arrays as lists, strings as lists of bytes, and how a
--     call ends.
--   Bits: `|`, `&`, `~` and shifts on words, one bit at a time and as arithmetic.
--   Kmod: the kernel module. Kmod/Vectors: OV, ZV, BV and CV. Kmod/Msr: pfcRDMSR and pfcWRMSR on a
--     register file. Kmod/Counters: the pfcFfCnt and pfcGpCnt functions. Kmod/Sysfs:
--     pfcClampRange, pfcIsAligned and the handlers pfcCfgRd, pfcCfgWr, pfcMskRd, pfcCntRd and
--     pfcCntWr, whose shared loops are `read_words` and `write_words`. Kmod/Startup:
--     ph_pmu_init_cpuid and ph_pmu_init_counters. Kmod/Load: ph_enable_pmu_init and
--     ph_enable_pmu_exit.
--   Probe: perfhound.c with ph_io.c and include/ph_core.h. Probe/Paths: the directories, files and
--     time stamps of ph_io.c and their making in ph_init, on a file system `Os` with its laws.
--     Probe/Number: the text of numbers. Probe/Row: ph_io_wtrec, whose lines Probe/Row/ReadBack
--     reads back. Probe/Buffer: ph_read (put, check_buffer, read) and ph_dump (dump_by, dump).
--     Probe/Setup/Begin: ph_init. Probe/Setup: ph_set_tag, ph_set_evt, ph_commit and ph_finalize,
--     the files of ph_io.c that they write, and phmpi_set_evt of ph_mpi.c. Probe/Buffer/Read and
--     Probe/Buffer/Log: one reading and a sequence of readings. Probe/Setup/Session: whole runs.
--   Mpi: the readings of ph_mpi.c (Mpi/Reading, Mpi/Steps) and ph_mpi_mkhost of mpi_op.c as a
--     relation of steps (Mpi/Ring). Mpi/Start: phmpi_init with ph_mpi_rank_init, for all ranks
--     (Mpi/Start/Ranks) and as the begin of a whole run of one rank (Mpi/Start/Whole).
--   Pmu: ph_pmu_wr_cfgs and ph_pmu_wr_cnts of ph_pmu_x86.c as calls of the handlers of Kmod;
--     Pmu/Configured goes from the names of events to the registers. Pmu/Client: ph_pmu_init and
--     ph_pmu_fini, with pfcCR4PceRd; Pmu/Client/Loaded is the two parts together, from the loading
--     of the module to the opening of its files.
--   Interval: the tool src/utils/pfh_interval2csv.c. Interval/Scan: step_to, strtol and strtoull
--     on the text of a file. Interval/Lines: the loop of calc_interval over the lines;
--     Interval/Events, Pairs and Meaning say what it does on the lines of Probe/Row,
--     Interval/Refines and Outcome put that together, and Interval/Moves and Halts show that it
--     ends. Interval/Files: the files of calc_interval, whose contents are in Interval/Written and
--     Rank. Interval/EndToEnd: the record file of a session of Probe in the tool. Interval/Spread
--     and Interval/Rankmap: init_rankmap. Interval/Arguments: init_arg. Interval/Turns: the
--     messages of calc_interval as a relation of steps.
--   Event: UMASK_LIST and EVENT_LIST, entry for entry, and ph_pmu_parse_cfg. Event/Libc has the C
--     library's strncasecmp, isdigit and strtoull; Event/Kept relates the parser to the module's
--     event filter.
--
-- The register file is a parameter, `MsrFile`: the processor's rdmsr and wrmsr, with a predicate
-- for the registers that hold what is written to them, of which nothing is assumed about counters
-- that run. CPUID and the capability register are arguments. The calls of the kernel by which the
-- module is loaded are a parameter, `Kernel` of Kmod/Load, with what is relied on in `IsLawful`
-- and `IsRdpmcOn`. So is the machine of the probe, `Machine`: doubles and their text, what the
-- counters show at each reading, and whether the record file opens. The array of zeros in
-- _ph_config_event is read by `first_words`, and the records of the buffer are those that lie
-- within the allocated bytes. HOME and the directory of the user are part of the file system `Os`.
-- The recursion of ph_read through ph_dump has a depth of at most two, which read_lem shows to be
-- enough. ph_evcodes and the record buffer are lists, and an access out of them is `fault`. The
-- text of a number has room for twenty decimal or sixteen hexadecimal digits, enough for 64 bits.
-- A string is the list of its bytes without the NUL, and `at` is the NUL behind the last byte.
--
-- Not modelled: messages; the ARM kernel module and probe headers, whose code is inline assembly;
-- main of the interval tool and its build with RDTSCP, the RDMA example and the tools that only
-- print.
pub mod Prelude
pub mod Bits
pub mod Kmod
pub mod Event
pub mod Probe
pub mod Mpi
pub mod Pmu
pub mod Interval
