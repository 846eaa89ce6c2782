-- ===== src/Mpi.antt =====
-- src/probe/ph_mpi.c: the probe's calls in a program with several ranks, as one rank makes them.
pub mod Reading
pub mod Steps
pub mod Ring
pub mod Start
mod Tests
use perf_hound.Prelude.{
  ℕ, suc, ◌+◌, ◌-◌, ◌%◌, ◌^◌, Bool, true, ◌==◌, leb, if◌then◌else◌, Option, none, some, Bytes,
}
use perf_hound.Prelude.Run.{Run, done, exited, ◌>>=◌}
use perf_hound.Bits.{u32}
use perf_hound.Probe.{Machine, Mode, State}
use perf_hound.Probe.Row.{wtrec}
use perf_hound.Probe.Buffer.{put}
use perf_hound.Probe.Setup.{Process, config_event, mkrec, wtctag, wtinfo}

-- The counters that the switch over `ph_nev` reads; `_ph_read_pm_9` and so on are empty.
unfoldable pub switch_counters : ℕ → ℕ
switch_counters nev = if leb nev 8 then nev else 0

module _ (h : Machine) (o : Mode) where
  open h use {Double, of_uint}

  unfoldable pub phmpi_fastread : ℕ → ℕ → Double → State h → Run (State h)
  phmpi_fastread gid pid uval s = put h o (switch_counters s.nev) gid pid uval s

  -- "Step back for recording writing time".
  abbrev pub step_back : State h → State h
  step_back s =
      if leb s.buf_nrec s.irec then record s { irec = u32 (s.buf_nrec + 2 ^ 32 - 1) } else s

  unfoldable pub phmpi_dump : State h → Run (State h)
  phmpi_dump s = if s.irec == 0 then done s else (do
    t ← phmpi_fastread 0 3 (of_uint 0) (step_back s)
    written ← wtrec h t.irec t
    phmpi_fastread 0 4 (of_uint 0) (record (written.1) { irec = 0 }))

  -- `ph_irec+1 >= buf_nrec`.
  abbrev pub nearly_full : State h → Bool
  nearly_full s = leb s.buf_nrec (u32 (s.irec + 1))

  unfoldable pub phmpi_read : ℕ → ℕ → Double → State h → Run (State h)
  phmpi_read gid pid uval s =
      if nearly_full s
      then (phmpi_dump s >>= λ t. phmpi_fastread gid pid uval (record t { irec = 0 }))
      else (do t ← phmpi_fastread gid pid uval s; (if nearly_full t then phmpi_dump t else done t))

  -- `phmpi_commit` behind the configuration of the counters.
  unfoldable pub phmpi_start_reading : State h → Run (State h)
  phmpi_start_reading s = elim (mkrec h o s) [
    | none ↦ exited 1
    | some t ↦ phmpi_fastread 0 1 (of_uint 0) (record t { ready = true; irec = 0 })
  ]

  unfoldable pub phmpi_commit : State h → Run (State h)
  phmpi_commit s = config_event h o s >>= phmpi_start_reading

  unfoldable pub phmpi_set_tag : ℕ → ℕ → ℕ → Bytes → State h → ℕ × State h
  phmpi_set_tag rank gid pid tag s = (0, if rank == 0 then wtctag h o gid pid tag s else s)

  unfoldable pub phmpi_finalize : Process → Bool → State h → Run (State h)
  phmpi_finalize p opened s = do
    t ← phmpi_read 0 2 (of_uint 0) s
    written ← wtrec h t.irec t
    done (if p.rank == 0 then (wtinfo h o p opened (written.1)).1 else written.1)
