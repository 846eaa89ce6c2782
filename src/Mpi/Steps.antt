-- ===== src/Mpi/Steps.antt =====
-- What one call of `phmpi_read` does to the buffer and to the file.
use perf_hound.Prelude.{
  ℕ, ◌+◌, ◌-◌, ◌^◌, ◌≤◌, ◌<◌, ◌≡◌, refl, arith, true, false, Bool-cases, inl, inr, leb,
}
use perf_hound.Prelude.Run.{done}
use perf_hound.Probe.{Machine, Mode, Rec, State}
use perf_hound.Probe.Buffer.Put.{IsBuffer, IsReading, appended}
use perf_hound.Probe.Buffer.Read.{flushed}
use perf_hound.Mpi.Reading.{clipped, fastread_lem, dump_lem, reset-IsBuffer}
use perf_hound.Mpi.{switch_counters, phmpi_fastread, phmpi_dump, nearly_full, phmpi_read}

module _ (h : Machine) (o : Mode) where
  open h use {Double, of_uint}

  -- The three ways a reading goes: the record is buffered; or it takes the last slot but one and
  -- the buffer is dumped behind it; or the buffer is dumped first, with one step back if it is
  -- full, and the record takes the place of the one that ends the dump.
  pub data Step (gid pid : ℕ) (uval : Double) (s : State h) : State h → Type 0 where
    buffered :
        (r : Rec h)
        → IsReading h o (switch_counters s.nev) gid pid uval s.ticks r
        → s.irec + 2 < s.buf_nrec
        → Step gid pid uval s (appended h o r s)
    dumped_behind :
        (r a b : Rec h)
        → IsReading h o (switch_counters s.nev) gid pid uval s.ticks r
        → IsReading h o (switch_counters s.nev) 0 3 (of_uint 0) (s.ticks + 1) a
        → IsReading h o (switch_counters s.nev) 0 4 (of_uint 0) (s.ticks + 1 + 1) b
        → s.irec + 2 ≡ s.buf_nrec
        → Step gid pid uval s
            (appended h o b (flushed h o (appended h o a (clipped h o (appended h o r s)))))
    dumped_before :
        (a b r : Rec h)
        → IsReading h o (switch_counters s.nev) 0 3 (of_uint 0) s.ticks a
        → IsReading h o (switch_counters s.nev) gid pid uval (s.ticks + 1 + 1) r
        → s.buf_nrec ≤ s.irec + 1
        → Step gid pid uval s (
            appended h o r
              (record (appended h o b (flushed h o (appended h o a (clipped h o s)))) { irec = 0 }))

  before_steps :
      (gid pid : ℕ) (uval : Double) (s t u : State h)
      → nearly_full h o s ≡ true
      → phmpi_dump h o s ≡ done t
      → phmpi_fastread h o gid pid uval (record t { irec = 0 }) ≡ done u
      → phmpi_read h o gid pid uval s ≡ done u
  unfolding phmpi_read
  before_steps gid pid uval s t u full dumps reads = rw (phmpi_read, full, dumps, reads) refl

  plain_steps :
      (gid pid : ℕ) (uval : Double) (s t : State h)
      → nearly_full h o s ≡ false
      → phmpi_fastread h o gid pid uval s ≡ done t
      → nearly_full h o t ≡ false
      → phmpi_read h o gid pid uval s ≡ done t
  unfolding phmpi_read
  plain_steps gid pid uval s t free reads more = rw (phmpi_read, free, reads, more) refl

  behind_steps :
      (gid pid : ℕ) (uval : Double) (s t u : State h)
      → nearly_full h o s ≡ false
      → phmpi_fastread h o gid pid uval s ≡ done t
      → nearly_full h o t ≡ true
      → phmpi_dump h o t ≡ done u
      → phmpi_read h o gid pid uval s ≡ done u
  unfolding phmpi_read
  behind_steps gid pid uval s t u free reads full dumps =
      rw (phmpi_read, free, reads, full, dumps) refl

  -- With a fit buffer of fewer than 2^32 - 1 records and at most a full buffer, a reading of the
  -- MPI library ends without a fault and leaves a fit buffer with two free slots: the record is
  -- buffered, or it takes the last slot but one and the buffer is dumped behind it, or the buffer
  -- is dumped first and the record takes the place of the one that ends the dump.
  pub phmpi_read_lem :
      (gid pid : ℕ) (uval : Double) (s : State h)
      → IsBuffer h o s
      → s.irec ≤ s.buf_nrec
      → s.buf_nrec < 2 ^ 32 - 1
      → (t : State h) × (phmpi_read h o gid pid uval s ≡ done t)
        × IsBuffer h o t
        × (t.irec + 2 ≤ t.buf_nrec)
        × Step gid pid uval s t
  phmpi_read_lem gid pid uval s b le small =
      let ge = b.nrec_ge in
      let lt = b.nrec_lt in
      elim (Bool-cases (leb s.buf_nrec (s.irec + 1))) [
        | inl full ↦
            (let full' : nearly_full h o s ≡ true = ground arith in
              let (x, y, dumps, bd, rx, ry) = dump_lem h o s b (ground arith) in
              let (r, e, br, reading) =
                fastread_lem h o gid pid uval
                  (record (appended h o y (flushed h o (appended h o x (clipped h o s)))) {
                    irec = 0;
                  })
                  (reset-IsBuffer h o _ bd) (omega arith) in
              (
                _,
                before_steps gid pid uval s _ _ full' dumps e,
                br,
                omega arith,
                Step.dumped_before x y r rx reading (ground arith),
              ))
        | inr free ↦
            (let free' : nearly_full h o s ≡ false = ground arith in
              let (r, e, br, reading) = fastread_lem h o gid pid uval s b (ground arith) in
              elim (Bool-cases (leb s.buf_nrec (s.irec + 2))) [
                | inl last ↦
                    (let last' : nearly_full h o (appended h o r s) ≡ true = ground arith in
                      let (x, y, dumps, bd, rx, ry) =
                        dump_lem h o (appended h o r s) br (omega arith) in
                      (
                        _,
                        behind_steps gid pid uval s _ _ free' e last' dumps,
                        bd,
                        omega arith,
                        Step.dumped_behind r x y reading rx ry (ground arith),
                      ))
                | inr more ↦
                    (let more' : nearly_full h o (appended h o r s) ≡ false = ground arith in
                      (
                        _,
                        plain_steps gid pid uval s _ free' e more',
                        br,
                        ground arith,
                        Step.buffered r reading (ground arith),
                      ))
              ])
      ]
