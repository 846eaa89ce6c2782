-- ===== src/Mpi/Reading.antt =====
-- `phmpi_fastread` and `phmpi_dump`: the bounds of the buffer.
use perf_hound.Prelude.{
  ℕ, ◌+◌, ◌-◌, ◌^◌, ◌≤◌, ◌<◌, ◌≡◌, ◌≢◌, ◌↔◌, refl, sym, ap, ◌∙◌, arith, get_elem?, get_elem?-out,
  false, Bool-cases, inl, inr, ◌==◌, leb, if◌then◌else◌, none,
}
use perf_hound.Prelude.Run.{done, fault}
use perf_hound.Bits.{u32}
use perf_hound.Probe.{Machine, Mode, Rec, State, slots}
use perf_hound.Probe.Row.{wtrec}
use perf_hound.Probe.Buffer.{put}
use perf_hound.Probe.Buffer.Put.{IsBuffer, IsReading, appended, put_lem}
use perf_hound.Probe.Buffer.Read.{flushed, flushed-IsBuffer, wtrec-flushed}
use perf_hound.Mpi.{switch_counters, phmpi_fastread, step_back, phmpi_dump}

module _ (h : Machine) (o : Mode) where
  open h use {Double, of_uint}

  switch-slots : (s : State h) → IsBuffer h o s → switch_counters s.nev ≤ slots o
  unfolding switch_counters
  switch-slots s b = let fits = b.fits in ground arith

  pub fastread_lem :
      (gid pid : ℕ) (uval : Double) (s : State h)
      → IsBuffer h o s
      → s.irec < s.buf_nrec
      → (r : Rec h) × (phmpi_fastread h o gid pid uval s ≡ done (appended h o r s))
        × IsBuffer h o (appended h o r s)
        × IsReading h o (switch_counters s.nev) gid pid uval s.ticks r
  unfolding phmpi_fastread
  fastread_lem gid pid uval s b room =
      let (r, e, b', reading, k) =
        put_lem h o (switch_counters s.nev) gid pid uval s (switch-slots s b) b room in
      (r, e, b', reading)

  put-out :
      (n gid pid : ℕ) (uval : Double) (s : State h)
      → get_elem? s.precs s.irec ≡ none
      → put h o n gid pid uval s ≡ fault
  unfolding put
  put-out n gid pid uval s out = rw out refl

  done_not_fault : (t : State h) → done t ≢ fault
  done_not_fault t e = ground (arith, e)

  -- With a fit buffer, the fast reading of the MPI library writes out of the buffer exactly when
  -- the buffer is full.
  pub fastread-faults :
      (gid pid : ℕ) (uval : Double) (s : State h)
      → IsBuffer h o s
      → (phmpi_fastread h o gid pid uval s ≡ fault) ↔ (s.buf_nrec ≤ s.irec)
  unfolding phmpi_fastread
  fastread-faults gid pid uval s b = elim (Bool-cases (leb s.buf_nrec s.irec)) [
    | inl at_end ↦
        (let le : s.buf_nrec ≤ s.irec = ground arith in
          let size = b.size in
          (
            λ e. le,
            λ le'.
                put-out (switch_counters s.nev) gid pid uval s
                  (get_elem?-out s.precs s.irec (omega arith)),
          ))
    | inr within ↦
        (let (r, e, b', reading) = fastread_lem gid pid uval s b (ground arith) in
          (λ e'. absurd (done_not_fault _ (sym e ∙ e')), λ le. absurd (ground arith)))
  ]

  -- One step back if the index is at the end.
  abbrev pub clipped : State h → State h
  clipped s = record s { irec = if leb s.buf_nrec s.irec then s.buf_nrec - 1 else s.irec }

  step_back-clipped : (s : State h) → IsBuffer h o s → step_back h o s ≡ clipped s
  step_back-clipped s b = elim (Bool-cases (leb s.buf_nrec s.irec)) [
    | inl at_end ↦
        (let lt = b.nrec_lt in
          let ge = b.nrec_ge in
          let e : u32 (s.buf_nrec + 2 ^ 32 - 1) ≡ s.buf_nrec - 1 = omega arith in
          rw (at_end, e) refl)
    | inr within ↦ rw within refl
  ]

  clipped-IsBuffer : (s : State h) → IsBuffer h o s → IsBuffer h o (clipped s)
  clipped-IsBuffer s b = record {
    size = b.size;
    nrec_ge = b.nrec_ge;
    nrec_lt = b.nrec_lt;
    wide = b.wide;
    fits = b.fits;
  }

  pub reset-IsBuffer : (s : State h) → IsBuffer h o s → IsBuffer h o (record s { irec = 0 })
  reset-IsBuffer s b = record {
    size = b.size;
    nrec_ge = b.nrec_ge;
    nrec_lt = b.nrec_lt;
    wide = b.wide;
    fits = b.fits;
  }

  dump_steps :
      (s t u v w : State h) (c : ℕ)
      → (s.irec == 0) ≡ false
      → phmpi_fastread h o 0 3 (of_uint 0) (step_back h o s) ≡ done t
      → wtrec h t.irec t ≡ done (c, u)
      → record u { irec = 0 } ≡ v
      → phmpi_fastread h o 0 4 (of_uint 0) v ≡ done w
      → phmpi_dump h o s ≡ done w
  unfolding phmpi_dump
  dump_steps s t u v w c some_kept first written reset last =
      rw (phmpi_dump, some_kept, first, written, reset, last) refl

  -- A dump of a buffer that holds something.
  pub dump_lem :
      (s : State h)
      → IsBuffer h o s
      → 0 < s.irec
      → (a b : Rec h) × (phmpi_dump h o s
          ≡ done (appended h o b (flushed h o (appended h o a (clipped s)))))
        × IsBuffer h o (appended h o b (flushed h o (appended h o a (clipped s))))
        × IsReading h o (switch_counters s.nev) 0 3 (of_uint 0) s.ticks a
        × IsReading h o (switch_counters s.nev) 0 4 (of_uint 0) (s.ticks + 1) b
  dump_lem s b some_kept =
      let ge = b.nrec_ge in
      let kept_some : (s.irec == 0) ≡ false = ground arith in
      let (x, e, bx, rx) =
        fastread_lem 0 3 (of_uint 0) (clipped s) (clipped-IsBuffer s b) (ground arith) in
      let (c, t, written, reset) =
        wtrec-flushed h o (appended h o x (clipped s)) bx (ground arith) in
      let (y, e', by, ry) =
        fastread_lem 0 4 (of_uint 0) (flushed h o (appended h o x (clipped s)))
          (flushed-IsBuffer h o _ bx) (omega arith) in
      (
        x,
        y,
        dump_steps s _ t _ _ c kept_some
            (ap (phmpi_fastread h o 0 3 (of_uint 0)) (step_back-clipped s b) ∙ e) written reset e',
        by,
        rx,
        ry,
      )
