-- ===== src/Probe/Buffer/Read.antt =====
-- What one call of `ph_read` does to the buffer and to the file.
use perf_hound.Prelude.{
  ℕ, suc, ◌+◌, ◌≤◌, ◌<◌, ◌≡◌, ◌≢◌, refl, ap, ◌∙◌, arith, [], ◌∷◌, ◌++◌, All-map, ◌==◌,
  if◌then◌else◌, true, false, Bool-cases, inl, inr, ==_iff,
}
use perf_hound.Prelude.Run.{Run, done, ◌>>=◌}
use perf_hound.Bits.{u32, u64}
use perf_hound.Probe.{Machine, Mode, Rec, State, counters_read}
use perf_hound.Probe.Row.{wtrec, wtrec_lem, text_of}
use perf_hound.Probe.Buffer.{full, dump_by, check_buffer, read}
use perf_hound.Probe.Buffer.Put.{IsBuffer, IsReading, kept, appended, put_lem, counters-slots}

module _ (h : Machine) (o : Mode) where
  open h use {Double, of_uint, opens}

  -- After `ph_io_wtrec(ph_irec); ph_irec = 0`.
  abbrev pub flushed : State h → State h
  flushed s = record s {
    irec = 0;
    nrec_tot = u64 (s.nrec_tot + s.irec);
    attempts = s.attempts + 1;
    rec_file = (if opens s.attempts then s.rec_file ++ text_of h s.nev (kept h s) else s.rec_file);
  }

  -- The two ways a reading goes: the record is buffered; or it takes the last slot but one, and
  -- the buffer is written behind a record that the writing begins, and begun anew with one that
  -- it has ended.
  pub data Step (gid pid : ℕ) (uval : Double) (s : State h) : State h → Type 0 where
    buffered :
        (r : Rec h)
        → IsReading h o (counters_read o) gid pid uval s.ticks r
        → s.irec + 2 < s.buf_nrec
        → Step gid pid uval s (appended h o r s)
    dumped :
        (r a b : Rec h)
        → IsReading h o (counters_read o) gid pid uval s.ticks r
        → IsReading h o (counters_read o) 0 3 (of_uint s.buf_nrec) (s.ticks + 1) a
        → IsReading h o (counters_read o) 0 4 (of_uint 0) (s.ticks + 1 + 1) b
        → s.irec + 2 ≡ s.buf_nrec
        → Step gid pid uval s (appended h o b (flushed (appended h o a (appended h o r s))))

  pub flushed-IsBuffer : (s : State h) → IsBuffer h o s → IsBuffer h o (flushed s)
  flushed-IsBuffer s b = record {
    size = b.size;
    nrec_ge = b.nrec_ge;
    nrec_lt = b.nrec_lt;
    wide = b.wide;
    fits = b.fits;
  }

  pub wtrec-flushed :
      (s : State h)
      → IsBuffer h o s
      → s.irec ≤ s.buf_nrec
      → (c : ℕ) × (t : State h) × (wtrec h s.irec s ≡ done (c, t))
        × (record t { irec = 0 } ≡ flushed s)
  wtrec-flushed s b le =
      let size = b.size in
      let fits = b.fits in
      (_, _, wtrec_lem h s.irec s (omega arith) (All-map s.precs (λ r e. omega arith) b.wide), refl)

  check-free : (f : ℕ) (s : State h) → full h o s ≡ false → check_buffer h o (read h o f) s ≡ done s
  unfolding check_buffer
  check-free f s free = rw (check_buffer, free) refl

  check-full :
      (f : ℕ) (s : State h)
      → full h o s ≡ true
      → check_buffer h o (read h o f) s ≡ dump_by h o (read h o f) s
  unfolding check_buffer
  check-full f s last = rw (check_buffer, last) refl

  -- A reading that leaves more than one slot, or none.
  read_buffered :
      (f gid pid : ℕ) (uval : Double) (s : State h)
      → IsBuffer h o s
      → s.irec < s.buf_nrec
      → s.irec + 2 ≢ s.buf_nrec
      → (r : Rec h) × (read h o (suc f) gid pid uval s ≡ done (appended h o r s))
        × IsBuffer h o (appended h o r s)
        × IsReading h o (counters_read o) gid pid uval s.ticks r
        × (kept h (appended h o r s) ≡ kept h s ++ r ∷ [])
  unfolding read
  read_buffered f gid pid uval s b room open_slot =
      let (r, e, b', reading, k) =
        put_lem h o (counters_read o) gid pid uval s (counters-slots h o) b room in
      let lt = b.nrec_lt in
      let free : full h o (appended h o r s) ≡ false = ground arith in
      (r, ap (λ x. x >>= check_buffer h o (read h o f)) e ∙ check-free f _ free, b', reading, k)

  dump_steps :
      (again : ℕ → ℕ → Double → State h → Run (State h)) (s t u v w : State h) (n c : ℕ)
      → u32 (s.irec + 1) ≡ n
      → again 0 3 (of_uint n) s ≡ done t
      → wtrec h t.irec t ≡ done (c, u)
      → record u { irec = 0 } ≡ v
      → again 0 4 (of_uint 0) v ≡ done w
      → dump_by h o again s ≡ done w
  unfolding dump_by
  dump_steps again s t u v w n c size first written reset last =
      rw (size, first, written, reset, last) refl

  -- `ph_dump` with one slot left.
  dump_lem :
      (f : ℕ) (s : State h)
      → IsBuffer h o s
      → s.irec + 1 ≡ s.buf_nrec
      → (a b : Rec h) × (dump_by h o (read h o (suc f)) s
          ≡ done (appended h o b (flushed (appended h o a s))))
        × IsBuffer h o (appended h o b (flushed (appended h o a s)))
        × IsReading h o (counters_read o) 0 3 (of_uint s.buf_nrec) s.ticks a
        × IsReading h o (counters_read o) 0 4 (of_uint 0) (s.ticks + 1) b
  dump_lem f s b last =
      let lt = b.nrec_lt in
      let ge = b.nrec_ge in
      let size : u32 (s.irec + 1) ≡ s.buf_nrec = omega arith in
      let (x, e, bx, rx, kx) =
        read_buffered f 0 3 (of_uint s.buf_nrec) s b (omega arith) (λ q. omega arith) in
      let (c, t, written, reset) = wtrec-flushed (appended h o x s) bx (omega arith) in
      let (y, e', by, ry, ky) =
        read_buffered f 0 4 (of_uint 0) (flushed (appended h o x s)) (flushed-IsBuffer _ bx)
          (omega arith) (λ q. omega arith) in
      (x, y, dump_steps _ s _ t _ _ s.buf_nrec c size e written reset e', by, rx, ry)

  -- With a fit buffer of three records or more and two free slots, a reading ends within two
  -- levels of its recursion through the dump, leaves a fit buffer with two free slots, and either
  -- appends its record, or fills the buffer, writes it with the record that begins the dump, and
  -- begins it anew with the record that ends the dump; the file is extended only if it opens.
  pub read_lem :
      (f gid pid : ℕ) (uval : Double) (s : State h)
      → IsBuffer h o s
      → s.irec + 2 ≤ s.buf_nrec
      → (t : State h) × (read h o (suc (suc f)) gid pid uval s ≡ done t)
        × IsBuffer h o t
        × (t.irec + 2 ≤ t.buf_nrec)
        × Step gid pid uval s t
  unfolding read
  read_lem f gid pid uval s b room =
      let (r, e, b', reading, k) =
        put_lem h o (counters_read o) gid pid uval s (counters-slots h o) b (omega arith) in
      let lt = b.nrec_lt in
      let ge = b.nrec_ge in
      elim (Bool-cases (s.irec + 2 == s.buf_nrec)) [
        | inr more ↦
            (let free : full h o (appended h o r s) ≡ false = ground arith in
              (
                appended h o r s,
                ap (λ x. x >>= check_buffer h o (read h o (suc f))) e ∙ check-free (suc f) _ free,
                b',
                ground arith,
                Step.buffered r reading (ground arith),
              ))
        | inl last ↦
            (let ends : s.irec + 2 ≡ s.buf_nrec = (==_iff _ _).0 last in
              let filled : full h o (appended h o r s) ≡ true = ground arith in
              let (x, y, dumps, b'', rx, ry) = dump_lem f (appended h o r s) b' (omega arith) in
              (
                appended h o y (flushed (appended h o x (appended h o r s))),
                ap (λ z. z >>= check_buffer h o (read h o (suc f))) e
                    ∙ check-full (suc f) _ filled
                    ∙ dumps,
                b'',
                omega arith,
                Step.dumped r x y reading rx ry ends,
              ))
      ]
