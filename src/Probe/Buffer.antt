-- ===== src/Probe/Buffer.antt =====
-- `ph_read` and `ph_dump` of src/probe/perfhound.c: the buffer of records.
pub mod Put
pub mod Read
pub mod Log
use perf_hound.Prelude.{
  ℕ, zero, suc, ◌+◌, ◌-◌, ◌^◌, List, [], ◌∷◌, ◌++◌, get_elem?, set, drop, Bool, true, false, ◌==◌,
}
use perf_hound.Prelude.Run.{Run, done, no_fuel, ◌>>=◌, access}
use perf_hound.Bits.{u32}
use perf_hound.Probe.{Machine, Mode, Sample, Rec, State, counters_read}
use perf_hound.Probe.Row.{wtrec}

-- The first counters, with the number left and the next one.
unfoldable pub firsts : ℕ → ℕ → (ℕ → ℕ) → List ℕ
firsts zero i pmc = []
firsts (suc n) i pmc = pmc i ∷ firsts n (i + 1) pmc

module _ (h : Machine) (o : Mode) where
  open h use {Double, of_uint, sample}

  -- What a reading of `n` counters leaves in a slot of the buffer: it writes `n` slots of `ev`.
  abbrev pub measured : ℕ → ℕ → ℕ → Double → Sample → Rec h → Rec h
  measured n gid pid uval p old = record {
    gid = gid;
    pid = pid;
    cy = p.cy;
    ns = p.ns;
    uval = uval;
    ev = firsts n 0 (p.pmc) ++ drop n (old.ev);
  }

  -- `ph_read` up to its check of the buffer.
  unfoldable pub put : ℕ → ℕ → ℕ → Double → State h → Run (State h)
  put n gid pid uval s = do
    old ← access (get_elem? s.precs s.irec)
    done (record s {
      precs = set s.precs s.irec (measured n gid pid uval (sample s.ticks) old);
      irec = u32 (s.irec + 1);
      ticks = s.ticks + 1;
    })

  -- `ph_irec+1-buf_nrec == 0`.
  abbrev pub full : State h → Bool
  full s = u32 (s.irec + 1 + (2 ^ 32 - s.buf_nrec)) == 0

  -- `ph_dump`, given `ph_read`; it does not look at the answer of `ph_io_wtrec`.
  unfoldable pub dump_by : (ℕ → ℕ → Double → State h → Run (State h)) → State h → Run (State h)
  dump_by again s = do
    t ← again 0 3 (of_uint (u32 (s.irec + 1))) s
    written ← wtrec h t.irec t
    again 0 4 (of_uint 0) (record (written.1) { irec = 0 })

  -- "Check buffer": dump it when one slot is left.
  unfoldable pub check_buffer : (ℕ → ℕ → Double → State h → Run (State h)) → State h → Run (State h)
  check_buffer again s = elim (full s) [ true ↦ dump_by again s | false ↦ done s ]

  -- `ph_read`, with the depth of the recursion through `ph_dump` that is allowed.
  unfoldable pub read : ℕ → ℕ → ℕ → Double → State h → Run (State h)
  read zero gid pid uval s = no_fuel
  read (suc f) gid pid uval s = put (counters_read o) gid pid uval s >>= check_buffer (read f)

  unfoldable pub dump : ℕ → State h → Run (State h)
  dump f s = dump_by (read f) s
