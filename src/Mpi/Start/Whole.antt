-- ===== src/Mpi/Start/Whole.antt =====
-- A whole run of one rank: initialization, commit, readings and finalization.
use perf_hound.Prelude.{
  ℕ, ◌+◌, ◌-◌, ◌^◌, ◌≤◌, ◌<◌, ◌≡◌, refl, ap, ◌∙◌, arith, List, [], ◌∷◌, Bool, true, Bool-cases, inl,
  inr, Bytes, codes, some, length, All-map, ◌==◌, if◌then◌else◌,
}
use perf_hound.Prelude.Run.{Run, done, ◌>>=◌}
use perf_hound.Probe.{Machine, Mode, Rec, State, slots}
use perf_hound.Probe.Row.{wtrec, wtrec_lem}
use perf_hound.Probe.Buffer.Put.{IsBuffer}
use perf_hound.Probe.Buffer.Log.{Request}
use perf_hound.Probe.Setup.{Process, rec_header, mkrec, wtinfo, wtctag, wtrankmap}
use perf_hound.Probe.Setup.Session.{config_event-pmu}
use perf_hound.Mpi.{
  phmpi_fastread, phmpi_read, phmpi_start_reading, phmpi_commit, phmpi_finalize, phmpi_set_tag,
}
use perf_hound.Probe.Setup.Begin.{begun_state}
use perf_hound.Probe.Setup.Init.{begun_state-IsBuffer, buf_records-ge}
use perf_hound.Mpi.Start.{phmpi_init}
use perf_hound.Mpi.Reading.{fastread_lem}
use perf_hound.Mpi.Steps.{Step, buffered, dumped_behind, dumped_before, phmpi_read_lem}

module _ (h : Machine) (o : Mode) where
  open h use {of_uint, opens}

  unfoldable pub phmpi_run : List (Request h o) → State h → Run (State h)
  phmpi_run [] s = done s
  phmpi_run (q ∷ qs) s = phmpi_read h o q.gid q.pid q.uval s >>= phmpi_run qs

  -- Commit, the readings and finalization, one after the other.
  unfoldable pub phmpi_session : Process → Bool → List (Request h o) → State h → Run (State h)
  phmpi_session p opened qs s = phmpi_commit h o s >>= phmpi_run qs >>= phmpi_finalize h o p opened

  -- What the readings keep.
  record IsFit (s : State h) : Type 0 where
    buffer : IsBuffer h o s
    room : s.irec ≤ s.buf_nrec
    small : s.buf_nrec < 2 ^ 32 - 1

  Step-buf_nrec :
      (gid pid : ℕ) (uval : h.Double) (s t : State h)
      → Step h o gid pid uval s t
      → t.buf_nrec ≡ s.buf_nrec
  Step-buf_nrec gid pid uval s t (buffered r a b) = refl
  Step-buf_nrec gid pid uval s t (dumped_behind r x y a b c d) = refl
  Step-buf_nrec gid pid uval s t (dumped_before x y r a b c) = refl

  read-IsFit :
      (gid pid : ℕ) (uval : h.Double) (s : State h)
      → IsFit s
      → (t : State h) × (phmpi_read h o gid pid uval s ≡ done t) × IsFit t
  read-IsFit gid pid uval s f =
      let (t, e, b, room, step) = phmpi_read_lem h o gid pid uval s f.buffer f.room f.small in
      (
        t,
        e,
        record {
          buffer = b;
          room = omega (arith, room);
          small = omega (arith, f.small, Step-buf_nrec gid pid uval s t step);
        },
      )

  run-IsFit :
      (qs : List (Request h o)) (s : State h)
      → IsFit s
      → (t : State h) × (phmpi_run qs s ≡ done t) × IsFit t
  unfolding phmpi_run
  run-IsFit [] s f = (s, refl, f)
  run-IsFit (q ∷ qs) s f =
      let (t, e, g) = read-IsFit q.gid q.pid q.uval s f in
      let (u, e', g') = run-IsFit qs t g in (u, ap (λ r. r >>= phmpi_run qs) e ∙ e', g')

  start_reading-fastread :
      (s : State h)
      → opens s.attempts ≡ true
      → phmpi_start_reading h o s
        ≡ phmpi_fastread h o 0 1 (of_uint 0) (record s {
          ready = true;
          irec = 0;
          attempts = s.attempts + 1;
          rec_file = rec_header s.nev;
        })
  unfolding phmpi_start_reading mkrec
  start_reading-fastread s opened = rw (phmpi_start_reading, mkrec, opened) refl

  commit-IsFit :
      (s : State h)
      → IsBuffer h o s
      → s.buf_nrec < 2 ^ 32 - 1
      → s.nev ≤ 8
      → opens s.attempts ≡ true
      → (t : State h) × (phmpi_commit h o s ≡ done t) × IsFit t
  unfolding phmpi_commit
  commit-IsFit s b small few opened =
      let ge = b.nrec_ge in
      let (pmu, configured) = config_event-pmu h o s few in
      let (r, e, b', reading) =
        fastread_lem h o 0 1 (of_uint 0)
          (record s {
            ready = true;
            irec = 0;
            attempts = s.attempts + 1;
            rec_file = rec_header s.nev;
            pmu = pmu;
          })
          (record {
            size = b.size;
            nrec_ge = b.nrec_ge;
            nrec_lt = b.nrec_lt;
            wide = b.wide;
            fits = b.fits;
          })
          (omega (arith, ge)) in
      (
        _,
        ap (λ r. r >>= phmpi_start_reading h o) configured
            ∙ start_reading-fastread (record s { pmu = pmu }) opened
            ∙ e,
        record { buffer = b'; room = omega (arith, ge); small = small },
      )

  -- The end of `phmpi_finalize`, behind its reading.
  abbrev close_by : Process → Bool → State h → Run (State h)
  close_by p opened t = do
    written ← wtrec h t.irec t
    done (if p.rank == 0 then (wtinfo h o p opened (written.1)).1 else written.1)

  finalize-done :
      (p : Process) (opened : Bool) (s : State h)
      → IsFit s
      → (t : State h) × (phmpi_finalize h o p opened s ≡ done t)
  unfolding phmpi_finalize
  finalize-done p opened s f =
      let (t, e, g) = read-IsFit 0 2 (of_uint 0) s f in
      let size = g.buffer.size in
      let fits = g.buffer.fits in
      let room = g.room in
      (
        _,
        ap (λ r. r >>= close_by p opened) e
            ∙ ap (λ r. r >>= λ w. done (if p.rank == 0 then (wtinfo h o p opened (w.1)).1 else w.1))
                (wtrec_lem h t.irec t (omega arith)
                  (All-map t.precs (λ r w. omega arith) g.buffer.wide)),
      )

  -- When the record file opens at commit, then from a fit buffer of fewer than 2^32 - 1 records and
  -- with at most eight events a rank's commit, any readings and finalization end without a fault.
  pub phmpi_session-safe :
      (p : Process) (opened : Bool) (qs : List (Request h o)) (s : State h)
      → IsBuffer h o s
      → s.buf_nrec < 2 ^ 32 - 1
      → s.nev ≤ 8
      → opens s.attempts ≡ true
      → (t : State h) × (phmpi_session p opened qs s ≡ done t)
  unfolding phmpi_session
  phmpi_session-safe p opened qs s b small few opens_now =
      let (t, e, f) = commit-IsFit s b small few opens_now in
      let (u, e', f') = run-IsFit qs t f in
      let (v, e'') = finalize-done p opened u f' in
      (
        v,
        ap (λ r. r >>= phmpi_run qs >>= phmpi_finalize h o p opened) e
            ∙ ap (λ r. r >>= phmpi_finalize h o p opened) e'
            ∙ e'',
      )

  -- What holds of a rank that has been initialized.
  record IsReady (s : State h) : Type 0 where
    buffer : IsBuffer h o s
    small : s.buf_nrec < 2 ^ 32 - 1
    unopened : s.attempts ≡ 0
    no_events : s.nev ≡ 0

  set_tag-IsReady :
      (rank gid pid : ℕ) (tag : Bytes) (s : State h)
      → IsReady s
      → IsReady ((phmpi_set_tag h o rank gid pid tag s).1)
  unfolding phmpi_set_tag wtctag
  set_tag-IsReady rank gid pid tag s f = elim (Bool-cases (rank == 0)) [
    | inr e ↦ rw e f
    | inl e ↦
        (let b = f.buffer in
          rw e (record {
            buffer = record {
              size = b.size;
              nrec_ge = b.nrec_ge;
              nrec_lt = b.nrec_lt;
              wide = b.wide;
              fits = b.fits;
            };
            small = f.small;
            unopened = f.unopened;
            no_events = f.no_events;
          }))
  ]

  rankmap-IsReady : (p : Process) (s : State h) → IsReady s → IsReady (wtrankmap h o p s)
  unfolding wtrankmap
  rankmap-IsReady p s f =
      let b = f.buffer in
      record {
        buffer = record {
          size = b.size;
          nrec_ge = b.nrec_ge;
          nrec_lt = b.nrec_lt;
          wide = b.wide;
          fits = b.fits;
        };
        small = f.small;
        unopened = f.unopened;
        no_events = f.no_events;
      }

  begun-IsReady :
      (bufsize : ℕ) (memory : ℕ → Rec h) (info : Bytes) (pmu : h.Pmu)
      → 1 ≤ bufsize
      → bufsize < 2 ^ 21
      → ((j : ℕ) → length ((memory j).ev) ≡ slots o)
      → IsReady (begun_state h o bufsize memory info pmu)
  begun-IsReady bufsize memory info pmu lo hi wide = record {
    buffer = begun_state-IsBuffer h o bufsize memory info pmu lo hi wide;
    small = unfold begun_state in omega (arith, (buf_records-ge o bufsize lo hi).1);
    unopened = unfold begun_state in refl;
    no_events = unfold begun_state in refl;
  }

  -- Initialization, and the session behind it.
  unfoldable pub phmpi_whole :
      ℕ → Process → (ℕ → Rec h) → Bytes → h.Pmu → Bool → List (Request h o) → Run (State h)
  phmpi_whole bufsize p memory info pmu opened qs =
      phmpi_init h o bufsize p true true (some memory) info pmu >>= phmpi_session p opened qs

  -- When its directories, files, counters and memory can be had, a rank with a buffer from 1 KiB
  -- to below 2 GiB, whose record file opens at commit, ends its run of initialization, commit
  -- without events, any readings and finalization without a fault, if each record of the memory
  -- has all its slots.
  pub phmpi_whole-safe :
      (bufsize : ℕ) (p : Process) (memory : ℕ → Rec h) (info : Bytes) (pmu : h.Pmu) (opened : Bool)
      (qs : List (Request h o))
      → 1 ≤ bufsize
      → bufsize < 2 ^ 21
      → ((j : ℕ) → length ((memory j).ev) ≡ slots o)
      → opens 0 ≡ true
      → (t : State h) × (phmpi_whole bufsize p memory info pmu opened qs ≡ done t)
  unfolding phmpi_whole phmpi_init
  phmpi_whole-safe bufsize p memory info pmu opened qs lo hi wide opens_now =
      let f = set_tag-IsReady p.rank 0 4 (codes "PH Wt End") _ (
        set_tag-IsReady p.rank 0 3 (codes "PH Wt Start") _ (
          set_tag-IsReady p.rank 0 2 (codes "PH End") _ (
            set_tag-IsReady p.rank 0 1 (codes "PH Start") _ (
              set_tag-IsReady p.rank 0 0 (codes "PHGroup") _
                (rankmap-IsReady p _ (begun-IsReady bufsize memory info pmu lo hi wide)))))) in
      phmpi_session-safe p opened qs _ f.buffer f.small (omega (arith, f.no_events))
        (ap opens f.unopened ∙ opens_now)
