-- ===== src/Interval/EndToEnd.antt =====
-- From an instrumented program to its intervals: the record file of a session of the probe in the
-- loop of the interval tool.
use perf_hound.Prelude.{
  ℕ, zero, suc, ◌+◌, ◌^◌, ◌≤◌, ◌<◌, ◌≡◌, refl, sym, ap, subst, ◌∙◌, arith, List, [], ◌∷◌, ◌++◌,
  true, Bool, length, length-take, take, All, All-append, All-take,
}
use perf_hound.Prelude.Run.{done}
use perf_hound.Probe.{Machine, Mode, Rec, State, counters_read}
use perf_hound.Probe.Buffer.{firsts}
use perf_hound.Probe.Buffer.Put.{IsBuffer, IsReading}
use perf_hound.Probe.Buffer.Log.{Request, Log, nothing, plain, with_dump}
use perf_hound.Probe.Row.{text_of}
use perf_hound.Probe.Setup.{Process}
use perf_hound.Probe.Setup.Session.{first_request, last_request, session, session_lem}
use perf_hound.Interval.{Points, Job}
use perf_hound.Interval.Files.{count_events}
use perf_hound.Interval.Lines.{Reader, scan_file}
use perf_hound.Interval.Meaning.{pairs}
use perf_hound.Interval.Outcome.{count_events-rec_header, left_by, told, scan_file-pairs}
use perf_hound.Interval.Pairs.{IsRec, ReadsBack}

-- What the counters show are words of 64 bits.
pub record IsCounting (h : Machine) : Type 0 where
  pub cy_lt : (k : ℕ) → (h.sample k).cy < 2 ^ 64
  pub ns_lt : (k : ℕ) → (h.sample k).ns < 2 ^ 64
  pub pmc_lt : (k i : ℕ) → (h.sample k).pmc i < 2 ^ 64

module _ (h : Machine) (o : Mode) where
  -- The tags of a request have 32 bits.
  abbrev pub IsTagged : Request h o → Type 0
  IsTagged q = (q.gid < 2 ^ 32) × (q.pid < 2 ^ 32)

  firsts-lt :
      (n i : ℕ) (pmc : ℕ → ℕ) → ((j : ℕ) → pmc j < 2 ^ 64) → All (λ v. v < 2 ^ 64) (firsts n i pmc)
  unfolding firsts
  firsts-lt zero i pmc small = tt
  firsts-lt (suc n) i pmc small = (small i, firsts-lt n (i + 1) pmc small)

  length-firsts : (n i : ℕ) (pmc : ℕ → ℕ) → length (firsts n i pmc) ≡ n
  unfolding firsts
  length-firsts zero i pmc = refl
  length-firsts (suc n) i pmc = ap suc (length-firsts n (i + 1) pmc)

  take-take : (a b : ℕ) (xs : List ℕ) → a ≤ b → take a (take b xs) ≡ take a xs
  take-take zero b xs le = refl
  take-take (suc a) zero xs le = absurd (omega arith)
  take-take (suc a) (suc b) [] le = refl
  take-take (suc a) (suc b) (x ∷ xs) le = ap (◌∷◌ x) (take-take a b xs (omega arith))

  reading-IsRec :
      (nev gid pid : ℕ) (uval : h.Double) (k : ℕ) (r : Rec h)
      → IsCounting h
      → nev ≤ counters_read o
      → gid < 2 ^ 32
      → pid < 2 ^ 32
      → IsReading h o (counters_read o) gid pid uval k r
      → IsRec h nev r
  reading-IsRec nev gid pid uval k r w few hg hp f =
      let n = counters_read o in
      let counts = firsts n 0 ((h.sample k).pmc) in
      record {
        gid_lt = omega (arith, hg, f.gid_eq);
        pid_lt = omega (arith, hp, f.pid_eq);
        cy_lt = omega (arith, f.cy_eq, w.cy_lt k);
        ns_lt = omega (arith, f.ns_eq, w.ns_lt k);
        ev_lt =
            subst (All (λ v. v < 2 ^ 64)) (ap (take nev) (sym f.ev_eq) ∙ take-take nev n r.ev few)
              (All-take _ nev counts (firsts-lt n 0 ((h.sample k).pmc) (w.pmc_lt k)));
        wide = omega (
          arith,
          few,
          length-take n r.ev,
          ap length f.ev_eq,
          length-firsts n 0 ((h.sample k).pmc),
        );
      }

  Log-IsRec :
      {n k nev : ℕ} {qs : List (Request h o)} {rs : List (Rec h)}
      → IsCounting h
      → nev ≤ counters_read o
      → All IsTagged qs
      → Log h o n k qs rs
      → All (IsRec h nev) rs
  Log-IsRec w few tags nothing = tt
  Log-IsRec w few tags (plain r f more) =
      (reading-IsRec _ _ _ _ _ r w few tags.0.0 tags.0.1 f, Log-IsRec w few tags.1 more)
  Log-IsRec w few tags (with_dump r a b f fa fb more) = (
    reading-IsRec _ _ _ _ _ r w few tags.0.0 tags.0.1 f,
    (
      reading-IsRec _ _ _ _ _ a w few (omega arith) (omega arith) fa,
      (reading-IsRec _ _ _ _ _ b w few (omega arith) (omega arith) fb, Log-IsRec w few tags.1 more),
    ),
  )

  at_most_eight : {n : ℕ} (q : Mode) → n ≤ counters_read q → n ≤ 8
  at_most_eight Mode.ts few = omega arith
  at_most_eight Mode.ev few = omega arith
  at_most_eight Mode.evx few = omega arith

  module _ (c : Reader h.Double) (a : Points) (l : ReadsBack h c) (job : Job) where
    -- When the record file always opens and the counters show words, then of the record file of a
    -- session of the probe, with a fit buffer of three records or more, tags of 32 bits and no
    -- more events than a reading has counters and the tool has slots, and with a strtod that reads
    -- back what %f prints, the interval tool counts the events of the session, and its loop
    -- computes what a function of the session's records does: the lines of the pairs of neighbours
    -- that it measures, with their number, or a fault if these do not fit the buffer or the last
    -- record is at the start point; the records are those of the readings and of the dumps in
    -- their order.
    pub session-measured :
        (p : Process) (open_info : Bool) (qs : List (Request h o)) (s : State h) (fsize : ℕ)
        (evs : List ℕ)
        → ((k : ℕ) → h.opens k ≡ true)
        → IsCounting h
        → IsBuffer h o s
        → s.nev ≤ counters_read o
        → s.nev ≤ length evs
        → All IsTagged qs
        → (u : State h) × (rs : List (Rec h)) × (session h o p open_info qs s ≡ done u)
          × Log h o s.buf_nrec s.ticks (first_request h o ∷ (qs ++ last_request h o ∷ [])) rs
          × (count_events u.rec_file ≡ done s.nev)
          × (left_by (scan_file c a job s.nev fsize u.rec_file evs)
              ≡ told h c a l job s.nev fsize (length evs) (pairs h a rs))
    session-measured p open_info qs s fsize evs opened w b few slots tags =
        let (u, rs, ends, log, text) =
          session_lem h o p open_info qs s (at_most_eight o few) opened b in
        let small : IsTagged (first_request h o) = (omega arith, omega arith) in
        let last : IsTagged (last_request h o) = (omega arith, omega arith) in
        let recs =
          Log-IsRec w few (small, All-append IsTagged qs (last_request h o ∷ []) tags (last, tt))
            log in
        (
          u,
          rs,
          ends,
          log,
          ap count_events text ∙ count_events-rec_header s.nev (text_of h s.nev rs),
          ap (λ t. left_by (scan_file c a job s.nev fsize t evs)) text
              ∙ scan_file-pairs h c a l job s.nev fsize rs evs recs slots,
        )
