-- ===== src/Interval/Tests/Sessions.antt =====
-- A small session of the probe in the interval tool.
use perf_hound.Prelude.{false, ◌≡◌, refl, arith, true, List, [], ◌∷◌, ◌++◌}
use perf_hound.Prelude.Run.{done}
use perf_hound.Interval.Lines.{scan_file}
use perf_hound.Interval.Meaning.{pairs}
use perf_hound.Probe.{Rec, State, Mode}
use perf_hound.Probe.Demo.{process}
use perf_hound.Probe.Buffer.Put.{IsBuffer}
use perf_hound.Probe.Buffer.Log.{Request, Log}
use perf_hound.Probe.Setup.Session.{session, first_request, last_request}
use perf_hound.Interval.EndToEnd.{IsCounting, session-measured}
use perf_hound.Interval.Outcome.{left_by, told}
use perf_hound.Interval.Files.{count_events}
use perf_hound.Interval.Demo.{machine, blank, reader, reader-ReadsBack, points, job}

-- A session on the machine, with one event.
abbrev begun : State machine
begun = record {
  buf_nrec = 4;
  irec = 0;
  ready = false;
  nev = 1;
  evcodes = 0 ∷ 0 ∷ 0 ∷ 0 ∷ [];
  precs = blank ∷ blank ∷ blank ∷ blank ∷ [];
  nrec_tot = 0;
  ticks = 0;
  attempts = 0;
  rec_file = [];
  etag_file = [];
  ctag_file = [];
  rankmap_file = [];
  info_file = [];
  pmu = tt;
}

begun-IsBuffer : IsBuffer machine Mode.ev begun
begun-IsBuffer = record {
  size = refl;
  nrec_ge = omega arith;
  nrec_lt = omega arith;
  wide = (refl, (refl, (refl, (refl, tt))));
  fits = omega arith;
}

machine-IsCounting : IsCounting machine
machine-IsCounting = record {
  cy_lt = λ k. omega arith;
  ns_lt = λ k. omega arith;
  pmc_lt = λ k i. omega arith;
}

abbrev calls : List (Request machine Mode.ev)
calls = record { gid = 1; pid = 1; uval = true } ∷ record { gid = 1; pid = 2; uval = true } ∷ []

session-measured_example :
    (u : State machine) × (rs : List (Rec machine)) × (session machine Mode.ev process true calls
        begun
      ≡ done u)
    × Log machine Mode.ev 4 0
        (first_request machine Mode.ev ∷ (calls ++ last_request machine Mode.ev ∷ []))
        rs
    × (count_events u.rec_file ≡ done 1)
    × (left_by (scan_file reader points job 1 1000 u.rec_file (0 ∷ []))
        ≡ told machine reader points reader-ReadsBack job 1 1000 1 (pairs machine points rs))
session-measured_example =
    session-measured machine Mode.ev reader points reader-ReadsBack job process true calls begun
      1000 (0 ∷ []) (λ k. refl) machine-IsCounting begun-IsBuffer (omega arith) (omega arith)
      ((omega arith, omega arith), ((omega arith, omega arith), tt))
