-- ===== src/Probe/Demo.antt =====
-- A machine whose counters count the readings, and a state of the probe of src/probe/perfhound.c on it.
use perf_hound.Prelude.{ℕ, ◌+◌, ◌*◌, refl, arith, [], ◌∷◌, ◌++◌, true, false, codes}
use perf_hound.Probe.{Machine, Mode, Rec, State}
use perf_hound.Probe.Number.{decimal}
use perf_hound.Probe.Buffer.Put.{IsBuffer}
use perf_hound.Probe.Setup.{Process}

abbrev pub machine : Machine
machine = record {
  Double = ℕ;
  of_uint = λ n. n;
  print_f = λ n. decimal n ++ codes ".000000";
  sample = λ k. record { cy = 100 + k; ns = 200 + k; pmc = λ i. 10 * k + i };
  opens = λ k. true;
  Pmu = Unit;
  wr_cfgs = λ k words p. p;
  wr_cnts = λ k words p. p;
}

abbrev pub blank : Rec machine
blank = record { gid = 0; pid = 0; cy = 0; ns = 0; uval = 0; ev = 0 ∷ 0 ∷ 0 ∷ 0 ∷ [] }

abbrev pub process : Process
process = record {
  rank = 0;
  nrank = 1;
  cpu = 3;
  head = 0;
  iorank = 0;
  host = codes "node";
  runid = 1;
  st_timestr = codes "20260101T000000";
  en_timestr = codes "20260101T000100";
}

-- Room for four records, and `nev` events.
abbrev pub with_events : ℕ → State machine
with_events nev = record {
  buf_nrec = 4;
  irec = 0;
  ready = false;
  nev = nev;
  evcodes = 0x43003C ∷ 0 ∷ 0 ∷ 0 ∷ [];
  precs = blank ∷ blank ∷ blank ∷ blank ∷ [];
  nrec_tot = 0;
  ticks = 0;
  attempts = 0;
  rec_file = [];
  etag_file = [];
  ctag_file = [];
  rankmap_file = [];
  info_file = [];
  pmu = tt;
}

abbrev pub fresh : State machine
fresh = with_events 1

pub fresh-IsBuffer : IsBuffer machine Mode.ev fresh
fresh-IsBuffer = record {
  size = refl;
  nrec_ge = omega arith;
  nrec_lt = omega arith;
  wide = (refl, (refl, (refl, (refl, tt))));
  fits = omega arith;
}
