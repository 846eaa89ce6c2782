-- ===== src/Interval/Demo.antt =====
-- A machine with the doubles 0 and 1, and the records and the files of a small run on it.
use perf_hound.Prelude.{
  ℕ, ◌+◌, ◌*◌, ◌≤◌, ◌≡◌, refl, arith, Bool, true, false, not, ◌==◌, [], ◌∷◌, ◌++◌, Bytes, codes,
  drop, length-drop, if◌then◌else◌, ◌≢◌,
}
use perf_hound.Bits.{u64}
use perf_hound.Event.Libc.{at}
use perf_hound.Probe.{Machine, Rec}
use perf_hound.Probe.Row.{all_other, newline}
use perf_hound.Interval.{Points, Job}
use perf_hound.Interval.Lines.{Reader}
use perf_hound.Interval.Pairs.{IsRec, ReadsBack}
use perf_hound.Interval.Halts.{IsWithin}

abbrev pub machine : Machine
machine = record {
  Double = Bool;
  of_uint = λ n. not (n == 0);
  print_f = λ v. (if v then 49 else 48) ∷ codes ".000000";
  sample = λ k. record { cy = u64 k; ns = u64 k; pmc = λ i. u64 (k * i) };
  opens = λ k. true;
  Pmu = Unit;
  wr_cfgs = λ k words p. p;
  wr_cnts = λ k words p. p;
}

abbrev pub reader : Reader Bool
reader = record {
  strtod = λ s. (at s 0 == 49, drop 8 s);
  print_f15 = λ v. (if v then 49 else 48) ∷ codes ".000000000000000";
}

pub reader-IsWithin : IsWithin reader
reader-IsWithin s = omega (arith, length-drop 8 s)

strtod_reads :
    (v : Bool) (d : ℕ) (rest : Bytes)
    → reader.strtod (machine.print_f v ++ (d ∷ rest)) ≡ (v, d ∷ rest)
strtod_reads true d rest = refl
strtod_reads false d rest = refl

first_byte : (v : Bool) → (if v then 49 else 48) ≢ newline
first_byte true = omega arith
first_byte false = omega arith

pub reader-ReadsBack : ReadsBack machine reader
reader-ReadsBack = record {
  nearest = λ v. v;
  strtod-print_f = λ v d rest e. strtod_reads v d rest;
  length-print_f = λ v. omega arith;
  print_f-line = λ v. (first_byte v, all_other (codes ".000000") refl);
}

-- From 1,1 to 1,2.
abbrev pub points : Points
points = record { sgid = 1; spid = 1; egid = 1; epid = 2 }

abbrev pub job : Job
job = record { host = codes "node"; rank = 0; cpu = 3 }

abbrev pub at_point : ℕ → ℕ → Rec machine
at_point pid v = record { gid = 1; pid = pid; cy = v; ns = v + 1; uval = true; ev = (v + 2) ∷ [] }

pub at_point-IsRec : (pid v : ℕ) → pid ≤ 9 → v ≤ 99 → IsRec machine 1 (at_point pid v)
at_point-IsRec pid v hp hv = record {
  gid_lt = omega arith;
  pid_lt = omega arith;
  cy_lt = omega arith;
  ns_lt = omega arith;
  ev_lt = (omega arith, tt);
  wide = omega arith;
}

abbrev pub blank : Rec machine
blank = record { gid = 0; pid = 0; cy = 0; ns = 0; uval = false; ev = 0 ∷ 0 ∷ 0 ∷ 0 ∷ [] }
