-- ===== src/Interval/Tests.antt =====
-- The interval tool on small inputs.
mod Files
mod Sessions
use perf_hound.Prelude.{
  ℕ, zero, ◌+◌, ◌≤◌, ◌<◌, ◌≡◌, ◌≢◌, refl, arith, Bool, true, false, List, [], ◌∷◌, ◌++◌, Bytes,
  codes, replicate, All, ◌==◌, inl, inr, some, none, leb→le, length,
}
use perf_hound.Prelude.Run.{Run, done, fault, no_fuel}
use perf_hound.Interval.{Points, Job}
use perf_hound.Interval.Lines.{scan_file, fixed_part}
use perf_hound.Interval.Pairs.{IsRec}
use perf_hound.Interval.Meaning.{pairs, rows_of, at_start, at_end}
use perf_hound.Interval.Events.{counted}
use perf_hound.Interval.Files.{
  Disk, Desk, calc_interval, process as process_file, out_name, out_header,
}
use perf_hound.Interval.Written.{IsFile, IsShown, shown_of, process_lem}
use perf_hound.Interval.Rank.{calc_interval_lem}
use perf_hound.Interval.Halts.{scan_file-ends}
use perf_hound.Interval.Outcome.{scan_file-pairs, left_by, told}
use perf_hound.Interval.Spread.{
  copied, as_read, c_string, flat, spread, share, nf_of, sends, larger, smaller, received,
}
use perf_hound.Interval.Spread.Whole.{spread-whole}
use perf_hound.Interval.Turns.{Turns, begun, start}
use perf_hound.Interval.Turns.Order.{shown-ordered}
use perf_hound.Interval.Turns.Progress.{Advances, files-Advances}
use perf_hound.Interval.Rankmap.{read_rankmap}
use perf_hound.Interval.Rankmap.Rows.{IsProcess, job_of}
use perf_hound.Interval.Rankmap.RoundTrip.{listed, read_rankmap-listed}
use perf_hound.Interval.Arguments.{init_arg, init_arg_lem}
use perf_hound.Interval.Demo.{
  machine, reader, reader-IsWithin, reader-ReadsBack, points, job, at_point, at_point-IsRec,
}
use perf_hound.Probe.{Rec, State, Mode}
use perf_hound.Probe.Demo.{process}
use perf_hound.Probe.Number.{decimal, print_digits}
use perf_hound.Probe.Row.{comma, text_of, fixed_fields, ev_text}
use perf_hound.Probe.Setup.{rec_header, ev_header, print_int}

scan_file-ends_example : scan_file reader points job 1 100 (codes "gid\n1,1") (0 ∷ []) ≢ no_fuel
scan_file-ends_example =
    scan_file-ends reader points job 1 100 reader-IsWithin (codes "gid\n1,1") (0 ∷ [])

-- Two records at the start point in front of one at the end point: nothing is measured.
abbrev records : List (Rec machine)
records = at_point 1 10 ∷ at_point 2 15 ∷ at_point 1 20 ∷ at_point 1 30 ∷ at_point 2 40 ∷ []

scan_file-pairs_example :
    left_by
      (scan_file reader points job 1 1000 (rec_header 1 ++ text_of machine 1 records) (0 ∷ []))
    ≡ told machine reader points reader-ReadsBack job 1 1000 1 (pairs machine points records)
scan_file-pairs_example =
    scan_file-pairs machine reader points reader-ReadsBack job 1 1000 records (0 ∷ [])
      (
        at_point-IsRec 1 10 (omega arith) (omega arith),
        (
          at_point-IsRec 2 15 (omega arith) (omega arith),
          (
            at_point-IsRec 1 20 (omega arith) (omega arith),
            (
              at_point-IsRec 1 30 (omega arith) (omega arith),
              (at_point-IsRec 2 40 (omega arith) (omega arith), tt),
            ),
          ),
        ),
      )
      (omega arith)

pairs_records : pairs machine points records ≡ some ((at_point 1 10, at_point 2 15) ∷ [])
unfolding pairs
pairs_records = refl

abbrev on_node : ℕ → Job
on_node i = record { host = codes "node"; rank = i; cpu = i }

abbrev files : List Job
files = on_node 0 ∷ on_node 1 ∷ on_node 2 ∷ on_node 3 ∷ on_node 4 ∷ []

-- Two blocks of the memory of rank 0.
abbrev zeroed : List Bytes
zeroed = replicate 64 0 ∷ replicate 64 0 ∷ []

node_plain : All (λ c. (c == 0) ≡ false) (codes "node")
node_plain = (refl, (refl, (refl, (refl, tt))))

spread-whole_example : spread zeroed files 3 3 ≡ done files
unfolding nf_of
spread-whole_example =
    spread-whole zeroed files 3 (omega arith) (omega arith)
      (node_plain, refl, (node_plain, refl, tt))

share_files : share zeroed files 3 1 ≡ done (on_node 2 ∷ on_node 3 ∷ [])
unfolding share nf_of sends larger smaller received
share_files = refl

-- A block that has been used before.
share_used :
    share (codes "localhost\0" ∷ zeroed) (on_node 0 ∷ []) 1 0
    ≡ done (record { host = codes "nodelhost"; rank = 0; cpu = 0 } ∷ [])
unfolding share nf_of copied as_read c_string flat
share_used = refl

init_arg_lem_example :
    init_arg (decimal 1 ++ comma ∷ decimal 1) (decimal 1 ++ comma ∷ decimal 2) ≡ done (some points)
init_arg_lem_example = init_arg_lem 1 1 1 2 (omega arith) (omega arith) (omega arith) (omega arith)

abbrev ranks : Turns
ranks = begun (nf_of 5 3)

shown-ordered_example : ranks.shown 1 ≤ ranks.shown 0
shown-ordered_example = shown-ordered 3 (nf_of 5 3) ranks 0 start (omega arith)

files-Advances_example : Advances 3 (nf_of 5 3) ranks
files-Advances_example = files-Advances 5 3 ranks start

abbrev mapped : State machine
mapped = record {
  buf_nrec = 4;
  irec = 0;
  ready = false;
  nev = 1;
  evcodes = 0 ∷ 0 ∷ 0 ∷ 0 ∷ [];
  precs = [];
  nrec_tot = 0;
  ticks = 0;
  attempts = 0;
  rec_file = [];
  etag_file = [];
  ctag_file = [];
  rankmap_file = codes "rank,hostname,cpu,hosthead,iorank\n";
  info_file = [];
  pmu = tt;
}

process-IsProcess : IsProcess process
process-IsProcess = record {
  rank_lt = omega arith;
  cpu_lt = omega arith;
  host_some = omega arith;
  host_lt = omega arith;
  host_plain = (
    (omega arith, omega arith),
    ((omega arith, omega arith), ((omega arith, omega arith), ((omega arith, omega arith), tt))),
  );
}

read_rankmap-listed_example :
    read_rankmap ((listed machine Mode.ev (process ∷ process ∷ []) mapped).rankmap_file)
    ≡ done (job_of process ∷ job_of process ∷ [])
read_rankmap-listed_example =
    read_rankmap-listed machine Mode.ev process (process ∷ []) mapped
      (process-IsProcess, (process-IsProcess, tt)) refl
