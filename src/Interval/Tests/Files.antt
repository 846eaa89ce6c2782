-- ===== src/Interval/Tests/Files.antt =====
-- The files of the interval tool on small runs.
use perf_hound.Prelude.{
  ◌≡◌, refl, arith, true, List, [], ◌∷◌, ◌++◌, Bytes, codes, inr, some, none, leb→le,
}
use perf_hound.Prelude.Run.{done}
use perf_hound.Interval.Lines.{fixed_part}
use perf_hound.Interval.Meaning.{pairs, rows_of}
use perf_hound.Probe.{Rec}
use perf_hound.Interval.Events.{counted}
use perf_hound.Interval.Files.{
  Disk, Desk, calc_interval, process as process_file, out_name, out_header,
}
use perf_hound.Interval.Written.{IsFile, IsShown, shown_of, process_lem}
use perf_hound.Interval.Rank.{calc_interval_lem}
use perf_hound.Interval.Demo.{
  machine, reader, reader-ReadsBack, points, job, at_point, at_point-IsRec,
}
use perf_hound.Probe.Number.{decimal, print_digits}
use perf_hound.Probe.Row.{text_of, fixed_fields, ev_text}
use perf_hound.Probe.Setup.{rec_header, ev_header}

-- A run of one record file, in which one interval is measured.
abbrev measured : List (Rec machine)
measured = at_point 1 10 ∷ at_point 2 15 ∷ []

abbrev its_pairs : List (Rec machine × Rec machine)
its_pairs = (at_point 1 10, at_point 2 15) ∷ []

abbrev disk : Disk
disk = record {
  input = λ name. inr (rec_header 1 ++ text_of machine 1 measured);
  denied = λ name. 0;
}

abbrev desk : Desk
desk = record { held = none; evs = 0 ∷ 0 ∷ []; files = []; all = [] }

abbrev in_path : Bytes
in_path = codes "/data/run_1"

abbrev out_path : Bytes
out_path = codes "/data/run_1/diff_1-1_1-2"

measured-IsFile :
    IsFile machine reader points reader-ReadsBack disk in_path out_path 1 job measured its_pairs
unfolding pairs rows_of fixed_part text_of fixed_fields ev_text rec_header ev_header counted decimal
    print_digits
measured-IsFile = record {
  reads = refl;
  opens = refl;
  records = (
    at_point-IsRec 1 10 (omega arith) (omega arith),
    (at_point-IsRec 2 15 (omega arith) (omega arith), tt),
  );
  measured = refl;
  fits = leb→le _ _ refl;
}

calc_interval_lem_example :
    (m : Desk) × (calc_interval reader points disk in_path out_path true (job ∷ []) desk
      ≡ done (0, m))
    × (m.files
        ≡ (
          out_name out_path job,
          out_header 1 ++ rows_of machine reader reader-ReadsBack job 1 0 its_pairs,
        )
          ∷ [])
    × (m.all ≡ out_header 1 ++ (rows_of machine reader reader-ReadsBack job 1 0 its_pairs ++ []))
calc_interval_lem_example =
    calc_interval_lem machine reader points reader-ReadsBack disk in_path out_path 1 true
      (job, measured, its_pairs) [] desk ((measured-IsFile, omega arith), tt) refl (omega arith)

-- A file in which nothing is measured, behind one that left a line in the buffer.
abbrev unmeasured : List (Rec machine)
unmeasured = at_point 2 15 ∷ []

abbrev later_disk : Disk
later_disk = record {
  input = λ name. inr (rec_header 1 ++ text_of machine 1 unmeasured);
  denied = λ name. 0;
}

abbrev later_desk : Desk
later_desk = record desk { held = some (codes "0,node\n") }

unmeasured-IsFile :
    IsFile machine reader points reader-ReadsBack later_disk in_path out_path 1 job unmeasured []
unfolding pairs rows_of
unmeasured-IsFile = record {
  reads = refl;
  opens = refl;
  records = (at_point-IsRec 2 15 (omega arith) (omega arith), tt);
  measured = refl;
  fits = omega arith;
}

still_shown :
    shown_of machine reader points reader-ReadsBack later_disk in_path out_path 1 job unmeasured []
      later_desk.held
    ≡ some (codes "0,node\n")
unfolding text_of fixed_fields ev_text rec_header ev_header decimal print_digits
still_shown = refl

process_lem_example :
    (m : Desk) × (process_file reader points later_disk in_path out_path 1 job later_desk
      ≡ done (0, m))
    × IsShown machine reader points reader-ReadsBack later_disk in_path out_path 1 job
        (codes "0,node\n")
        later_desk
        m
process_lem_example =
    process_lem machine reader points reader-ReadsBack later_disk in_path out_path 1 job unmeasured
      [] later_desk (codes "0,node\n") unmeasured-IsFile refl (omega arith) still_shown
