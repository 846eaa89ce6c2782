-- ===== src/Interval/Written.antt =====
-- What a rank's `calc_interval` leaves in the files of intervals, for record files of the probe.
use perf_hound.Prelude.{
  ℕ, ◌≤◌, ◌≡◌, inr, refl, ◌∙◌, List, [], ◌∷◌, ◌++◌, Bytes, codes, length, All, Option, some,
  if◌then◌else◌, ◌==◌,
}
use perf_hound.Prelude.Run.{done}
use perf_hound.Probe.{Machine, Rec}
use perf_hound.Probe.Setup.{rec_header}
use perf_hound.Probe.Row.{text_of}
use perf_hound.Interval.{Points, Job}
use perf_hound.Interval.Lines.{Scan, Reader, scan_file}
use perf_hound.Interval.Pairs.{IsRec, ReadsBack}
use perf_hound.Interval.Meaning.{pairs, rows_of}
use perf_hound.Interval.Files.{
  Disk, Desk, out_header, in_name, out_name, resized, outstr_of, process,
}
use perf_hound.Interval.Outcome.{scan_file-done}

module _ (h : Machine) (c : Reader h.Double) (a : Points) (l : ReadsBack h c) (d : Disk)
    (ipath opath : Bytes) (nev : ℕ) where
  -- The file of the records.
  abbrev pub file_of : List (Rec h) → Bytes
  file_of rs = rec_header nev ++ text_of h nev rs

  -- A record file of the run that is there, with what is measured in it, whose lines fit the buffer.
  pub record IsFile (j : Job) (rs : List (Rec h)) (ps : List (Rec h × Rec h)) : Type 0 where
    pub reads : d.input (in_name ipath j) ≡ inr (file_of rs)
    pub opens : d.denied (out_name opath j) ≡ 0
    pub records : All (IsRec h nev) rs
    pub measured : pairs h a rs ≡ some ps
    pub fits : length (rows_of h c l j nev 0 ps) ≤ length (file_of rs)

  -- The file that `shown` is written to, and all.csv, are extended by it.
  pub record IsShown (j : Job) (shown : Bytes) (k m : Desk) : Type 0 where
    pub kept : length m.evs ≡ length k.evs
    pub held : m.held ≡ some shown
    pub files : m.files ≡ k.files ++ (out_name opath j, out_header nev ++ shown) ∷ []
    pub all : m.all ≡ k.all ++ shown

  -- What is shown of a file: the lines of its pairs, and what the buffer held if there is none.
  abbrev pub shown_of : Job → List (Rec h) → List (Rec h × Rec h) → Option Bytes → Option Bytes
  shown_of j rs ps held =
      if length ps == 0 then resized (length (file_of rs)) held else some (rows_of h c l j nev 0 ps)

  outstr_of-shown_of :
      (j : Job) (rs : List (Rec h)) (ps : List (Rec h × Rec h)) (held : Option Bytes) (s : Scan)
      → s.id ≡ length ps
      → s.out ≡ rows_of h c l j nev 0 ps
      → outstr_of c a d ipath opath (length (file_of rs)) held s ≡ shown_of j rs ps held
  unfolding outstr_of
  outstr_of-shown_of j rs ps held s e o = rw (e, o) refl

  process_steps :
      (j : Job) (text shown : Bytes) (k : Desk) (s : Scan)
      → d.input (in_name ipath j) ≡ inr text
      → d.denied (out_name opath j) ≡ 0
      → scan_file c a j nev (length text) text k.evs ≡ done s
      → outstr_of c a d ipath opath (length text) k.held s ≡ some shown
      → d.denied (opath ++ codes "/all.csv") ≡ 0
      → process c a d ipath opath nev j k
        ≡ done (
          0,
          record {
            held = some shown;
            evs = s.evs;
            files = k.files ++ (out_name opath j, out_header nev ++ shown) ∷ [];
            all = k.all ++ shown;
          },
        )
  unfolding process
  process_steps j text shown k s there opened scanned shows all_opened =
      rw (process, there, opened, scanned, shows, all_opened) refl

  -- For a record file as the probe writes it, whose lines fit the buffer and whose files open, the
  -- interval tool writes to a file and to all.csv the lines of the measured pairs, or, when
  -- nothing is measured, what an earlier file left in the buffer, if that is a string that the new
  -- size keeps.
  pub process_lem :
      (j : Job) (rs : List (Rec h)) (ps : List (Rec h × Rec h)) (k : Desk) (shown : Bytes)
      → IsFile j rs ps
      → d.denied (opath ++ codes "/all.csv") ≡ 0
      → nev ≤ length k.evs
      → shown_of j rs ps k.held ≡ some shown
      → (m : Desk) × (process c a d ipath opath nev j k ≡ done (0, m)) × IsShown j shown k m
  process_lem j rs ps k shown f opened slots shows =
      let (s, ends, id_is, evs_are, out_is) =
        scan_file-done h c a l j nev (length (file_of rs)) rs k.evs ps f.records slots f.measured
          f.fits in
      (
        record {
          held = some shown;
          evs = s.evs;
          files = k.files ++ (out_name opath j, out_header nev ++ shown) ∷ [];
          all = k.all ++ shown;
        },
        process_steps j (file_of rs) shown k s f.reads f.opens ends
            (outstr_of-shown_of j rs ps k.held s id_is out_is ∙ shows) opened,
        record { kept = evs_are; held = refl; files = refl; all = refl },
      )
