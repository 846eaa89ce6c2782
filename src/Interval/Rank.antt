-- ===== src/Interval/Rank.antt =====
-- What a rank's `calc_interval` leaves in all its files of intervals, for record files of the probe.
use perf_hound.Prelude.{
  ℕ, ◌≤◌, ◌<◌, ◌≡◌, inr, refl, sym, ap, ◌∙◌, arith, Bool, true, false, List, [], ◌∷◌, ◌++◌,
  append_assoc, append-nil, Bytes, codes, length, All, Option, some, if◌then◌else◌, map,
}
use perf_hound.Prelude.Run.{done}
use perf_hound.Probe.{Machine, Rec}
use perf_hound.Probe.Row.{text_of}
use perf_hound.Interval.{Points, Job}
use perf_hound.Interval.Lines.{Reader}
use perf_hound.Interval.Pairs.{ReadsBack}
use perf_hound.Interval.Meaning.{rows_of}
use perf_hound.Interval.Files.{
  Disk, Desk, count_events, out_header, in_name, out_name, process, process_all, calc_interval,
}
use perf_hound.Interval.Outcome.{count_events-rec_header}
use perf_hound.Interval.Written.{file_of, IsFile, shown_of, process_lem}

module _ (h : Machine) (c : Reader h.Double) (a : Points) (l : ReadsBack h c) (d : Disk)
    (ipath opath : Bytes) (nev : ℕ) where
  -- The record files of a rank, each with its records and what is measured, which is something.
  abbrev pub Measured : Type 0
  Measured = Job × List (Rec h) × List (Rec h × Rec h)

  abbrev pub IsMeasured : Measured → Type 0
  IsMeasured (j, rs, ps) = IsFile h c a l d ipath opath nev j rs ps × (0 < length ps)

  abbrev pub lines_of : Measured → Bytes
  lines_of (j, rs, ps) = rows_of h c l j nev 0 ps

  abbrev pub job_of : Measured → Job
  job_of (j, rs, ps) = j

  abbrev pub all_lines : List Measured → Bytes
  all_lines [] = []
  all_lines (f ∷ fs) = lines_of f ++ all_lines fs

  abbrev pub all_files : List Measured → List (Bytes × Bytes)
  all_files [] = []
  all_files (f ∷ fs) = (out_name opath (job_of f), out_header nev ++ lines_of f) ∷ all_files fs

  shown-some :
      (j : Job) (rs : List (Rec h)) (ps : List (Rec h × Rec h)) (held : Option Bytes)
      → 0 < length ps
      → shown_of h c a l d ipath opath nev j rs ps held ≡ some (rows_of h c l j nev 0 ps)
  shown-some j rs ps held h = ground arith

  process_all-step :
      (j : Job) (js : List Job) (k m : Desk) (r : ℕ × Desk)
      → process c a d ipath opath nev j k ≡ done (0, m)
      → process_all c a d ipath opath nev js m ≡ done r
      → process_all c a d ipath opath nev (j ∷ js) k ≡ done r
  unfolding process_all
  process_all-step j js k m r e e' = rw (e, e') refl

  -- In terms of what was written before.
  process_all_lem :
      (fs : List Measured) (k : Desk)
      → All IsMeasured fs
      → d.denied (opath ++ codes "/all.csv") ≡ 0
      → nev ≤ length k.evs
      → (m : Desk) × (process_all c a d ipath opath nev (map job_of fs) k ≡ done (0, m))
        × (m.files ≡ k.files ++ all_files fs)
        × (m.all ≡ k.all ++ all_lines fs)
  process_all_lem [] k is opened slots =
      (k, unfold process_all in refl, sym (append-nil k.files), sym (append-nil k.all))
  process_all_lem ((j, rs, ps) ∷ fs) k is opened slots =
      let (m, ends, w) =
        process_lem h c a l d ipath opath nev j rs ps k (rows_of h c l j nev 0 ps) is.0.0 opened
          slots (shown-some j rs ps k.held is.0.1) in
      let (m', ends', files, all) =
        process_all_lem fs m is.1 opened (omega (arith, w.kept, slots)) in
      (
        m',
        process_all-step j (map job_of fs) k m _ ends ends',
        files ∙ ap (λ x. x ++ all_files fs) w.files ∙ append_assoc k.files _ (all_files fs),
        all ∙ ap (λ x. x ++ all_lines fs) w.all ∙ append_assoc k.all _ (all_lines fs),
      )

  -- What all.csv begins with, on rank 0 and on the others.
  abbrev pub begun : Bool → Desk → Desk
  begun first k = if first then record k { all = out_header nev } else k

  calc_interval-begun :
      (first : Bool) (j : Job) (js : List Job) (k : Desk) (text : Bytes)
      → d.input (in_name ipath j) ≡ inr text
      → count_events text ≡ done nev
      → d.denied (opath ++ codes "/all.csv") ≡ 0
      → calc_interval c a d ipath opath first (j ∷ js) k
        ≡ process_all c a d ipath opath nev (j ∷ js) (begun first k)
  unfolding calc_interval
  calc_interval-begun true j js k text there counted opened =
      rw (calc_interval, there, counted, opened) refl
  calc_interval-begun false j js k text there counted opened =
      rw (calc_interval, there, counted) refl

  slots_begun : (first : Bool) (k : Desk) → length (begun first k).evs ≡ length k.evs
  slots_begun true k = refl
  slots_begun false k = refl

  files_begun : (first : Bool) (k : Desk) → (begun first k).files ≡ k.files
  files_begun true k = refl
  files_begun false k = refl

  all_begun :
      (first : Bool) (k : Desk) → (begun first k).all ≡ (if first then out_header nev else k.all)
  all_begun true k = refl
  all_begun false k = refl

  -- A rank of the interval tool that has record files as the probe writes them, in each of which
  -- something is measured, whose lines fit the buffer, and whose files open, ends with 0, and has
  -- written the lines of the measured pairs of each file, behind a header, to a file of its own,
  -- and all of them in their order to all.csv, which rank 0 has begun with the header.
  pub calc_interval_lem :
      (first : Bool) (f : Measured) (fs : List Measured) (k : Desk)
      → All IsMeasured (f ∷ fs)
      → d.denied (opath ++ codes "/all.csv") ≡ 0
      → nev ≤ length k.evs
      → (m : Desk) × (calc_interval c a d ipath opath first (map job_of (f ∷ fs)) k ≡ done (0, m))
        × (m.files ≡ k.files ++ all_files (f ∷ fs))
        × (m.all ≡ (if first then out_header nev else k.all) ++ all_lines (f ∷ fs))
  calc_interval_lem first (j, rs, ps) fs k is opened slots =
      let (m, ends, files, all) =
        process_all_lem ((j, rs, ps) ∷ fs) (begun first k) is opened
          (omega (arith, slots, slots_begun first k)) in
      (
        m,
        calc_interval-begun first j (map job_of fs) k (file_of h c a l d ipath opath nev rs)
              (is.0.0.reads) (count_events-rec_header nev (text_of h nev rs)) opened
            ∙ ends,
        files ∙ ap (λ x. x ++ all_files ((j, rs, ps) ∷ fs)) (files_begun first k),
        all ∙ ap (λ x. x ++ all_lines ((j, rs, ps) ∷ fs)) (all_begun first k),
      )
