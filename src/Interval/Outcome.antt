-- ===== src/Interval/Outcome.antt =====
-- What `calc_interval` writes for a record file that the probe made: the records of src/probe/ph_io.c
-- behind the header of `ph_io_mkrec`.
use perf_hound.Prelude.{
  ℕ, zero, suc, ◌+◌, ◌≤◌, ◌≡◌, ◌≢◌, refl, ap, ◌∙◌, arith, List, [], ◌∷◌, ◌++◌, append_assoc, Bytes,
  codes, length, All, All-append, All-map, Option, none, some, length-append, take,
}
use perf_hound.Prelude.Run.{Run, done, exited, fault, no_fuel, ◌>>=◌, access}
use perf_hound.Probe.{Machine, Rec}
use perf_hound.Probe.Number.{decimal, decimal-IsDigit, IsDigit}
use perf_hound.Probe.Setup.{ev_header, rec_header}
use perf_hound.Probe.Row.{all_other, newline, text_of, ev_text, fixed_fields}
use perf_hound.Interval.{Points, Job}
use perf_hound.Interval.Scan.{ahead, step_to, step_to-behind}
use perf_hound.Interval.Lines.{Scan, Reader, scan_file}
use perf_hound.Interval.Pairs.{IsRec, ReadsBack}
use perf_hound.Interval.Meaning.{pairs, rows_of, fitting}
use perf_hound.Interval.Refines.{loop-meant}
use perf_hound.Interval.Files.{count_columns, count_events}

ev_header-line : (n i : ℕ) → All (λ b. b ≢ newline) (ev_header n i)
unfolding ev_header
ev_header-line zero i = tt
ev_header-line (suc n) i = (
  omega arith,
  (
    omega arith,
    (
      omega arith,
      All-append _ (decimal i) (ev_header n (i + 1))
          (All-map (decimal i) (λ b d. ground (arith, d.0)) (decimal-IsDigit i))
          (ev_header-line n (i + 1)),
    ),
  ),
)

digits-columns :
    (t rest : Bytes) (n : ℕ) → All IsDigit t → count_columns (t ++ rest) n ≡ count_columns rest n
unfolding count_columns
digits-columns [] rest n d = refl
digits-columns (c ∷ t) rest n d = ground (arith, d.0, digits-columns t rest n d.1)

ev_header-columns :
    (k i n : ℕ) (rest : Bytes) → count_columns (ev_header k i ++ (newline ∷ rest)) n ≡ done (n + k)
unfolding ev_header count_columns
ev_header-columns zero i n rest = ap done {x = n} {y = n + 0} (omega arith)
ev_header-columns (suc k) i n rest =
    rw
      (
        append_assoc (decimal i) (ev_header k (i + 1)) (newline ∷ rest),
        digits-columns (decimal i) (ev_header k (i + 1) ++ (newline ∷ rest)) (n + 1)
            (decimal-IsDigit i),
        ev_header-columns k (i + 1) (n + 1) rest,
      )
      (ap done {x = n + 1 + k} {y = n + suc k} (omega arith))

abbrev fixed_names : Bytes
fixed_names = codes "gid,pid,cycle,nanosec,uval"

done_inj : {a b : Bytes} → done a ≡ done b → a ≡ b
done_inj {a} e = ap (λ o. elim o [ done x ↦ x | _ ↦ a ]) e

-- The header, with what follows it.
header-split :
    (nev : ℕ) (rest : Bytes)
    → rec_header nev ++ rest ≡ (fixed_names ++ ev_header nev 1) ++ (newline ∷ rest)
unfolding rec_header
header-split nev rest = append_assoc (fixed_names ++ ev_header nev 1) (newline ∷ []) rest

fixed_columns : (rest : Bytes) → count_columns (fixed_names ++ rest) 1 ≡ count_columns rest 5
unfolding count_columns
fixed_columns rest = refl

-- The tool counts the events of a record file right.
pub count_events-rec_header :
    (nev : ℕ) (rest : Bytes) → count_events (rec_header nev ++ rest) ≡ done nev
unfolding count_events
count_events-rec_header nev rest =
    let columns : count_columns (rec_header nev ++ rest) 1 ≡ done (5 + nev) =
      ap (λ t. count_columns t 1)
        (header-split nev rest ∙ append_assoc fixed_names (ev_header nev 1) (newline ∷ rest))
      ∙ fixed_columns (ev_header nev 1 ++ (newline ∷ rest))
      ∙ ev_header-columns nev 1 5 rest in
    rw columns (ground arith)

header-line : (nev : ℕ) → All (λ b. b ≢ newline) (fixed_names ++ ev_header nev 1)
header-line nev =
    All-append _ fixed_names (ev_header nev 1) (all_other fixed_names refl) (ev_header-line nev 1)

-- The first newline of a record file ends its header.
step_to-header :
    (nev : ℕ) (rest : Bytes) → step_to (rec_header nev ++ rest) newline ≡ newline ∷ rest
step_to-header nev rest = done_inj (
    ap (λ t. done (step_to t newline)) (header-split nev rest)
    ∙ unfold ahead in
      step_to-behind newline 0 (fixed_names ++ ev_header nev 1) rest (omega arith)
        (header-line nev))

lines-text_of : (h : Machine) (nev : ℕ) (rs : List (Rec h)) → length rs ≤ length (text_of h nev rs)
unfolding text_of
lines-text_of h nev [] = omega arith
lines-text_of h nev (r ∷ rs) = omega (
  arith,
  length-append (fixed_fields h r ++ ev_text (take nev r.ev)) (newline ∷ text_of h nev rs),
  lines-text_of h nev rs,
)

-- The count of the lines, the slots and the lines that a call leaves.
abbrev pub left_by : Run Scan → Run (ℕ × ℕ × Bytes)
left_by m = m >>= (λ s. done (s.id, length s.evs, s.out))

answered :
    (m : Run Scan) (i k : ℕ) (t : Bytes)
    → left_by m ≡ done (i, k, t)
    → (s : Scan) × (m ≡ done s) × (s.id ≡ i) × (length s.evs ≡ k) × (s.out ≡ t)
answered (done s) i k t e = (s, refl, ground arith, ground arith, ground arith)
answered (exited x) i k t e = absurd (ground arith)
answered fault i k t e = absurd (ground arith)
answered no_fuel i k t e = absurd (ground arith)

module _ (h : Machine) (c : Reader h.Double) (a : Points) (l : ReadsBack h c) (job : Job) where
  abbrev count_as : ℕ → ℕ → Bytes → Run (ℕ × ℕ × Bytes)
  count_as k i t = done (i, k, t)

  -- The lines of the pairs, if they fit, with their number and that of the slots.
  abbrev pub told : ℕ → ℕ → ℕ → Option (List (Rec h × Rec h)) → Run (ℕ × ℕ × Bytes)
  told nev fsize k found =
      access found >>= (λ ps. fitting fsize (rows_of h c l job nev 0 ps) >>= count_as k (length ps))

  from_zero :
      (nev fsize k : ℕ) (found : Option (List (Rec h × Rec h)))
      → (access found
          >>= (λ ps. fitting fsize (rows_of h c l job nev 0 ps) >>= count_as k (0 + length ps)))
        ≡ told nev fsize k found
  from_zero nev fsize k none = refl
  from_zero nev fsize k (some ps) =
      ap (λ (i : ℕ). fitting fsize (rows_of h c l job nev 0 ps) >>= count_as k i)
        {x = 0 + length ps} {y = length ps} (omega arith)

  -- On the lines of records that have words of the widths of rec_t and a slot for each event, with
  -- slots for the events and a strtod that reads back what %f prints, the loop of the interval
  -- tool computes what a function of the records does: the lines of the pairs of a record at the
  -- start point with its neighbour at the end point, with their number, or a fault if these do not
  -- fit the buffer or the last record is at the start point with no neighbour.
  pub scan_file-pairs :
      (nev fsize : ℕ) (rs : List (Rec h)) (evs : List ℕ)
      → All (IsRec h nev) rs
      → nev ≤ length evs
      → left_by (scan_file c a job nev fsize (rec_header nev ++ text_of h nev rs) evs)
        ≡ told nev fsize (length evs) (pairs h a rs)
  unfolding scan_file
  scan_file-pairs nev fsize rs evs w slots =
      loop-meant h c a l job nev fsize (length evs) slots rs _ _
        (step_to-header nev (text_of h nev rs)) w refl
        (omega (arith, lines-text_of h nev rs, length-append (rec_header nev) (text_of h nev rs)))
        (omega arith)
      ∙ from_zero nev fsize (length evs) (pairs h a rs)

  -- The same, when there are pairs and their lines fit.
  pub scan_file-done :
      (nev fsize : ℕ) (rs : List (Rec h)) (evs : List ℕ) (ps : List (Rec h × Rec h))
      → All (IsRec h nev) rs
      → nev ≤ length evs
      → pairs h a rs ≡ some ps
      → length (rows_of h c l job nev 0 ps) ≤ fsize
      → (s : Scan) × (scan_file c a job nev fsize (rec_header nev ++ text_of h nev rs) evs ≡ done s)
        × (s.id ≡ length ps)
        × (length s.evs ≡ length evs)
        × (s.out ≡ rows_of h c l job nev 0 ps)
  scan_file-done nev fsize rs evs ps w slots found fits =
      answered (scan_file c a job nev fsize (rec_header nev ++ text_of h nev rs) evs) _ _ _
        (scan_file-pairs nev fsize rs evs w slots ∙ rw found (ground arith))
