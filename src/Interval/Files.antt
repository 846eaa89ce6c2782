-- ===== src/Interval/Files.antt =====
-- The files of `calc_interval`: one rank reads its record files and writes the intervals, each file
-- for itself and behind what is in all.csv.
use perf_hound.Prelude.{
  ℕ, zero, suc, ◌+◌, ◌-◌, List, [], ◌∷◌, ◌++◌, Bytes, codes, Option, none, some, ◌⊎◌, inl, inr, leb,
  ltb, ◌==◌, if◌then◌else◌, length, not, Bool, ◌&&◌,
}
use perf_hound.Prelude.Run.{Run, done, fault, ◌>>=◌, access}
use perf_hound.Probe.Setup.{print_int, ev_header}
use perf_hound.Probe.Row.{comma, newline}
use perf_hound.Interval.{Points, Job}
use perf_hound.Interval.Lines.{Scan, Reader, scan_file}

-- What the file system answers: the text of a file or the `errno` of its opening, and for a file
-- that is opened to be written the `errno`, which is 0 if it opens.
pub record Disk : Type 0 where
  pub input : Bytes → ℕ ⊎ Bytes
  pub denied : Bytes → ℕ

-- The state of a rank: `outstr`, if it holds a string, `evs`, and the files that are written, with
-- the rank's share of all.csv.
pub record Desk : Type 0 where
  pub held : Option Bytes
  pub evs : List ℕ
  pub files : List (Bytes × Bytes)
  pub all : Bytes

-- `while (*pst != '\n')`, with the columns counted so far.
unfoldable pub count_columns : Bytes → ℕ → Run ℕ
count_columns [] n = fault
count_columns (c ∷ s) n =
    let rest = count_columns s (if c == comma then n + 1 else n) in
    if c == newline then done n else rest

-- `nev = ncol - 5`. A first line of fewer than five columns is left out here, as a fault.
unfoldable pub count_events : Bytes → Run ℕ
count_events text = do n ← count_columns text 1; if ltb n 5 then fault else done (n - 5)

-- The header of a file of intervals.
unfoldable pub out_header : ℕ → Bytes
out_header nev = codes "id,host,rank,cpu,cycle,nanosec,uval" ++ ev_header nev 1 ++ newline ∷ []

-- "r%dc%d.csv".
abbrev rank_file : Job → Bytes
rank_file j = codes "/r" ++ print_int j.rank ++ codes "c" ++ print_int j.cpu ++ codes ".csv"

unfoldable pub in_name : Bytes → Job → Bytes
in_name ipath j = ipath ++ codes "/" ++ j.host ++ rank_file j

unfoldable pub out_name : Bytes → Job → Bytes
out_name opath j = opath ++ rank_file j

-- `realloc(outstr, fsize+1)`: a string that no longer fits has lost its NUL.
abbrev pub resized : ℕ → Option Bytes → Option Bytes
resized fsize none = none
resized fsize (some s) = if leb (length s) fsize then some s else none

module _ {Double : Type 0} (c : Reader Double) (a : Points) (d : Disk) (ipath opath : Bytes) where
  -- The text to be printed as "%s": `outstr` is only written when there is an interval.
  unfoldable pub outstr_of : ℕ → Option Bytes → Scan → Option Bytes
  outstr_of fsize held l = if l.id == 0 then resized fsize held else some l.out

  -- One round of the loop over the files; the answer is 0 or the `errno` that is returned. A record
  -- file that does not open is a null pointer in `fseek`.
  unfoldable pub process : ℕ → Job → Desk → Run (ℕ × Desk)
  process nev j k = elim (d.input (in_name ipath j)) [
    | inl e ↦ fault
    | inr text ↦
        let name = out_name opath j in
        if not (d.denied name == 0) then done (d.denied name, k) else (do
          l ← scan_file c a j nev (length text) text k.evs
          shown ← access (outstr_of (length text) k.held l)
          let m = record k {
            held = some shown;
            evs = l.evs;
            files = k.files ++ (name, out_header nev ++ shown) ∷ [];
          } in
              let e = d.denied (opath ++ codes "/all.csv") in
              if not (e == 0) then done (e, m) else done (0, record m { all = m.all ++ shown }))
  ]

  unfoldable pub process_all : ℕ → List Job → Desk → Run (ℕ × Desk)
  process_all nev [] k = done (0, k)
  process_all nev (j ∷ js) k = do
    r ← process nev j k
    elim (r.0) [ zero ↦ process_all nev js (r.1) | suc e ↦ done r ]

  -- `calc_interval` but for the messages: the first file gives the number of events, and rank 0
  -- begins all.csv.
  unfoldable pub calc_interval : Bool → List Job → Desk → Run (ℕ × Desk)
  calc_interval first [] k = fault
  calc_interval first (j ∷ js) k = elim (d.input (in_name ipath j)) [
    | inl e ↦ done (e, k)
    | inr text ↦ (do
      nev ← count_events text
      let e = d.denied (opath ++ codes "/all.csv") in
          if first && not (e == 0)
          then done (e, k)
          else process_all nev (j ∷ js) (if first then record k { all = out_header nev } else k))
  ]
