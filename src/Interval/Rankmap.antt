-- ===== src/Interval/Rankmap.antt =====
-- How `init_rankmap` reads rankmap.csv: the ranks, hosts and processors that have a record file.
pub mod Rows
pub mod RoundTrip
use perf_hound.Prelude.{
  true, false, ℕ, zero, suc, ◌+◌, ◌-◌, List, [], ◌∷◌, ◌++◌, Bytes, ltb, leb, ◌==◌, if◌then◌else◌,
  length, ◌||◌,
}
use perf_hound.Prelude.Run.{Run, done, fault, no_fuel, ◌>>=◌}
use perf_hound.Probe.Row.{comma, newline}
use perf_hound.Interval.{Job}
use perf_hound.Interval.Scan.{to_int}

-- `while (prmap[0])` with the count of newlines.
unfoldable pub count_lines : Bytes → ℕ
count_lines [] = 0
count_lines (c ∷ s) = (if c == newline then 1 else 0) + count_lines s

-- The text in front of the next comma, and what follows the comma.
unfoldable pub to_comma : Bytes → Run (Bytes × Bytes)
to_comma [] = fault
to_comma (c ∷ s) =
    let rest = to_comma s in
    if c == comma then done ([], s) else rest >>= (λ r. done (c ∷ r.0, r.1))

-- `int i = 1; while (prmap[i] != ',') i++`: a field has one byte or more, whatever it is.
unfoldable pub field : Bytes → Run (Bytes × Bytes)
field [] = fault
field (c ∷ s) = do r ← to_comma s; done (c ∷ r.0, r.1)

-- `HOST_NAME_MAX` of Linux: a host's slot, which a longer name runs over.
abbrev pub host_name_max : ℕ
host_name_max = 64

-- The three fields of a line.
unfoldable pub read_job : Bytes → Run (Job × Bytes)
read_job s = do
  r ← field s
  host ← field (r.1)
  cpu ← field (host.1)
  let job : Job = record { host = host.0; rank = (to_int (r.0)).0; cpu = (to_int (cpu.0)).0 } in
      if ltb (length (host.0)) host_name_max then done (job, cpu.1) else fault

-- `while (prmap[0])` with the lines: `prmap` and `idf`. The arrays have `fcount` entries.
unfoldable pub jobs_loop : ℕ → ℕ → ℕ → Bytes → Run (List Job)
jobs_loop zero fcount idf s = no_fuel
jobs_loop (suc n) fcount idf [] = done []
jobs_loop (suc n) fcount idf (c ∷ []) = done []
jobs_loop (suc n) fcount idf (c ∷ d ∷ s) = elim (d == newline) [
  | false ↦ jobs_loop n fcount idf (d ∷ s)
  | true ↦ elim s [
    | [] ↦ done []
    | e ∷ t ↦
        if leb fcount idf
        then fault
        else (do r ← read_job (e ∷ t); rest ← jobs_loop n fcount (idf + 1) (r.1); done (r.0 ∷ rest))
  ]
]

-- The text of the file: with no line behind the header, `allhosts[0]` is out of bounds.
unfoldable pub read_rankmap : Bytes → Run (List Job)
read_rankmap text =
    let fcount = count_lines text - 1 in
    if fcount == 0 then fault else jobs_loop (length text + 1) fcount 0 text
