-- ===== src/Interval/Lines.antt =====
-- The main loop of `calc_interval`: over the lines of one record file.
use perf_hound.Prelude.{
  ℕ, zero, suc, ◌+◌, ◌-◌, ◌*◌, ◌^◌, ◌&&◌, List, [], ◌∷◌, ◌++◌, Bytes, leb, ltb, ◌==◌, set,
  get_elem?, if◌then◌else◌, length,
}
use perf_hound.Prelude.Run.{Run, done, fault, no_fuel, ◌>>=◌, access}
use perf_hound.Bits.{u64}
use perf_hound.Probe.Number.{decimal}
use perf_hound.Probe.Setup.{print_int}
use perf_hound.Probe.Row.{comma, newline, ev_fields}
use perf_hound.Interval.{Points, Job}
use perf_hound.Interval.Scan.{ahead, step_to, next_int, next_word}

-- `b - a` on words of 64 bits.
abbrev pub minus64 : ℕ → ℕ → ℕ
minus64 b a = u64 (b + (2 ^ 64 - a))

-- `evs[j] = v`.
unfoldable pub store : ℕ → ℕ → List ℕ → Run (List ℕ)
store j v evs = if ltb j (length evs) then done (set evs j v) else fault

-- `for (int j = 0; j < nev; j++) evs[j] = strtoull(pst+1, &pst, 10)`, with the rounds left.
unfoldable pub read_evs : ℕ → ℕ → List ℕ → Bytes → Run (List ℕ × Bytes)
read_evs zero j evs s = done (evs, s)
read_evs (suc n) j evs s = do
  r ← next_word s
  kept ← store j (r.0) evs
  read_evs n (j + 1) kept (r.1)

-- The same with `strtoull(pst+1, &pst, 10) - evs[j]`.
unfoldable pub subtract_evs : ℕ → ℕ → List ℕ → Bytes → Run (List ℕ × Bytes)
subtract_evs zero j evs s = done (evs, s)
subtract_evs (suc n) j evs s = do
  r ← next_word s
  old ← access (get_elem? evs j)
  kept ← store j (minus64 (r.0) old) evs
  subtract_evs n (j + 1) kept (r.1)

-- The two tags at the front of a line.
unfoldable pub next_point : Bytes → Run (ℕ × ℕ × Bytes)
next_point s = do g ← next_int s; p ← next_int (g.1); done (g.0, p.0, p.1)

-- `step_to(pst+5+2*nev, '\n', &pst)`.
unfoldable pub skip_line : ℕ → Bytes → Run Bytes
skip_line nev s = do t ← ahead (5 + 2 * nev) s; done (step_to t newline)

-- The variables of the loop: `pst`, `evs`, `id` and what is written to `outstr`.
pub record Scan : Type 0 where
  pub pst : Bytes
  pub evs : List ℕ
  pub id : ℕ
  pub out : Bytes

-- The doubles of the C library, with `strtod` and `%.15f`.
pub record Reader (Double : Type 0) : Type 0 where
  pub strtod : Bytes → Double × Bytes
  pub print_f15 : Double → Bytes

-- `uval = strtod(pst+1, &pst)`.
unfoldable pub next_double : {Double : Type 0} → Reader Double → Bytes → Run (Double × Bytes)
next_double c s = do t ← ahead 1 s; done (c.strtod t)

-- What a line begins with.
unfoldable pub fixed_part : {Double : Type 0} → Reader Double → Job → ℕ → ℕ → ℕ → Double → Bytes
fixed_part c job id cy ns uval =
    print_int id
    ++ (comma ∷ job.host
        ++ (comma ∷ print_int job.rank
            ++ (comma ∷ print_int job.cpu
                ++ (comma ∷ decimal cy ++ (comma ∷ decimal ns ++ (comma ∷ c.print_f15 uval))))))

module _ {Double : Type 0} (c : Reader Double) (a : Points) (job : Job) (nev fsize : ℕ) where
  open a use {sgid, spid, egid, epid}

  -- The `sprintf` calls of one line: `outstr` has `fsize + 1` bytes.
  unfoldable pub put_row : ℕ → ℕ → Double → Scan → Run Scan
  put_row cy ns uval l = do
    evs ← ev_fields nev 0 l.evs
    let out = l.out ++ (fixed_part c job l.id cy ns uval ++ evs ++ newline ∷ []) in
        if leb (length out) fsize then done (record l { id = l.id + 1; out = out }) else fault

  -- Behind the tags of a line at the end point.
  unfoldable pub end_line : ℕ → ℕ → Double → Scan → Run Scan
  end_line cy ns uval l = do
    cy2 ← next_word l.pst
    ns2 ← next_word (cy2.1)
    uval2 ← next_double c (ns2.1)
    evs2 ← subtract_evs nev 0 l.evs (uval2.1)
    put_row (minus64 (cy2.0) cy) (minus64 (ns2.0) ns) uval (record l { pst = evs2.1; evs = evs2.0 })

  unfoldable pub skip : Scan → Run Scan
  skip l = do t ← skip_line nev l.pst; done (record l { pst = t })

  -- Behind the tags of a line at the start point.
  unfoldable pub start_line : Scan → Run Scan
  start_line l = do
    cy ← next_word l.pst
    ns ← next_word (cy.1)
    uval ← next_double c (ns.1)
    evs ← read_evs nev 0 l.evs (uval.1)
    p ← next_point (evs.1)
    let m = record l { pst = p.2; evs = evs.0 } in
        if (p.0 == egid) && (p.1 == epid) then end_line (cy.0) (ns.0) (uval.0) m else skip m

  -- One round of the loop.
  unfoldable pub iteration : Scan → Run Scan
  iteration l = do
    p ← next_point l.pst
    let m = record l { pst = p.2 } in
        if (p.0 == sgid) && (p.1 == spid) then start_line m else skip m

  -- `while (*(pst+1))`.
  unfoldable pub lines_loop : ℕ → Scan → Run Scan
  lines_loop zero l = no_fuel
  lines_loop (suc n) l = do
    t ← ahead 1 l.pst
    elim t [ [] ↦ done l | b ∷ u ↦ iteration l >>= (λ m. lines_loop n m) ]

  -- From the text of a file: each round moves ahead in it.
  unfoldable pub scan_file : Bytes → List ℕ → Run Scan
  scan_file text evs =
      lines_loop (length text + 1)
        (record { pst = step_to text newline; evs = evs; id = 0; out = [] })
