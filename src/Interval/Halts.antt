-- ===== src/Interval/Halts.antt =====
-- The main loop of `calc_interval` ends on every text: each round moves ahead.
use perf_hound.Prelude.{
  ℕ, zero, suc, ◌+◌, ◌≤◌, ◌<◌, ◌≢◌, arith, ◌&&◌, List, [], ◌∷◌, ◌++◌, Bytes, length, leb, ◌==◌,
  Bool-cases, inl, inr,
}
use perf_hound.Prelude.Run.{Run, done, no_fuel, Ends, Ends-bind, Ends-mono, Ends-uncut}
use perf_hound.Probe.Row.{newline, ev_fields}
use perf_hound.Interval.{Points, Job}
use perf_hound.Interval.Scan.{ahead, next_word}
use perf_hound.Interval.Lines.{
  fixed_part, read_evs, subtract_evs, next_point, skip_line, Scan, Reader, next_double, put_row,
  end_line, skip, start_line, iteration, lines_loop, scan_file,
}
use perf_hound.Interval.Moves.{
  length-step_to, ahead-Ends, Shorter, next_word-Ends, skip_line-Ends, next_point-Ends,
  read_evs-Ends, subtract_evs-Ends, ev_fields-Ends,
}

-- `strtod` answers with a place in the text that it is given.
abbrev pub IsWithin : {Double : Type 0} → Reader Double → Type 0
IsWithin c = (s : Bytes) → length ((c.strtod s).1) ≤ length s

module _ {Double : Type 0} (c : Reader Double) (a : Points) (job : Job) (nev fsize : ℕ)
    (within : IsWithin c) where
  next_double-Ends : (s : Bytes) → Ends (Shorter s) (next_double c s)
  unfolding next_double
  next_double-Ends s =
      Ends-bind _ (Shorter s) (ahead 1 s) _ (ahead-Ends 1 s) (λ t shorter. omega (arith, within t))

  abbrev Ahead : Scan → Scan → Type 0
  Ahead l m = length m.pst < length l.pst

  put_row-Ends :
      (cy ns : ℕ) (uval : Double) (l : Scan)
      → Ends (λ m. length m.pst ≤ length l.pst) (put_row c a job nev fsize cy ns uval l)
  unfolding put_row
  put_row-Ends cy ns uval l =
      Ends-bind _ (λ m. length m.pst ≤ length l.pst) (ev_fields nev 0 l.evs) _
        (ev_fields-Ends nev 0 l.evs)
        (λ evs done_so.
          elim (Bool-cases (
            leb (length (l.out ++ (fixed_part c job l.id cy ns uval ++ evs ++ newline ∷ [])))
              fsize)) [ inl e ↦ rw e (omega arith) | inr e ↦ rw e tt ])

  skip-Ends : (l : Scan) → Ends (Ahead l) (skip c a job nev fsize l)
  unfolding skip
  skip-Ends l =
      Ends-bind (λ t. length t < length l.pst) (Ahead l) (skip_line nev l.pst) _
        (skip_line-Ends l.pst nev) (λ t shorter. shorter)

  end_line-Ends :
      (cy ns : ℕ) (uval : Double) (l : Scan)
      → Ends (Ahead l) (end_line c a job nev fsize cy ns uval l)
  unfolding end_line
  end_line-Ends cy ns uval l =
      Ends-bind _ (Ahead l) (next_word l.pst) _ (next_word-Ends l.pst) (λ cy2 b1.
        Ends-bind _ (Ahead l) (next_word (cy2.1)) _ (next_word-Ends (cy2.1)) (λ ns2 b2.
          Ends-bind _ (Ahead l) (next_double c (ns2.1)) _ (next_double-Ends (ns2.1)) (λ uval2 b3.
            Ends-bind _ (Ahead l) (subtract_evs nev 0 l.evs (uval2.1)) _
              (subtract_evs-Ends nev 0 l.evs (uval2.1))
              (λ evs2 b4.
                Ends-mono _ (Ahead l) _ (put_row-Ends _ _ uval _) (λ m b5. omega arith)))))

  start_line-Ends : (l : Scan) → Ends (Ahead l) (start_line c a job nev fsize l)
  unfolding start_line
  start_line-Ends l = Ends-bind _ (Ahead l) (next_word l.pst) _ (next_word-Ends l.pst) (λ cy b1.
      Ends-bind _ (Ahead l) (next_word (cy.1)) _ (next_word-Ends (cy.1)) (λ ns b2.
        Ends-bind _ (Ahead l) (next_double c (ns.1)) _ (next_double-Ends (ns.1)) (λ uval b3.
          Ends-bind _ (Ahead l) (read_evs nev 0 l.evs (uval.1)) _
            (read_evs-Ends nev 0 l.evs (uval.1))
            (λ evs b4.
              Ends-bind _ (Ahead l) (next_point (evs.1)) _ (next_point-Ends (evs.1)) (λ p b5.
                let m = record l { pst = p.2; evs = evs.0 } in
                elim (Bool-cases ((p.0 == a.egid) && (p.1 == a.epid))) [
                  | inl e ↦ rw e (
                      Ends-mono (Ahead m) (Ahead l) _ (end_line-Ends (cy.0) (ns.0) (uval.0) m)
                        (λ m b6. omega arith))
                  | inr e ↦
                      rw e (Ends-mono (Ahead m) (Ahead l) _ (skip-Ends m) (λ m b6. omega arith))
                ])))))

  iteration-Ends : (l : Scan) → Ends (Ahead l) (iteration c a job nev fsize l)
  unfolding iteration
  iteration-Ends l = Ends-bind _ (Ahead l) (next_point l.pst) _ (next_point-Ends l.pst) (λ p b1.
      let m = record l { pst = p.2 } in
      elim (Bool-cases ((p.0 == a.sgid) && (p.1 == a.spid))) [
        | inl e ↦ rw e (Ends-mono (Ahead m) (Ahead l) _ (start_line-Ends m) (λ m b2. omega arith))
        | inr e ↦ rw e (Ends-mono (Ahead m) (Ahead l) _ (skip-Ends m) (λ m b2. omega arith))
      ])

  at_end_or-Ends :
      (t : Bytes) (l : Scan) (m : Run Scan)
      → Ends (λ k. Unit) m
      → Ends (λ k. Unit) (elim t as (λ _. Run Scan) [ [] ↦ done l | b ∷ u ↦ m ])
  at_end_or-Ends [] l m e = tt
  at_end_or-Ends (b ∷ u) l m e = e

  lines_loop-Ends :
      (n : ℕ) (l : Scan) → length l.pst < n → Ends (λ m. Unit) (lines_loop c a job nev fsize n l)
  unfolding lines_loop
  lines_loop-Ends zero l enough = absurd (omega arith)
  lines_loop-Ends (suc n) l enough =
      Ends-bind _ (λ m. Unit) (ahead 1 l.pst) _ (ahead-Ends 1 l.pst)
        (λ t shorter. at_end_or-Ends t l _ (
          Ends-bind (Ahead l) (λ m. Unit) (iteration c a job nev fsize l) _ (iteration-Ends l)
            (λ m below. lines_loop-Ends n m (omega arith))))

  -- For every text and every strtod that answers with a place in what it is given, the loop of the
  -- interval tool over the lines ends within as many rounds as the text has bytes, and one.
  pub scan_file-ends :
      (text : Bytes) (evs : List ℕ) → scan_file c a job nev fsize text evs ≢ no_fuel
  unfolding scan_file
  scan_file-ends text evs =
      Ends-uncut (λ m. Unit)
        (lines_loop-Ends (length text + 1) _ (omega (arith, length-step_to text newline)))
