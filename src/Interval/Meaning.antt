-- ===== src/Interval/Meaning.antt =====
-- The main loop of `calc_interval` as a function of the records that the probe wrote.
use perf_hound.Prelude.{
  ℕ, ◌+◌, ◌^◌, ◌≤◌, ◌<◌, ◌≡◌, refl, sym, ◌∙◌, arith, Bool, true, false, ◌&&◌, List, [], ◌∷◌, ◌++◌,
  Bytes, length, take, drop, All, ◌==◌, leb, if◌then◌else◌, length-take, Option, none, some,
}
use perf_hound.Prelude.Run.{Run, done, fault}
use perf_hound.Probe.{Machine, Rec}
use perf_hound.Probe.Row.{comma, newline, ev_text, text_of}
use perf_hound.Interval.{Points, Job}
use perf_hound.Interval.Scan.{next_word-decimal}
use perf_hound.Interval.Lines.{
  minus64, Scan, Reader, fixed_part, put_row, end_line, skip, start_line, iteration,
}
use perf_hound.Interval.Pairs.{
  IsRec, ReadsBack, text_of-cons, text_of-nil, next_point-last, next_point-line, skip_line-line,
  next_double-print_f,
}
use perf_hound.Interval.Events.{
  counted, length-counted, read_evs_lem, subtract_evs_lem, ev_fields-prefix,
}

module _ (h : Machine) (a : Points) where
  abbrev pub at_start : Rec h → Bool
  at_start r = (r.gid == a.sgid) && (r.pid == a.spid)

  abbrev pub at_end : Rec h → Bool
  at_end r = (r.gid == a.egid) && (r.pid == a.epid)

  -- The pairs of neighbours that are measured: a record at the start point with the next record,
  -- which is at the end point; where it is not, both are passed over. There is no answer when a
  -- record at the start point has no next one.
  unfoldable pub pairs : List (Rec h) → Option (List (Rec h × Rec h))
  pairs [] = some []
  pairs (r ∷ []) = if at_start r then none else some []
  pairs (r ∷ q ∷ rs) =
      let later = pairs rs in
      let next = pairs (q ∷ rs) in
      if at_start r
      then (if at_end q then elim later [ none ↦ none | some ps ↦ some ((r, q) ∷ ps) ] else later)
      else next

abbrev pub vals : (h : Machine) → ℕ → Rec h → List ℕ
vals h nev r = take nev r.ev

module _ (h : Machine) (c : Reader h.Double) (l : ReadsBack h c) (job : Job) (nev : ℕ) where
  -- The line of a pair.
  abbrev pub row_of : ℕ → Rec h → Rec h → Bytes
  row_of id r q =
      fixed_part c job id (minus64 q.cy r.cy) (minus64 q.ns r.ns) (l.nearest r.uval)
      ++ ev_text (counted (vals h nev q) (vals h nev r))
      ++ newline ∷ []

  unfoldable pub rows_of : ℕ → List (Rec h × Rec h) → Bytes
  rows_of id [] = []
  rows_of id ((r, q) ∷ ps) = row_of id r q ++ rows_of (id + 1) ps

-- What fits the buffer.
abbrev pub fitting : ℕ → Bytes → Run Bytes
fitting fsize t = if leb (length t) fsize then done t else fault

module _ (h : Machine) (c : Reader h.Double) (a : Points) (l : ReadsBack h c) (job : Job)
    (nev fsize : ℕ) where
  abbrev text : List (Rec h) → Bytes
  text rs = newline ∷ text_of h nev rs

  pub full : (r : Rec h) → IsRec h nev r → length (vals h nev r) ≡ nev
  full r w = omega (arith, length-take nev r.ev, w.wide)

  words : (r : Rec h) → IsRec h nev r → All (λ v. v < 2 ^ 64) (vals h nev r)
  words r w = w.ev_lt

  pub iteration-other :
      (s : Scan) (r : Rec h) (rs : List (Rec h))
      → s.pst ≡ text (r ∷ rs)
      → IsRec h nev r
      → at_start h a r ≡ false
      → iteration c a job nev fsize s ≡ done (record s { pst = text rs })
  unfolding iteration skip
  iteration-other s r rs e w other =
      rw
        (
          e,
          text_of-cons h nev r rs,
          next_point-line h nev r (text_of h nev rs) w,
          other,
          skip_line-line h c l nev r (text_of h nev rs) w,
        )
        refl

  -- A record at the start point at the end of the file: the tags behind it are out of the buffer.
  pub iteration-alone :
      (s : Scan) (r : Rec h)
      → s.pst ≡ text (r ∷ [])
      → nev ≤ length s.evs
      → IsRec h nev r
      → at_start h a r ≡ true
      → iteration c a job nev fsize s ≡ fault
  unfolding iteration start_line
  iteration-alone s r e fits w here =
      rw
        (
          e,
          text_of-cons h nev r [],
          next_point-line h nev r (text_of h nev []) w,
          here,
          next_word-decimal comma r.cy _ w.cy_lt refl,
          next_word-decimal comma r.ns _ w.ns_lt refl,
          next_double-print_f h c l r.uval (vals h nev r) (text_of h nev []),
          read_evs_lem nev (vals h nev r) s.evs (text_of h nev []) (full r w) fits (words r w),
          text_of-nil h nev,
          next_point-last,
        )
        refl

  -- A pair at the start point and another one: both are passed over.
  pub iteration-apart :
      (s : Scan) (r q : Rec h) (rs : List (Rec h))
      → s.pst ≡ text (r ∷ q ∷ rs)
      → nev ≤ length s.evs
      → IsRec h nev r
      → IsRec h nev q
      → at_start h a r ≡ true
      → at_end h a q ≡ false
      → iteration c a job nev fsize s
        ≡ done (record s { pst = text rs; evs = vals h nev r ++ drop nev s.evs })
  unfolding iteration start_line skip
  iteration-apart s r q rs e fits w v here other =
      rw
        (
          e,
          text_of-cons h nev r (q ∷ rs),
          next_point-line h nev r (text_of h nev (q ∷ rs)) w,
          here,
          next_word-decimal comma r.cy _ w.cy_lt refl,
          next_word-decimal comma r.ns _ w.ns_lt refl,
          next_double-print_f h c l r.uval (vals h nev r) (text_of h nev (q ∷ rs)),
          read_evs_lem nev (vals h nev r) s.evs (text_of h nev (q ∷ rs)) (full r w) fits
              (words r w),
          text_of-cons h nev q rs,
          next_point-line h nev q (text_of h nev rs) v,
          other,
          skip_line-line h c l nev q (text_of h nev rs) v,
        )
        refl

  -- A measured pair: its line is written if the buffer has room.
  pub iteration_pair :
      (s : Scan) (r q : Rec h) (rs : List (Rec h))
      → s.pst ≡ text (r ∷ q ∷ rs)
      → nev ≤ length s.evs
      → IsRec h nev r
      → IsRec h nev q
      → at_start h a r ≡ true
      → at_end h a q ≡ true
      → iteration c a job nev fsize s ≡ (
          let out = s.out ++ row_of h c l job nev s.id r q in
          if leb (length out) fsize
          then done (record {
            pst = text rs;
            evs = counted (vals h nev q) (vals h nev r) ++ drop nev s.evs;
            id = s.id + 1;
            out = out;
          })
          else fault)
  unfolding iteration start_line end_line put_row
  iteration_pair s r q rs e fits w v here there =
      rw
        (
          e,
          text_of-cons h nev r (q ∷ rs),
          next_point-line h nev r (text_of h nev (q ∷ rs)) w,
          here,
          next_word-decimal comma r.cy _ w.cy_lt refl,
          next_word-decimal comma r.ns _ w.ns_lt refl,
          next_double-print_f h c l r.uval (vals h nev r) (text_of h nev (q ∷ rs)),
          read_evs_lem nev (vals h nev r) s.evs (text_of h nev (q ∷ rs)) (full r w) fits
              (words r w),
          text_of-cons h nev q rs,
          next_point-line h nev q (text_of h nev rs) v,
          there,
          next_word-decimal comma q.cy _ v.cy_lt refl,
          next_word-decimal comma q.ns _ v.ns_lt refl,
          next_double-print_f h c l q.uval (vals h nev q) (text_of h nev rs),
          subtract_evs_lem nev (vals h nev q) (vals h nev r) (drop nev s.evs) (text_of h nev rs)
              (full q v) (full r w) (words q v),
          ev_fields-prefix nev (counted (vals h nev q) (vals h nev r)) (drop nev s.evs)
              (length-counted (vals h nev q) (vals h nev r) (full r w ∙ sym (full q v)) ∙ full q v),
        )
        refl
