-- ===== src/Interval/Pairs.antt =====
-- What the lines of a record file say to the main loop of `calc_interval`, when the probe wrote them.
use perf_hound.Prelude.{
  ℕ, ◌+◌, ◌*◌, ◌^◌, ◌≤◌, ◌<◌, ◌≡◌, ◌≢◌, ◌⊎◌, inl, inr, refl, ap, arith, List, [], ◌∷◌, ◌++◌,
  append_assoc, Bytes, length, take, All, length-append, length-take, All-append, All-map,
}
use perf_hound.Prelude.Run.{done, fault}
use perf_hound.Probe.{Machine, Rec}
use perf_hound.Probe.Number.{decimal, decimal-IsDigit, length-decimal_pos}
use perf_hound.Probe.Row.{comma, newline, fixed_fields, ev_text, text_of}
use perf_hound.Event.Libc.{skip_space}
use perf_hound.Interval.Scan.{to_int, signed, ahead, next_int, next_int-decimal, step_to-behind}
use perf_hound.Interval.Lines.{next_point, skip_line, Reader, next_double}

-- A record with words of the widths of `rec_t`, and a slot for each of `nev` events.
pub record IsRec (h : Machine) (nev : ℕ) (r : Rec h) : Type 0 where
  pub gid_lt : r.gid < 2 ^ 32
  pub pid_lt : r.pid < 2 ^ 32
  pub cy_lt : r.cy < 2 ^ 64
  pub ns_lt : r.ns < 2 ^ 64
  pub ev_lt : All (λ v. v < 2 ^ 64) (take nev r.ev)
  pub wide : nev ≤ length r.ev

-- What `%f` prints is some bytes on one line, which `strtod` reads up to a comma or a newline.
pub record ReadsBack (h : Machine) (c : Reader h.Double) : Type 0 where
  pub nearest : h.Double → h.Double
  pub strtod-print_f :
      (v : h.Double) (d : ℕ) (rest : Bytes)
      → (d ≡ comma) ⊎ (d ≡ newline)
      → c.strtod (h.print_f v ++ (d ∷ rest)) ≡ (nearest v, d ∷ rest)
  pub length-print_f : (v : h.Double) → 1 ≤ length (h.print_f v)
  pub print_f-line : (v : h.Double) → All (λ b. b ≢ newline) (h.print_f v)

-- Behind the last line there are no tags to read.
pub next_point-last : next_point (newline ∷ []) ≡ fault
unfolding next_point next_int ahead to_int signed skip_space
next_point-last = refl

module _ (h : Machine) where
  -- The line behind its two tags, in front of `rest`.
  abbrev pub values_text : ℕ → Rec h → Bytes → Bytes
  values_text nev r rest =
      comma
      ∷ (decimal r.cy
          ++ (comma
              ∷ (decimal r.ns
                  ++ (comma
                      ∷ (h.print_f r.uval ++ (ev_text (take nev r.ev) ++ (newline ∷ rest)))))))

  pub text_of-cons :
      (nev : ℕ) (r : Rec h) (rs : List (Rec h))
      → text_of h nev (r ∷ rs)
        ≡ decimal r.gid ++ (comma ∷ (decimal r.pid ++ values_text nev r (text_of h nev rs)))
  unfolding text_of fixed_fields
  text_of-cons nev r rs = simp append_assoc

  pub text_of-nil : (nev : ℕ) → text_of h nev [] ≡ []
  unfolding text_of
  text_of-nil nev = refl

  pub next_point-line :
      (nev : ℕ) (r : Rec h) (rest : Bytes)
      → IsRec h nev r
      → next_point
          (newline ∷ (decimal r.gid ++ (comma ∷ (decimal r.pid ++ values_text nev r rest))))
        ≡ done (r.gid, r.pid, values_text nev r rest)
  unfolding next_point
  next_point-line nev r rest w =
      rw
        (
          next_int-decimal newline r.gid _ w.gid_lt refl,
          next_int-decimal comma r.pid _ w.pid_lt refl,
        )
        refl

  digits-line : (n : ℕ) → All (λ b. b ≢ newline) (decimal n)
  digits-line n = All-map (decimal n) (λ b d. ground (arith, d.0)) (decimal-IsDigit n)

  ev_text-line : (vs : List ℕ) → All (λ b. b ≢ newline) (ev_text vs)
  unfolding ev_text
  ev_text-line [] = tt
  ev_text-line (v ∷ vs) =
      (omega arith, All-append _ (decimal v) (ev_text vs) (digits-line v) (ev_text-line vs))

  length-ev_text : (vs : List ℕ) → 2 * length vs ≤ length (ev_text vs)
  unfolding ev_text
  length-ev_text [] = omega arith
  length-ev_text (v ∷ vs) =
      omega (arith, length-append (decimal v) (ev_text vs), length-decimal_pos v, length-ev_text vs)

  -- The rest of the line itself.
  abbrev values : ℕ → Rec h → Bytes
  values nev r =
      comma
      ∷ (decimal r.cy
          ++ (comma ∷ (decimal r.ns ++ (comma ∷ (h.print_f r.uval ++ ev_text (take nev r.ev))))))

  values-line :
      (c : Reader h.Double)
      → ReadsBack h c
      → (nev : ℕ) (r : Rec h) → All (λ b. b ≢ newline) (values nev r)
  values-line c l nev r =
      let uval =
        All-append _ (h.print_f r.uval) (ev_text (take nev r.ev)) (l.print_f-line r.uval)
          (ev_text-line (take nev r.ev)) in
      let sep : comma ≢ newline = omega arith in
      let ns = All-append _ (comma ∷ decimal r.ns) _ (sep, digits-line r.ns) (sep, uval) in
      All-append _ (comma ∷ decimal r.cy) _ (sep, digits-line r.cy) ns

  length-values :
      (c : Reader h.Double)
      → ReadsBack h c
      → (nev : ℕ) (r : Rec h) → IsRec h nev r
      → 5 + 2 * nev ≤ length (values nev r)
  length-values c l nev r w = omega (
    arith,
    length-append (decimal r.cy)
        (comma ∷ (decimal r.ns ++ (comma ∷ (h.print_f r.uval ++ ev_text (take nev r.ev))))),
    length-append (decimal r.ns) (comma ∷ (h.print_f r.uval ++ ev_text (take nev r.ev))),
    length-append (h.print_f r.uval) (ev_text (take nev r.ev)),
    length-decimal_pos r.cy,
    length-decimal_pos r.ns,
    l.length-print_f r.uval,
    length-ev_text (take nev r.ev),
    length-take nev r.ev,
    w.wide,
  )

  values_text-values :
      (nev : ℕ) (r : Rec h) (rest : Bytes)
      → values_text nev r rest ≡ values nev r ++ (newline ∷ rest)
  values_text-values nev r rest = simp append_assoc

  pub skip_line-line :
      (c : Reader h.Double)
      → ReadsBack h c
      → (nev : ℕ) (r : Rec h) (rest : Bytes) → IsRec h nev r
      → skip_line nev (values_text nev r rest) ≡ done (newline ∷ rest)
  unfolding skip_line
  skip_line-line c l nev r rest w = rw (values_text-values nev r rest) (
      step_to-behind newline (5 + 2 * nev) (values nev r) rest (length-values c l nev r w)
        (values-line c l nev r))

  pub next_double-print_f :
      (c : Reader h.Double) (l : ReadsBack h c) (v : h.Double) (vs : List ℕ) (rest : Bytes)
      → next_double c (comma ∷ (h.print_f v ++ (ev_text vs ++ (newline ∷ rest))))
        ≡ done (l.nearest v, ev_text vs ++ (newline ∷ rest))
  unfolding next_double ahead ev_text
  next_double-print_f c l v [] rest = ap done (l.strtod-print_f v newline rest (inr refl))
  next_double-print_f c l v (e ∷ vs) rest = ap done (l.strtod-print_f v comma _ (inl refl))
