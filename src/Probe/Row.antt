-- ===== src/Probe/Row.antt =====
-- `ph_io_wtrec` of src/probe/ph_io.c: the buffered records as lines of text.
pub mod ReadBack
use perf_hound.Prelude.{
  ℕ, zero, suc, ◌+◌, ◌≤◌, ◌≡◌, refl, sym, arith, List, [], ◌∷◌, ◌++◌, Bytes, get_elem?,
  get_elem?-total, drop-get_elem?, All-get_elem?, length, take, drop, All, if◌then◌else◌, not,
  append_assoc, Bool-cases, inl, inr, Bool, true, false, ◌==◌, ◌≢◌,
}
use perf_hound.Prelude.Run.{Run, done, ◌>>=◌, access}
use perf_hound.Bits.{u64}
use perf_hound.Probe.{Machine, Rec, State}
use perf_hound.Probe.Number.{decimal}

abbrev pub comma : ℕ
comma = 44

abbrev pub newline : ℕ
newline = 10

-- No byte of a text is a newline, as a test.
abbrev pub free : Bytes → Bool
free [] = true
free (b ∷ t) = if b == newline then false else free t

pub all_other : (t : Bytes) → free t ≡ true → All (λ b. b ≢ newline) t
all_other [] h = tt
all_other (b ∷ t) h = (ground (arith, h), all_other t (ground (arith, h)))

-- `for (j = 0; j < ph_nev; j++) fprintf(",%llu", ev[j])`, with the rounds left and `j`.
unfoldable pub ev_fields : ℕ → ℕ → List ℕ → Run Bytes
ev_fields zero j ev = done []
ev_fields (suc n) j ev = do
  v ← access (get_elem? ev j)
  rest ← ev_fields n (j + 1) ev
  done (comma ∷ decimal v ++ rest)

module _ (h : Machine) where
  open h use {print_f, opens}

  -- The five fields that every line has.
  unfoldable pub fixed_fields : Rec h → Bytes
  fixed_fields r =
      decimal r.gid
      ++ (comma ∷ decimal r.pid
          ++ (comma ∷ decimal r.cy ++ (comma ∷ decimal r.ns ++ (comma ∷ print_f r.uval))))

  unfoldable pub rows : ℕ → ℕ → ℕ → List (Rec h) → Run Bytes
  rows nev zero i rs = done []
  rows nev (suc n) i rs = do
    r ← access (get_elem? rs i)
    evs ← ev_fields nev 0 (r.ev)
    rest ← rows nev n (i + 1) rs
    done (fixed_fields r ++ evs ++ newline ∷ rest)

  -- The answer is 1 if the file does not open.
  unfoldable pub wtrec : ℕ → State h → Run (ℕ × State h)
  wtrec nrec s =
      let t = record s { nrec_tot = u64 (s.nrec_tot + nrec); attempts = s.attempts + 1 } in
      if not (opens s.attempts) then done (1, t) else (do
        text ← rows s.nev nrec 0 s.precs
        done (0, record t { rec_file = t.rec_file ++ text }))

-- The same lines, of records that have a slot for every event.
unfoldable pub ev_text : List ℕ → Bytes
ev_text [] = []
ev_text (v ∷ vs) = comma ∷ decimal v ++ ev_text vs

unfoldable pub text_of : (h : Machine) → ℕ → List (Rec h) → Bytes
text_of h nev [] = []
text_of h nev (r ∷ rs) = fixed_fields h r ++ ev_text (take nev (r.ev)) ++ newline ∷ text_of h nev rs

pub ev_fields-ev_text :
    (n j : ℕ) (ev : List ℕ)
    → j + n ≤ length ev
    → ev_fields n j ev ≡ done (ev_text (take n (drop j ev)))
unfolding ev_fields ev_text
ev_fields-ev_text zero j ev fits = refl
ev_fields-ev_text (suc n) j ev fits =
    let (v, here) = get_elem?-total ev j (omega arith) in
    rw (here, drop-get_elem? ev j v here, ev_fields-ev_text n (j + 1) ev (omega arith)) refl

rows-text_of :
    (h : Machine) (nev n i : ℕ) (rs : List (Rec h))
    → All (λ r. nev ≤ length (r.ev)) rs
    → i + n ≤ length rs
    → rows h nev n i rs ≡ done (text_of h nev (take n (drop i rs)))
unfolding rows text_of
rows-text_of h nev zero i rs wide fits = refl
rows-text_of h nev (suc n) i rs wide fits =
    let (r, here) = get_elem?-total rs i (omega arith) in
    let enough : nev ≤ length (r.ev) = All-get_elem? (λ r. nev ≤ length (r.ev)) rs i wide here in
    rw
      (
        here,
        drop-get_elem? rs i r here,
        ev_fields-ev_text nev 0 (r.ev) (omega arith),
        rows-text_of h nev n (i + 1) rs wide (omega arith),
      )
      refl

pub text_of-append :
    (h : Machine) (nev : ℕ) (rs qs : List (Rec h))
    → text_of h nev (rs ++ qs) ≡ text_of h nev rs ++ text_of h nev qs
unfolding text_of
text_of-append h nev [] qs = refl
text_of-append h nev (r ∷ rs) qs = rw (text_of-append h nev rs qs) (
    sym (
      append_assoc (fixed_fields h r ++ ev_text (take nev (r.ev))) (newline ∷ text_of h nev rs)
        (text_of h nev qs)))

-- Writing the first `n` records of a buffer that has them, each with a slot for every event.
pub wtrec_lem :
    (h : Machine) (n : ℕ) (s : State h)
    → n ≤ length s.precs
    → All (λ r. s.nev ≤ length (r.ev)) s.precs
    → wtrec h n s
      ≡ done (
        if h.opens s.attempts then 0 else 1,
        record s {
          nrec_tot = u64 (s.nrec_tot + n);
          attempts = s.attempts + 1;
          rec_file =
              (if h.opens s.attempts
                then s.rec_file ++ text_of h s.nev (take n s.precs)
                else s.rec_file);
        },
      )
unfolding wtrec
wtrec_lem h n s fits wide = elim (Bool-cases (h.opens s.attempts)) [
  | inl opened ↦ rw (opened, rows-text_of h s.nev n 0 s.precs wide (omega arith)) refl
  | inr closed ↦ rw closed refl
]
