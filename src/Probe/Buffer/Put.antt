-- ===== src/Probe/Buffer/Put.antt =====
-- One record in the buffer.
use perf_hound.Prelude.{
  ℕ, zero, suc, ◌+◌, ◌%◌, ◌^◌, ◌≤◌, ◌<◌, ◌≡◌, refl, ap, ◌∙◌, arith, List, [], ◌∷◌, ◌++◌, set, take,
  drop, length, All, All-set, All-get_elem?, get_elem?-total, take-set-suc, length-set,
  length-append, length-drop,
}
use perf_hound.Prelude.Run.{done}
use perf_hound.Probe.{Machine, Mode, Rec, State, counters_read, slots}
use perf_hound.Probe.Buffer.{firsts, measured, put}

pub length-firsts : (n i : ℕ) (pmc : ℕ → ℕ) → length (firsts n i pmc) ≡ n
unfolding firsts
length-firsts zero i pmc = refl
length-firsts (suc n) i pmc = ap suc (length-firsts n (i + 1) pmc)

-- A buffer of at least three records, each with all its slots, and enough slots for the events.
pub record IsBuffer (h : Machine) (o : Mode) (s : State h) : Type 0 where
  pub size : length s.precs ≡ s.buf_nrec
  pub nrec_ge : 3 ≤ s.buf_nrec
  pub nrec_lt : s.buf_nrec < 2 ^ 32
  pub wide : All (λ r. length (r.ev) ≡ slots o) s.precs
  pub fits : s.nev ≤ slots o

-- The records that are buffered.
abbrev pub kept : (h : Machine) → State h → List (Rec h)
kept h s = take s.irec s.precs

-- A record of the counters at reading `k`, with the given tags and value.
pub record IsReading (h : Machine) (o : Mode) (n gid pid : ℕ) (uval : h.Double) (k : ℕ) (r : Rec h)
    : Type 0 where
  pub gid_eq : r.gid ≡ gid
  pub pid_eq : r.pid ≡ pid
  pub uval_eq : r.uval ≡ uval
  pub cy_eq : r.cy ≡ (h.sample k).cy
  pub ns_eq : r.ns ≡ (h.sample k).ns
  pub ev_eq : take n (r.ev) ≡ firsts n 0 ((h.sample k).pmc)

module _ (h : Machine) (o : Mode) where
  take-firsts :
      (n i : ℕ) (pmc : ℕ → ℕ) (rest : List ℕ) → take n (firsts n i pmc ++ rest) ≡ firsts n i pmc
  unfolding firsts
  take-firsts zero i pmc rest = refl
  take-firsts (suc n) i pmc rest = ap (λ t. pmc i ∷ t) (take-firsts n (i + 1) pmc rest)

  measured-IsReading :
      (n gid pid : ℕ) (uval : h.Double) (k : ℕ) (old : Rec h)
      → IsReading h o n gid pid uval k (measured h o n gid pid uval (h.sample k) old)
  measured-IsReading n gid pid uval k old = record {
    gid_eq = refl;
    pid_eq = refl;
    uval_eq = refl;
    cy_eq = refl;
    ns_eq = refl;
    ev_eq = take-firsts n 0 ((h.sample k).pmc) (drop n (old.ev));
  }

  pub counters-slots : counters_read o ≤ slots o
  counters-slots = ground arith

  -- The state after a record in the next slot.
  abbrev pub appended : Rec h → State h → State h
  appended r s = record s { precs = set s.precs s.irec r; irec = s.irec + 1; ticks = s.ticks + 1 }

  appended-IsBuffer :
      (r : Rec h) (s : State h)
      → length (r.ev) ≡ slots o
      → IsBuffer h o s
      → IsBuffer h o (appended r s)
  appended-IsBuffer r s e b = record {
    size = length-set s.precs s.irec r ∙ b.size;
    nrec_ge = b.nrec_ge;
    nrec_lt = b.nrec_lt;
    wide = All-set (λ x. length (x.ev) ≡ slots o) s.precs s.irec r b.wide e;
    fits = b.fits;
  }

  pub kept-appended :
      (r : Rec h) (s : State h)
      → s.irec < length s.precs
      → kept h (appended r s) ≡ kept h s ++ r ∷ []
  kept-appended r s room =
      ap (λ (n : ℕ). take n (set s.precs s.irec r)) {x = s.irec + 1} {y = suc s.irec} (omega arith)
      ∙ take-set-suc s.precs s.irec r room

  -- With a free slot, the record is appended to the buffered ones.
  pub put_lem :
      (n gid pid : ℕ) (uval : h.Double) (s : State h)
      → n ≤ slots o
      → IsBuffer h o s
      → s.irec < s.buf_nrec
      → (r : Rec h) × (put h o n gid pid uval s ≡ done (appended r s))
        × IsBuffer h o (appended r s)
        × IsReading h o n gid pid uval s.ticks r
        × (kept h (appended r s) ≡ kept h s ++ r ∷ [])
  unfolding put
  put_lem n gid pid uval s few b room =
      let size = b.size in
      let lt = b.nrec_lt in
      let small : s.irec < length s.precs = omega arith in
      let (old, here) = get_elem?-total s.precs s.irec small in
      let r = measured h o n gid pid uval (h.sample s.ticks) old in
      let step : (s.irec + 1) % 2 ^ 32 ≡ s.irec + 1 = omega arith in
      let old_wide : length (old.ev) ≡ slots o =
        All-get_elem? (λ x. length (x.ev) ≡ slots o) s.precs s.irec b.wide here in
      let wide : length (r.ev) ≡ slots o = omega (
        arith,
        length-append (firsts n 0 ((h.sample s.ticks).pmc)) (drop n (old.ev)),
        length-firsts n 0 ((h.sample s.ticks).pmc),
        length-drop n (old.ev),
        few,
      ) in
      (
        r,
        rw (here, step) refl,
        appended-IsBuffer r s wide b,
        measured-IsReading n gid pid uval s.ticks old,
        kept-appended r s small,
      )
