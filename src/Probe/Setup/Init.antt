-- ===== src/Probe/Setup/Init.antt =====
-- `ph_init`: the buffer of records.
use perf_hound.Prelude.{
  ℕ, zero, suc, ◌+◌, ◌-◌, ◌/◌, ◌^◌, ◌≤◌, ◌<◌, ◌≡◌, refl, sym, ◌∙◌, ap, arith, ltb, [], ◌∷◌, Bool,
  ◌&&◌, ◌⊎◌, Bool-cases, inl, inr, Option, none, length, length-replicate, All, true, false, Bytes,
  some,
}
use perf_hound.Prelude.Run.{done, exited}
use perf_hound.Probe.{Machine, Mode, Rec, State, slots, rec_size}
use perf_hound.Probe.Buffer.Put.{IsBuffer}
use perf_hound.Probe.Setup.{Process, wtctag, wtrankmap}
use perf_hound.Probe.Setup.Begin.{
  init, within_bytes, allocated, rec_bytes, buf_bytes, buf_records, begun_state,
}

-- Bounds on the number of records.
pub buf_records-ge :
    (o : Mode) (bufsize : ℕ)
    → 1 ≤ bufsize
    → bufsize < 2 ^ 21
    → (3 ≤ buf_records o bufsize) × (buf_records o bufsize < 2 ^ 31)
unfolding buf_records
buf_records-ge Mode.ts bufsize lo hi = (omega arith, omega arith)
buf_records-ge Mode.ev bufsize lo hi = (omega arith, omega arith)
buf_records-ge Mode.evx bufsize lo hi = (omega arith, omega arith)

one_fits : (o : Mode) (n : ℕ) → n ≤ 0 → ltb n (rec_bytes o) ≡ true
one_fits Mode.ts n e = ground arith
one_fits Mode.ev n e = ground arith
one_fits Mode.evx n e = ground arith

none_fits : (o : Mode) (n : ℕ) → ltb n (rec_bytes o) ≡ true → n / rec_bytes o ≡ 0
none_fits Mode.ts n e = ground arith
none_fits Mode.ev n e = ground arith
none_fits Mode.evx n e = ground arith

one_more_fits :
    (o : Mode) (n : ℕ)
    → ltb n (rec_bytes o) ≡ false
    → n / rec_bytes o ≡ suc ((n - rec_bytes o) / rec_bytes o)
one_more_fits Mode.ts n e = ground arith
one_more_fits Mode.ev n e = ground arith
one_more_fits Mode.evx n e = ground arith

module _ (h : Machine) (o : Mode) where
  within_bytes-none :
      (rounds nbyte i : ℕ) (memory : ℕ → Rec h)
      → ltb nbyte (rec_bytes o) ≡ true
      → within_bytes h o rounds nbyte i memory ≡ []
  unfolding within_bytes
  within_bytes-none zero nbyte i memory e = refl
  within_bytes-none (suc rounds) nbyte i memory e = rw (within_bytes, e) refl

  within_bytes-more :
      (rounds nbyte i : ℕ) (memory : ℕ → Rec h)
      → ltb nbyte (rec_bytes o) ≡ false
      → within_bytes h o (suc rounds) nbyte i memory
        ≡ memory i ∷ within_bytes h o rounds (nbyte - rec_bytes o) (i + 1) memory
  unfolding within_bytes
  within_bytes-more rounds nbyte i memory e = rw (within_bytes, e) refl

  -- As many records as the bytes have room for.
  length-within_bytes :
      (rounds nbyte i : ℕ) (memory : ℕ → Rec h)
      → nbyte ≤ rounds
      → length (within_bytes h o rounds nbyte i memory) ≡ nbyte / rec_bytes o
  length-within_bytes zero nbyte i memory enough =
      ap length (within_bytes-none zero nbyte i memory (one_fits o nbyte (omega arith)))
      ∙ sym (none_fits o nbyte (one_fits o nbyte (omega arith)))
  length-within_bytes (suc rounds) nbyte i memory enough =
      elim (Bool-cases (ltb nbyte (rec_bytes o))) [
        | inl small ↦
            ap length (within_bytes-none (suc rounds) nbyte i memory small)
            ∙ sym (none_fits o nbyte small)
        | inr large ↦
            ap length (within_bytes-more rounds nbyte i memory large)
            ∙ ap suc (
                length-within_bytes rounds (nbyte - rec_bytes o) (i + 1) memory
                  (omega (arith, enough)))
            ∙ sym (one_more_fits o nbyte large)
      ]

  within_bytes-wide :
      (rounds nbyte i : ℕ) (memory : ℕ → Rec h)
      → ((j : ℕ) → length ((memory j).ev) ≡ slots o)
      → All (λ r. length (r.ev) ≡ slots o) (within_bytes h o rounds nbyte i memory)
  within_bytes-wide zero nbyte i memory wide = unfold within_bytes in tt
  within_bytes-wide (suc rounds) nbyte i memory wide = elim (Bool-cases (ltb nbyte (rec_bytes o))) [
    | inl small ↦ rw (within_bytes-none (suc rounds) nbyte i memory small) tt
    | inr large ↦
        rw (within_bytes-more rounds nbyte i memory large)
          (wide i, within_bytes-wide rounds (nbyte - rec_bytes o) (i + 1) memory wide)
  ]

  -- The records that the bytes of the buffer have room for are those that are counted.
  length-allocated :
      (bufsize : ℕ) (memory : ℕ → Rec h)
      → length (allocated h o (buf_bytes bufsize) memory) ≡ buf_records o bufsize
  unfolding allocated buf_records
  length-allocated bufsize memory =
      length-within_bytes (buf_bytes bufsize) (buf_bytes bufsize) 0 memory (omega arith)
      ∙ ap (λ (d : ℕ). buf_bytes bufsize / d) {x = rec_bytes o} {y = rec_size o} (omega arith)

  pub begun_state-IsBuffer :
      (bufsize : ℕ) (memory : ℕ → Rec h) (info : Bytes) (pmu : h.Pmu)
      → 1 ≤ bufsize
      → bufsize < 2 ^ 21
      → ((j : ℕ) → length ((memory j).ev) ≡ slots o)
      → IsBuffer h o (begun_state h o bufsize memory info pmu)
  unfolding begun_state
  begun_state-IsBuffer bufsize memory info pmu lo hi wide =
      let fits = buf_records-ge o bufsize lo hi in
      record {
        size = length-allocated bufsize memory;
        nrec_ge = fits.0;
        nrec_lt = omega (arith, fits.1);
        wide =
            unfold allocated in
            within_bytes-wide (buf_bytes bufsize) (buf_bytes bufsize) 0 memory wide;
        fits = omega arith;
      }

  init-same :
      (bufsize : ℕ) (p : Process) (a b c d : Bool) (memory : ℕ → Rec h) (info : Bytes) (pmu : h.Pmu)
      → (a && b && c && d) ≡ true
      → init h o bufsize p a b c d (some memory) info pmu
        ≡ init h o bufsize p true true true true (some memory) info pmu
  unfolding init
  init-same bufsize p a b c d memory info pmu ok = rw ok refl

  -- When the directories, files and counters can be had, initialization succeeds.
  init-ready :
      (bufsize : ℕ) (p : Process) (a b c d : Bool) (memory : ℕ → Rec h) (info : Bytes) (pmu : h.Pmu)
      → 1 ≤ bufsize
      → bufsize < 2 ^ 21
      → ((j : ℕ) → length ((memory j).ev) ≡ slots o)
      → (a && b && c && d) ≡ true
      → (s : State h) × (init h o bufsize p a b c d (some memory) info pmu ≡ done s)
        × IsBuffer h o s
        × (s.nev ≡ 0)
        × (s.ready ≡ false)
        × (length s.evcodes ≡ slots o)
        × (s.buf_nrec ≡ buf_bytes bufsize / rec_bytes o)
  unfolding init wtctag wtrankmap begun_state buf_records
  init-ready bufsize p a b c d memory info pmu lo hi wide ok =
      let f = begun_state-IsBuffer bufsize memory info pmu lo hi wide in
      (
        _,
        init-same bufsize p a b c d memory info pmu ok,
        record {
          size = f.size;
          nrec_ge = f.nrec_ge;
          nrec_lt = f.nrec_lt;
          wide = f.wide;
          fits = f.fits;
        },
        refl,
        refl,
        length-replicate (slots o) 0,
        ap (λ (n : ℕ). buf_bytes bufsize / n) {x = rec_size o} {y = rec_bytes o} (omega arith),
      )

  init-refused :
      (bufsize : ℕ) (p : Process) (a b c d : Bool) (memory : ℕ → Rec h) (info : Bytes) (pmu : h.Pmu)
      → (a && b && c && d) ≡ false
      → init h o bufsize p a b c d (some memory) info pmu ≡ exited 1
  unfolding init
  init-refused bufsize p a b c d memory info pmu bad = rw (init, bad) refl

  abbrev pub is_had : Option (ℕ → Rec h) → Bool
  is_had none = false
  is_had (some memory) = true

  -- Initialization with a buffer from 1 KiB to below 2 GiB, whose memory, if it can be had, has
  -- all the slots of each record, exits with 1 when the directories, the files, the counters or
  -- the memory cannot be had; otherwise it succeeds with no events, not committed, and with a
  -- buffer of at least three records, as many as the allocated bytes have room for, that is fit
  -- for the readings.
  pub init-IsBuffer :
      (bufsize : ℕ) (p : Process) (mkdir_ok mkfile_ok mkhost_ok pmu_ok : Bool)
      (memory : Option (ℕ → Rec h)) (info : Bytes) (pmu : h.Pmu)
      → 1 ≤ bufsize
      → bufsize < 2 ^ 21
      → ((cells : ℕ → Rec h) (j : ℕ) → memory ≡ some cells → length ((cells j).ev) ≡ slots o)
      → let outcome = init h o bufsize p mkdir_ok mkfile_ok mkhost_ok pmu_ok memory info pmu in
        let all_had = mkdir_ok && mkfile_ok && mkhost_ok && pmu_ok && is_had memory in
        ((all_had ≡ false) × (outcome ≡ exited 1))
        ⊎ ((all_had ≡ true)
            × (s : State h) × (outcome ≡ done s)
            × IsBuffer h o s
            × (s.nev ≡ 0)
            × (s.ready ≡ false)
            × (length s.evcodes ≡ slots o)
            × (s.buf_nrec ≡ buf_bytes bufsize / rec_bytes o))
  init-IsBuffer bufsize p a b c d none info pmu lo hi wide = inl (ground arith, unfold init in refl)
  init-IsBuffer bufsize p a b c d (some memory) info pmu lo hi wide =
      elim (Bool-cases (a && b && c && d)) [
        | inl ok ↦
            let (s, e, buffer, no_events, closed, codes_fit, room) =
              init-ready bufsize p a b c d memory info pmu lo hi (λ j. wide memory j refl) ok in
            inr (ground (arith, ok), s, e, buffer, no_events, closed, codes_fit, room)
        | inr bad ↦ inl (ground (arith, bad), init-refused bufsize p a b c d memory info pmu bad)
      ]
