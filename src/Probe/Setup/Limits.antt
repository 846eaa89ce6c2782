-- ===== src/Probe/Setup/Limits.antt =====
-- `ph_set_evt` and `phmpi_set_evt` at their limits of events.
use perf_hound.Prelude.{
  ℕ, ◌≤◌, ◌≡◌, ◌≢◌, refl, ◌∙◌, arith, length, true, false, Bytes, if◌then◌else◌, ltb, leb, ◌==◌,
  Bool-cases, inl, inr,
}
use perf_hound.Prelude.Run.{done, fault}
use perf_hound.Event.Parse.{parse_cfg}
use perf_hound.Probe.{Machine, Mode, State, slots, nev_max}
use perf_hound.Probe.Setup.{set_evt_by, set_evt, phmpi_set_evt, wtetag}
use perf_hound.Probe.Setup.Events.{taken, after_event, nev-after_event, set_evt_by-taken}

module _ (h : Machine) (o : Mode) where
  nev_max-slots : nev_max o ≤ slots o
  nev_max-slots = ground arith

  -- Before commit and with no more events than slots, setting an event is refused with 2 exactly
  -- when there are more than the maximum of events; a name that does not parse is only listed with
  -- the code of the last event, and faults when there is no event; and a name that parses is added
  -- and listed, and faults when all slots are taken.
  pub set_evt_lem :
      (etag : Bytes) (s : State h)
      → s.ready ≡ false
      → length s.evcodes ≡ slots o
      → s.nev ≤ slots o
      → set_evt h o etag s ≡ (if ltb (nev_max o) s.nev then done (2, s) else taken h o true etag s)
  unfolding set_evt set_evt_by
  set_evt_lem etag s fresh size le = elim (Bool-cases (ltb (nev_max o) s.nev)) [
    | inl many ↦ rw (many, fresh) refl
    | inr few ↦ rw few (set_evt_by-taken h o true etag s fresh size le)
  ]

  -- The same of `phmpi_set_evt`, which never overruns the array.
  pub phmpi_set_evt_lem :
      (rank : ℕ) (etag : Bytes) (s : State h)
      → s.ready ≡ false
      → length s.evcodes ≡ slots o
      → s.nev ≤ nev_max o
      → phmpi_set_evt h o rank etag s
        ≡ (if leb (nev_max o) s.nev then done (2, s) else taken h o (rank == 0) etag s)
  unfolding phmpi_set_evt set_evt_by
  phmpi_set_evt_lem rank etag s fresh size le = elim (Bool-cases (leb (nev_max o) s.nev)) [
    | inl many ↦ rw (many, fresh) refl
    | inr few ↦
        rw few (set_evt_by-taken h o (rank == 0) etag s fresh size (omega (arith, nev_max-slots)))
  ]

  -- Before commit and with no more events than the maximum, the call of the MPI library to set an
  -- event by a name that parses ends on every rank without a fault and with no more events than
  -- the maximum.
  pub phmpi_set_evt-safe :
      (rank : ℕ) (etag : Bytes) (s : State h)
      → s.ready ≡ false
      → length s.evcodes ≡ slots o
      → s.nev ≤ nev_max o
      → parse_cfg etag ≢ 0
      → (c : ℕ) × (t : State h) × (phmpi_set_evt h o rank etag s ≡ done (c, t))
        × (t.nev ≤ nev_max o)
  unfolding taken wtetag
  phmpi_set_evt-safe rank etag s fresh size le known = elim (Bool-cases (leb (nev_max o) s.nev)) [
    | inl many ↦ (2, s, phmpi_set_evt_lem rank etag s fresh size le ∙ rw many refl, le)
    | inr few ↦
        (let good : (parse_cfg etag == 0) ≡ false = ground arith in
          let free : (s.nev == slots o) ≡ false = ground (arith, nev_max-slots) in
          (
            0,
            after_event h o (rank == 0) etag s,
            phmpi_set_evt_lem rank etag s fresh size le ∙ rw (few, good, free) refl,
            nev-after_event h o (rank == 0) etag s (ground arith),
          ))
  ]

  -- Before commit, in the modes with as many slots as the maximum of events, setting one more
  -- event than the maximum by a name that parses writes behind the array.
  pub set_evt-overrun :
      (etag : Bytes) (s : State h)
      → s.ready ≡ false
      → length s.evcodes ≡ slots o
      → slots o ≡ nev_max o
      → s.nev ≡ nev_max o
      → parse_cfg etag ≢ 0
      → set_evt h o etag s ≡ fault
  unfolding taken
  set_evt-overrun etag s fresh size tight at_max known =
      let few : ltb (nev_max o) s.nev ≡ false = ground arith in
      let good : (parse_cfg etag == 0) ≡ false = ground arith in
      let ends : (s.nev == slots o) ≡ true = ground arith in
      set_evt_lem etag s fresh size (omega arith) ∙ rw (few, good, ends) refl
