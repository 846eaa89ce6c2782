-- ===== src/Probe/Setup/Events.antt =====
-- What `ph_set_evt` and `phmpi_set_evt` have in common: an event is added, or an array is overrun.
use perf_hound.Prelude.{
  ℕ, ◌+◌, ◌-◌, ◌≤◌, ◌<◌, ◌≡◌, ◌≢◌, refl, ap, ◌∙◌, arith, length, get_elem?, get_elem?-get_or,
  get_or-set, get_or, set, not, get_elem?-total, length-set, ==_iff, get_elem?-out, Bool, true,
  false, Bytes, some, none, if◌then◌else◌, leb, ◌==◌, Bool-cases, inl, inr,
}
use perf_hound.Prelude.Run.{Run, done, fault, ◌>>=◌}
use perf_hound.Event.Parse.{parse_cfg}
use perf_hound.Event.Result.{parse_cfg-IsEventWord}
use perf_hound.Event.Kept.{word-proper}
use perf_hound.Probe.{Machine, Mode, State, slots, nev_max}
use perf_hound.Probe.Setup.{event_code, add_event, last_code, set_evt_by, wtetag}

-- A supported event's code is never the code of an unsupported one.
pub event_code-supported :
    (etag : Bytes) → leb (event_code etag) (0xFFFFFFFF - 1) ≡ not (parse_cfg etag == 0)
unfolding event_code
event_code-supported etag = elim (parse_cfg-IsEventWord etag) [
  | inl refused ↦ rw refused refl
  | inr word ↦ ground (arith, word-proper (parse_cfg etag) word)
]

event_code-known : (etag : Bytes) → (parse_cfg etag == 0) ≡ false → event_code etag ≡ parse_cfg etag
unfolding event_code
event_code-known etag known = rw known refl

module _ (h : Machine) (o : Mode) where
  -- The state with one more event.
  abbrev pub with_event : ℕ → State h → State h
  with_event code s = record s { evcodes = set s.evcodes s.nev code; nev = s.nev + 1 }

  abbrev pub after_event : Bool → Bytes → State h → State h
  after_event writes etag s =
      if writes
      then wtetag h o (s.nev + 1) etag (parse_cfg etag) (with_event (parse_cfg etag) s)
      else with_event (parse_cfg etag) s

  pub nev-after_event :
      (writes : Bool) (etag : Bytes) (s : State h)
      → s.nev < nev_max o
      → (after_event writes etag s).nev ≤ nev_max o
  unfolding wtetag
  nev-after_event true etag s lt = omega arith
  nev-after_event false etag s lt = omega arith

  -- What the two calls have in common behind their guards.
  unfoldable pub taken : Bool → Bytes → State h → Run (ℕ × State h)
  taken writes etag s =
      if parse_cfg etag == 0
      then if not writes
        then done (0, s)
        else if s.nev == 0
        then fault
        else done (0, wtetag h o s.nev etag (get_or s.evcodes (s.nev - 1) 0) s)
      else if s.nev == slots o
      then fault
      else done (0, after_event writes etag s)

  add_event-at :
      (code old : ℕ) (s : State h)
      → leb code (0xFFFFFFFF - 1) ≡ true
      → get_elem? s.evcodes s.nev ≡ some old
      → add_event h o code s ≡ done (with_event code s)
  unfolding add_event
  add_event-at code old s supported here = rw (supported, here) refl

  add_event-out :
      (code : ℕ) (s : State h)
      → leb code (0xFFFFFFFF - 1) ≡ true
      → get_elem? s.evcodes s.nev ≡ none
      → add_event h o code s ≡ fault
  unfolding add_event
  add_event-out code s supported out = rw (supported, out) refl

  add_event-unsupported :
      (code : ℕ) (s : State h) → leb code (0xFFFFFFFF - 1) ≡ false → add_event h o code s ≡ done s
  unfolding add_event
  add_event-unsupported code s refused = rw refused refl

  last_code-at :
      (s : State h)
      → s.nev ≢ 0
      → s.nev - 1 < length s.evcodes
      → last_code h o s ≡ done (get_or s.evcodes (s.nev - 1) 0)
  unfolding last_code
  last_code-at s some_set room =
      let tested : (s.nev == 0) ≡ false = ground arith in
      rw (tested, get_elem?-get_or s.evcodes (s.nev - 1) 0 room) refl

  last_code-none : (s : State h) → s.nev ≡ 0 → last_code h o s ≡ fault
  unfolding last_code
  last_code-none s none_set = rw none_set refl

  -- What follows the event in the list of events.
  noted : Bool → Bytes → State h → Run (ℕ × State h)
  noted writes etag t =
      if not writes
      then done (0, t)
      else (last_code h o t >>= λ code. done (0, wtetag h o t.nev etag code t))

  set_evt_by-noted :
      (writes : Bool) (etag : Bytes) (s : State h)
      → s.ready ≡ false
      → set_evt_by h o false writes etag s ≡ add_event h o (event_code etag) s >>= noted writes etag
  unfolding set_evt_by noted
  set_evt_by-noted writes etag s fresh = rw fresh refl

  noted-last :
      (etag : Bytes) (t : State h)
      → t.nev ≢ 0
      → t.nev - 1 < length t.evcodes
      → noted true etag t ≡ done (0, wtetag h o t.nev etag (get_or t.evcodes (t.nev - 1) 0) t)
  unfolding noted
  noted-last etag t some_set room = rw (last_code-at t some_set room) refl

  noted-none : (etag : Bytes) (t : State h) → t.nev ≡ 0 → noted true etag t ≡ fault
  unfolding noted
  noted-none etag t none_set = rw (last_code-none t none_set) refl

  noted-not : (etag : Bytes) (t : State h) → noted false etag t ≡ done (0, t)
  unfolding noted
  noted-not etag t = refl

  refused-taken :
      (writes : Bool) (etag : Bytes) (s : State h)
      → (parse_cfg etag == 0) ≡ true
      → s.nev ≤ length s.evcodes
      → noted writes etag s ≡ taken writes etag s
  unfolding taken
  refused-taken false etag s refused le = rw refused (noted-not etag s)
  refused-taken true etag s refused le = elim (Bool-cases (s.nev == 0)) [
    | inl none_set ↦ rw (refused, none_set) (noted-none etag s ((==_iff _ _).0 none_set))
    | inr some_set ↦ rw (refused, some_set) (noted-last etag s (ground arith) (ground arith))
  ]

  last_added :
      (code : ℕ) (s : State h)
      → s.nev < length s.evcodes
      → get_or (set s.evcodes s.nev code) (s.nev + 1 - 1) 0 ≡ code
  last_added code s room =
      ap (λ (i : ℕ). get_or (set s.evcodes s.nev code) i 0) {x = s.nev + 1 - 1} {y = s.nev}
        (omega arith)
      ∙ get_or-set s.evcodes s.nev code 0 room

  noted-added :
      (writes : Bool) (etag : Bytes) (code : ℕ) (s : State h)
      → s.nev < length s.evcodes
      → noted writes etag (with_event code s)
        ≡ done (
          0,
          if writes
              then wtetag h o (s.nev + 1) etag code (with_event code s)
              else with_event code s,
        )
  noted-added false etag code s room = noted-not etag (with_event code s)
  noted-added true etag code s room =
      noted-last etag (with_event code s) (λ q. omega arith)
        (omega (arith, length-set s.evcodes s.nev code))
      ∙ ap (λ (c : ℕ). done (0, wtetag h o (s.nev + 1) etag c (with_event code s)))
          (last_added code s room)

  supported-taken :
      (writes : Bool) (etag : Bytes) (s : State h)
      → (parse_cfg etag == 0) ≡ false
      → leb (event_code etag) (0xFFFFFFFF - 1) ≡ true
      → length s.evcodes ≡ slots o
      → s.nev ≤ slots o
      → add_event h o (event_code etag) s >>= noted writes etag ≡ taken writes etag s
  unfolding taken
  supported-taken writes etag s known supported size le = elim (Bool-cases (s.nev == slots o)) [
    | inl overrun ↦
        rw
          (
            known,
            overrun,
            add_event-out (event_code etag) s supported
                (get_elem?-out s.evcodes s.nev (omega (arith, (==_iff _ _).0 overrun))),
          )
          refl
    | inr free ↦
        (let room : s.nev < length s.evcodes = ground arith in
          let (old, here) = get_elem?-total s.evcodes s.nev room in
          rw (known, free)
            (ap (λ r. r >>= noted writes etag) (add_event-at (event_code etag) old s supported here)
              ∙ ap (λ (c : ℕ). noted writes etag (with_event c s)) (event_code-known etag known)
              ∙ noted-added writes etag (parse_cfg etag) s room))
  ]

  pub set_evt_by-taken :
      (writes : Bool) (etag : Bytes) (s : State h)
      → s.ready ≡ false
      → length s.evcodes ≡ slots o
      → s.nev ≤ slots o
      → set_evt_by h o false writes etag s ≡ taken writes etag s
  set_evt_by-taken writes etag s fresh size le = elim (Bool-cases (parse_cfg etag == 0)) [
    | inl refused ↦
        set_evt_by-noted writes etag s fresh
        ∙ ap (λ r. r >>= noted writes etag)
            (add_event-unsupported (event_code etag) s (event_code-supported etag ∙ ap not refused))
        ∙ refused-taken writes etag s refused (omega arith)
    | inr known ↦
        set_evt_by-noted writes etag s fresh
        ∙ supported-taken writes etag s known (event_code-supported etag ∙ ap not known) size le
  ]
