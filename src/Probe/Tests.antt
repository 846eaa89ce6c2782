-- ===== src/Probe/Tests.antt =====
-- Runs of the probe on the machine of Probe/Demo.
use perf_hound.Prelude.{
  ap, sym, some_inj, ◌/◌, ◌⊎◌, ℕ, ◌+◌, ◌≤◌, ◌≡◌, ◌≢◌, refl, arith, List, [], ◌∷◌, ◌++◌, length,
  true, false, codes, some, if◌then◌else◌, ltb,
}
use perf_hound.Prelude.Run.{done, fault, exited}
use perf_hound.Event.Libc.{starts_with, skip_space, digits, strtoull}
use perf_hound.Event.Parse.{
  umask_list, find_event, find_number, by_number, parse_event, find_umask, parse_umask, threshold,
  parse_cmask, modes_loop, parse_modes, event_word, parse_tail, parse_masked, parse_from, parse_cfg,
}
use perf_hound.Event.Events.{event_list}
use perf_hound.Event.UmasksLow.{umasks_low}
use perf_hound.Event.UmasksMid.{umasks_mid}
use perf_hound.Event.UmasksHigh.{umasks_high}
use perf_hound.Event.UmasksTop.{umasks_top}
use perf_hound.Probe.{Mode, Rec, State, slots, nev_max}
use perf_hound.Probe.Row.{text_of}
use perf_hound.Probe.Buffer.{read}
use perf_hound.Probe.Buffer.Put.{IsBuffer}
use perf_hound.Probe.Buffer.Read.{Step, read_lem}
use perf_hound.Probe.Buffer.Log.{Request, Log}
use perf_hound.Probe.Setup.{rec_header, set_evt, phmpi_set_evt}
use perf_hound.Probe.Setup.Events.{taken}
use perf_hound.Probe.Setup.Limits.{set_evt_lem, phmpi_set_evt-safe, set_evt-overrun}
use perf_hound.Probe.Setup.Begin.{init, buf_bytes, rec_bytes}
use perf_hound.Probe.Setup.Init.{init-IsBuffer}
use perf_hound.Probe.Demo.{machine, blank, process, with_events, fresh, fresh-IsBuffer}
use perf_hound.Probe.Setup.Session.{first_request, last_request, session, session_lem}

abbrev three : List (Request machine Mode.ev)
three =
    record { gid = 1; pid = 1; uval = 5 }
    ∷ record { gid = 1; pid = 2; uval = 6 }
    ∷ record { gid = 1; pid = 1; uval = 7 }
    ∷ []

session_lem_example :
    (u : State machine) × (rs : List (Rec machine)) × (session machine Mode.ev process true three
        fresh
      ≡ done u)
    × Log machine Mode.ev 4 0
        (first_request machine Mode.ev ∷ (three ++ last_request machine Mode.ev ∷ []))
        rs
    × (u.rec_file ≡ rec_header 1 ++ text_of machine 1 rs)
session_lem_example =
    session_lem machine Mode.ev process true three fresh (omega arith) (λ k. refl) fresh-IsBuffer

blank-wide :
    (cells : ℕ → Rec machine) (j : ℕ)
    → some (λ (k : ℕ). blank) ≡ some cells
    → length ((cells j).ev) ≡ slots Mode.ev
blank-wide cells j e = ap (λ f. length ((f j).ev)) (sym (some_inj e))

init-IsBuffer_example :
    let outcome = init machine Mode.ev 1 process true true true true (some (λ j. blank)) [] tt in
    ((true ≡ false) × (outcome ≡ exited 1))
    ⊎ ((true ≡ true)
        × (s : State machine) × (outcome ≡ done s)
        × IsBuffer machine Mode.ev s
        × (s.nev ≡ 0)
        × (s.ready ≡ false)
        × (length s.evcodes ≡ slots Mode.ev)
        × (s.buf_nrec ≡ buf_bytes 1 / rec_bytes Mode.ev))
init-IsBuffer_example =
    init-IsBuffer machine Mode.ev 1 process true true true true (some (λ j. blank)) [] tt
      (omega arith) (omega arith) blank-wide

read_lem_example :
    (t : State machine) × (read machine Mode.ev 2 1 2 9 (record fresh { irec = 2 }) ≡ done t)
    × IsBuffer machine Mode.ev t
    × (t.irec + 2 ≤ t.buf_nrec)
    × Step machine Mode.ev 1 2 9 (record fresh { irec = 2 }) t
read_lem_example =
    read_lem machine Mode.ev 0 1 2 9 (record fresh { irec = 2 })
      (record {
        size = refl;
        nrec_ge = omega arith;
        nrec_lt = omega arith;
        wide = (refl, (refl, (refl, (refl, tt))));
        fits = omega arith;
      })
      (omega arith)

set_evt_lem_example : set_evt machine Mode.ev (codes "no_such_event") fresh ≡ (
    if ltb 4 1 then done (2, fresh) else taken machine Mode.ev true (codes "no_such_event") fresh)
set_evt_lem_example =
    set_evt_lem machine Mode.ev (codes "no_such_event") fresh refl refl (omega arith)

halted : parse_cfg (codes "0x3C.0x00") ≡ 0x41003C
unfolding umask_list find_event find_number by_number parse_event find_umask parse_umask threshold
    parse_cmask modes_loop parse_modes event_word parse_tail parse_masked parse_from parse_cfg
    starts_with skip_space digits strtoull event_list umasks_low umasks_mid umasks_high umasks_top
halted = refl

known : parse_cfg (codes "0x3C.0x00") ≢ 0
known e = omega (arith, halted)

phmpi_set_evt-safe_example :
    (c : ℕ) × (t : State machine) × (phmpi_set_evt machine Mode.ev 0 (codes "0x3C.0x00") fresh
      ≡ done (c, t))
    × (t.nev ≤ nev_max Mode.ev)
phmpi_set_evt-safe_example =
    phmpi_set_evt-safe machine Mode.ev 0 (codes "0x3C.0x00") fresh refl refl (omega arith) known

set_evt-overrun_example : set_evt machine Mode.ev (codes "0x3C.0x00") (with_events 4) ≡ fault
set_evt-overrun_example =
    set_evt-overrun machine Mode.ev (codes "0x3C.0x00") (with_events 4) refl refl refl refl known

abbrev reading : Rec machine
reading = record {
  gid = 1;
  pid = 2;
  cy = 18446744073709551615;
  ns = 200;
  uval = 5;
  ev = 0 ∷ 0 ∷ 0 ∷ 0 ∷ [];
}
