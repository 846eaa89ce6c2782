-- ===== src/Probe/Setup/Session.antt =====
-- A whole run of an instrumented program: initialization, commit, readings and finalization.
use mathlib.Core.Path.{fun_ext}
use perf_hound.Prelude.{
  ℕ, ◌+◌, ◌≤◌, ◌<◌, ◌≡◌, leb, take, replicate, refl, sym, ap, ◌∙◌, arith, List, [], ◌∷◌, ◌++◌,
  All-map, append-nil, Bool, true, false, Bool-cases, inl, inr, ◌==◌,
}
use perf_hound.Prelude.Run.{Run, done, fault, ◌>>=◌}
use perf_hound.Probe.{Machine, Mode, Rec, State}
use perf_hound.Probe.Row.{wtrec_lem, text_of}
use perf_hound.Probe.Buffer.{read}
use perf_hound.Probe.Buffer.Put.{IsBuffer}
use perf_hound.Probe.Buffer.Log.{Request, run, logged, Log, Adds, run_lem}
use perf_hound.Probe.Setup.{
  Process, rec_header, mkrec, first_words, config_event, commit, start_reading, closing, finalize,
  wtinfo,
}

module _ (h : Machine) (o : Mode) where
  open h use {of_uint, opens}

  abbrev pub first_request : Request h o
  first_request = record { gid = 0; pid = 1; uval = of_uint 0 }

  abbrev pub last_request : Request h o
  last_request = record { gid = 0; pid = 2; uval = of_uint 0 }

  -- Commit, the readings and finalization, one after the other.
  unfoldable pub session : Process → Bool → List (Request h o) → State h → Run (State h)
  session p opened qs s = commit h o s >>= run h o qs >>= finalize h o p opened

  bind_assoc :
      {A B C : Type 0} (r : Run A) (f : A → Run B) (g : B → Run C)
      → (r >>= f >>= g) ≡ (r >>= λ a. f a >>= g)
  bind_assoc (Run.done a) f g = refl
  bind_assoc (Run.exited c) f g = refl
  bind_assoc Run.fault f g = refl
  bind_assoc Run.no_fuel f g = refl

  bind_done : {A : Type 0} (r : Run A) → (r >>= λ a. done a) ≡ r
  bind_done (Run.done a) = refl
  bind_done (Run.exited c) = refl
  bind_done Run.fault = refl
  bind_done Run.no_fuel = refl

  run-append :
      (qs rs : List (Request h o)) (s : State h)
      → run h o (qs ++ rs) s ≡ run h o qs s >>= run h o rs
  unfolding run
  run-append [] rs s = refl
  run-append (q ∷ qs) rs s =
      ap (λ f. read h o 2 q.gid q.pid q.uval s >>= f) (fun_ext (run-append qs rs))
      ∙ sym (bind_assoc (read h o 2 q.gid q.pid q.uval s) (run h o qs) (run h o rs))

  -- The state in which the readings begin.
  abbrev begun : h.Pmu → State h → State h
  begun pmu s = record s {
    ready = true;
    irec = 0;
    attempts = s.attempts + 1;
    rec_file = rec_header s.nev;
    pmu = pmu;
  }

  -- With at most eight events, configuring them concerns the counters alone.
  pub config_event-pmu :
      (s : State h)
      → s.nev ≤ 8
      → (pmu : h.Pmu) × (config_event h o s ≡ done (record s { pmu = pmu }))
  unfolding config_event first_words
  config_event-pmu s few = elim (Bool-cases (s.nev == 0)) [
    | inl none_set ↦ (s.pmu, rw none_set refl)
    | inr some_set ↦
        let inside : leb s.nev 8 ≡ true = ground arith in
        (
          h.wr_cnts 3 (take s.nev (replicate 8 0)) (h.wr_cfgs 3 (take s.nev s.evcodes) s.pmu),
          rw (some_set, inside) refl,
        )
  ]

  -- With more, the array of zeros is read behind its end.
  config_event-overrun : (s : State h) → 8 < s.nev → config_event h o s ≡ fault
  unfolding config_event first_words
  config_event-overrun s many =
      let some_set : (s.nev == 0) ≡ false = ground arith in
      let outside : leb s.nev 8 ≡ false = ground arith in rw (some_set, outside) refl

  start_reading-read :
      (s : State h)
      → opens s.attempts ≡ true
      → start_reading h o s
        ≡ read h o 2 0 1 (of_uint 0) (record s {
          ready = true;
          irec = 0;
          attempts = s.attempts + 1;
          rec_file = rec_header s.nev;
        })
  unfolding start_reading mkrec
  start_reading-read s opened = rw (start_reading, mkrec, opened) refl

  commit-read :
      (s : State h)
      → s.nev ≤ 8
      → opens s.attempts ≡ true
      → (pmu : h.Pmu) × (commit h o s ≡ read h o 2 0 1 (of_uint 0) (begun pmu s))
  unfolding commit
  commit-read s few opened =
      let (pmu, configured) = config_event-pmu s few in
      (
        pmu,
        ap (λ r. r >>= start_reading h o) configured
            ∙ start_reading-read (record s { pmu = pmu }) opened,
      )

  finalize-closing :
      (p : Process) (open_info : Bool) (t : State h)
      → finalize h o p open_info t ≡ run h o (last_request ∷ []) t >>= closing h o p open_info
  unfolding finalize run
  finalize-closing p open_info t =
      ap (λ r. r >>= closing h o p open_info) (sym (bind_done (read h o 2 0 2 (of_uint 0) t)))

  session-run :
      (p : Process) (open_info : Bool) (qs : List (Request h o)) (s : State h)
      → (pmu : h.Pmu) → commit h o s ≡ read h o 2 0 1 (of_uint 0) (begun pmu s)
      → session p open_info qs s ≡ (
          run h o (first_request ∷ (qs ++ last_request ∷ [])) (begun pmu s)
          >>= closing h o p open_info)
  unfolding session run
  session-run p open_info qs s pmu committed =
      let first = read h o 2 0 1 (of_uint 0) (begun pmu s) in
      let end = closing h o p open_info in
      ap (λ r. r >>= run h o qs >>= finalize h o p open_info) committed
      ∙ ap (λ f. first >>= run h o qs >>= f) (fun_ext (finalize-closing p open_info))
      ∙ sym (bind_assoc (first >>= run h o qs) (run h o (last_request ∷ [])) end)
      ∙ ap (λ r. r >>= end)
          (bind_assoc first (run h o qs) (run h o (last_request ∷ []))
            ∙ ap (λ f. first >>= f) (fun_ext (λ t. sym (run-append qs (last_request ∷ []) t))))

  wtinfo-rec_file :
      (p : Process) (open_info : Bool) (s : State h)
      → (wtinfo h o p open_info s).1.rec_file ≡ s.rec_file
  unfolding wtinfo
  wtinfo-rec_file p true s = refl
  wtinfo-rec_file p false s = refl

  closing_lem :
      (p : Process) (open_info : Bool) (t : State h)
      → opens t.attempts ≡ true
      → IsBuffer h o t
      → t.irec ≤ t.buf_nrec
      → (u : State h) × (closing h o p open_info t ≡ done u) × (u.rec_file ≡ logged h o t)
  unfolding closing
  closing_lem p open_info t opened b le =
      let size = b.size in
      let fits = b.fits in
      (
        _,
        ap (λ r. r >>= λ w. done ((wtinfo h o p open_info (w.1)).1))
            (wtrec_lem h t.irec t (omega arith) (All-map t.precs (λ r e. omega arith) b.wide)),
        wtinfo-rec_file p open_info _ ∙ rw opened refl,
      )

  -- When the record file always opens, then from a fit buffer of three records or more and with at
  -- most eight events, a session of commit, any readings and finalization ends without a fault,
  -- and the record file is the header with one line for each reading, in their order, from that of
  -- commit to that of finalization, where the two lines of a dump of the buffer may stand between
  -- two of them.
  pub session_lem :
      (p : Process) (open_info : Bool) (qs : List (Request h o)) (s : State h)
      → s.nev ≤ 8
      → ((k : ℕ) → opens k ≡ true)
      → IsBuffer h o s
      → (u : State h) × (rs : List (Rec h)) × (session p open_info qs s ≡ done u)
        × Log h o s.buf_nrec s.ticks (first_request ∷ (qs ++ last_request ∷ [])) rs
        × (u.rec_file ≡ rec_header s.nev ++ text_of h s.nev rs)
  unfolding Adds text_of
  session_lem p open_info qs s few opened b =
      let ge = b.nrec_ge in
      let (pmu, committed) = commit-read s few (opened _) in
      let (t, e, b', room, (rs, log, l)) =
        run_lem h o (first_request ∷ (qs ++ last_request ∷ [])) (begun pmu s) opened
          (record {
            size = b.size;
            nrec_ge = b.nrec_ge;
            nrec_lt = b.nrec_lt;
            wide = b.wide;
            fits = b.fits;
          })
          (omega arith) in
      let (u, e', f) = closing_lem p open_info t (opened _) b' (omega arith) in
      (
        u,
        rs,
        session-run p open_info qs s pmu committed ∙ ap (λ r. r >>= closing h o p open_info) e ∙ e',
        log,
        f ∙ l ∙ ap (λ x. x ++ text_of h s.nev rs) (append-nil (rec_header s.nev)),
      )

  -- With more than eight events, a session faults at commit.
  session-overrun :
      (p : Process) (open_info : Bool) (qs : List (Request h o)) (s : State h)
      → 8 < s.nev
      → session p open_info qs s ≡ fault
  unfolding session commit
  session-overrun p open_info qs s many =
      ap (λ r. r >>= start_reading h o >>= run h o qs >>= finalize h o p open_info)
        (config_event-overrun s many)
