-- ===== src/Probe/Buffer/Log.antt =====
-- What a sequence of `ph_read` calls leaves in the record file and the buffer together.
use perf_hound.Prelude.{
  ℕ, ◌+◌, ◌≤◌, ◌<◌, ◌≡◌, refl, sym, ap, ◌∙◌, arith, List, [], ◌∷◌, ◌++◌, length, append_assoc,
  append-nil, length-set, Bytes, true,
}
use perf_hound.Prelude.Run.{Run, done, ◌>>=◌}
use perf_hound.Probe.{Machine, Mode, Rec, State, counters_read}
use perf_hound.Probe.Row.{text_of, text_of-append}
use perf_hound.Probe.Buffer.{read}
use perf_hound.Probe.Buffer.Put.{IsBuffer, IsReading, kept, appended, kept-appended}
use perf_hound.Probe.Buffer.Read.{flushed, Step, read_lem}

module _ (h : Machine) (o : Mode) where
  open h use {Double, of_uint, opens}

  -- The arguments of a call of `ph_read`.
  pub record Request : Type 0 where
    pub gid : ℕ
    pub pid : ℕ
    pub uval : Double

  -- The instrumented program's calls, one after the other; a depth of two is enough.
  unfoldable pub run : List Request → State h → Run (State h)
  run [] s = done s
  run (q ∷ qs) s = read h o 2 q.gid q.pid q.uval s >>= run qs

  -- The lines of the file, with those that the buffered records will make.
  abbrev pub logged : State h → Bytes
  logged s = s.rec_file ++ text_of h s.nev (kept h s)

  -- The records of some requests from reading `k` on, with a buffer of `n`: each request has its
  -- own, in the order of the requests, and behind a request's there may be the two of a dump.
  pub data Log (n : ℕ) : ℕ → List Request → List (Rec h) → Type 0 where
    nothing : {k : ℕ} → Log n k [] []
    plain :
        {k : ℕ} {q : Request} {qs : List Request} (r : Rec h) {rs : List (Rec h)}
        → IsReading h o (counters_read o) q.gid q.pid q.uval k r
        → Log n (k + 1) qs rs
        → Log n k (q ∷ qs) (r ∷ rs)
    with_dump :
        {k : ℕ} {q : Request} {qs : List Request} (r a b : Rec h) {rs : List (Rec h)}
        → IsReading h o (counters_read o) q.gid q.pid q.uval k r
        → IsReading h o (counters_read o) 0 3 (of_uint n) (k + 1) a
        → IsReading h o (counters_read o) 0 4 (of_uint 0) (k + 1 + 1) b
        → Log n (k + 1 + 1 + 1) qs rs
        → Log n k (q ∷ qs) (r ∷ a ∷ b ∷ rs)

  logged-appended :
      (r : Rec h) (s : State h)
      → s.irec < length s.precs
      → logged (appended h o r s) ≡ logged s ++ text_of h s.nev (r ∷ [])
  logged-appended r s room =
      ap (λ rs. s.rec_file ++ text_of h s.nev rs) (kept-appended h o r s room)
      ∙ ap (λ t. s.rec_file ++ t) (text_of-append h s.nev (kept h s) (r ∷ []))
      ∙ sym (append_assoc s.rec_file (text_of h s.nev (kept h s)) (text_of h s.nev (r ∷ [])))

  logged-flushed : (s : State h) → opens s.attempts ≡ true → logged (flushed h o s) ≡ logged s
  unfolding text_of
  logged-flushed s opened = rw opened (append-nil (s.rec_file ++ text_of h s.nev (kept h s)))

  more :
      (nev : ℕ) (x : Bytes) {y z : Bytes} (rs qs : List (Rec h))
      → y ≡ x ++ text_of h nev rs
      → z ≡ y ++ text_of h nev qs
      → z ≡ x ++ text_of h nev (rs ++ qs)
  more nev x {y} {z} rs qs e f =
      f
      ∙ ap (λ t. t ++ text_of h nev qs) e
      ∙ append_assoc x (text_of h nev rs) (text_of h nev qs)
      ∙ ap (λ t. x ++ t) (sym (text_of-append h nev rs qs))

  -- The records of the requests, in the text that they add.
  unfoldable pub Adds : List Request → State h → State h → Type 0
  Adds qs s u =
      (rs : List (Rec h)) × Log s.buf_nrec s.ticks qs rs
      × (logged u ≡ logged s ++ text_of h s.nev rs)

  Adds-Step :
      (q : Request) (qs : List Request) (s t u : State h)
      → ((k : ℕ) → opens k ≡ true)
      → IsBuffer h o s
      → s.irec + 2 ≤ s.buf_nrec
      → Step h o q.gid q.pid q.uval s t
      → Adds qs t u
      → Adds (q ∷ qs) s u
  unfolding Adds
  Adds-Step q qs s t u opened b room (Step.buffered r reading more_room) (rs, log, e) =
      let size = b.size in
      (
        r ∷ rs,
        Log.plain r reading log,
        more s.nev (logged s) (r ∷ []) rs (logged-appended r s (omega arith)) e,
      )
  Adds-Step q qs s t u opened b room (Step.dumped r x y reading rx ry ends) (rs, log, e) =
      let size = b.size in
      let s' = appended h o r s in
      let s'' = appended h o x s' in
      let len = length-set s.precs s.irec r in
      let len' = length-set s'.precs s'.irec x in
      let ge = b.nrec_ge in
      let f = logged-appended r s (omega arith) in
      let g = logged-appended x s' (omega arith) in
      let k =
        logged-appended y (flushed h o s'') (omega arith)
        ∙ ap (λ t. t ++ text_of h s.nev (y ∷ [])) (logged-flushed s'' (opened _)) in
      (
        r ∷ x ∷ y ∷ rs,
        Log.with_dump r x y reading rx ry log,
        more s.nev (logged s) (r ∷ x ∷ y ∷ []) rs
            (more s.nev (logged s) (r ∷ x ∷ []) (y ∷ [])
              (more s.nev (logged s) (r ∷ []) (x ∷ []) f g) k)
            e,
      )

  -- With a file that always opens, every sequence of readings goes well, and file and buffer hold
  -- a record of each reading.
  pub run_lem :
      (qs : List Request) (s : State h)
      → ((k : ℕ) → opens k ≡ true)
      → IsBuffer h o s
      → s.irec + 2 ≤ s.buf_nrec
      → (u : State h) × (run qs s ≡ done u)
        × IsBuffer h o u
        × (u.irec + 2 ≤ u.buf_nrec)
        × Adds qs s u
  unfolding run Adds text_of
  run_lem [] s opened b room = (s, refl, b, room, ([], Log.nothing, sym (append-nil (logged s))))
  run_lem (q ∷ qs) s opened b room =
      let (t, e, b', room', step) = read_lem h o 0 q.gid q.pid q.uval s b room in
      let (u, e', b'', room'', adds) = run_lem qs t opened b' room' in
      (u, ap (λ x. x >>= run qs) e ∙ e', b'', room'', Adds-Step q qs s t u opened b room step adds)
