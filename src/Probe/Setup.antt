-- ===== src/Probe/Setup.antt =====
-- The calls of src/probe/perfhound.c around the readings: initialization, tags, events, commit and
-- finalization, with the files of src/probe/ph_io.c that they write.
pub mod Begin
pub mod Init
pub mod Events
pub mod Limits
pub mod Session
use perf_hound.Prelude.{
  length, ℕ, zero, suc, ◌+◌, ◌-◌, ◌*◌, ◌/◌, ◌%◌, ◌^◌, List, [], ◌∷◌, ◌++◌, get_elem?, set, take,
  replicate, Bool, true, false, not, ◌==◌, ltb, leb, if◌then◌else◌, Bytes, codes, Option, none,
  some,
}
use perf_hound.Prelude.Run.{fault, Run, done, exited, ◌>>=◌, access}
use perf_hound.Bits.{u32}
use perf_hound.Event.Parse.{parse_cfg}
use perf_hound.Probe.{Machine, Mode, Rec, State, nev_max, slots, rec_size}
use perf_hound.Probe.Number.{decimal, hexadecimal}
use perf_hound.Probe.Row.{comma, newline, wtrec}
use perf_hound.Probe.Buffer.{read}

-- `_ph_parse_event`.
unfoldable pub event_code : Bytes → ℕ
event_code etag = let code = parse_cfg etag in if code == 0 then 0xFFFFFFFF else code

-- `%d` of the low half of a word.
abbrev pub print_int : ℕ → Bytes
print_int n = let w = u32 n in if ltb w (2 ^ 31) then decimal w else 45 ∷ decimal (2 ^ 32 - w)

-- `proc_t`, with host and time as text; and the number of the run.
pub record Process : Type 0 where
  pub rank : ℕ
  pub nrank : ℕ
  pub cpu : ℕ
  pub head : ℕ
  pub iorank : ℕ
  pub host : Bytes
  pub runid : ℕ
  pub st_timestr : Bytes
  pub en_timestr : Bytes

-- `for (int i = 1; i <= ph_nev; i++) fprintf(",ev%d", i)`, with the rounds left and `i`.
unfoldable pub ev_header : ℕ → ℕ → Bytes
ev_header zero i = []
ev_header (suc n) i = codes ",ev" ++ decimal i ++ ev_header n (i + 1)

unfoldable pub rec_header : ℕ → Bytes
rec_header nev = codes "gid,pid,cycle,nanosec,uval" ++ ev_header nev 1 ++ newline ∷ []

-- The words that `pwrite` reads from an array, which it may read behind the end.
unfoldable pub first_words : ℕ → List ℕ → Run (List ℕ)
first_words n xs = if leb n (length xs) then done (take n xs) else fault

module _ (h : Machine) (o : Mode) where
  open h use {Double, of_uint, opens, wr_cfgs, wr_cnts}

  -- `ph_io_wtctag`.
  unfoldable pub wtctag : ℕ → ℕ → Bytes → State h → State h
  wtctag gid pid tag s = record s {
    ctag_file = s.ctag_file ++ decimal gid ++ comma ∷ decimal pid ++ comma ∷ tag ++ newline ∷ [];
  }

  -- `ph_io_wtetag`.
  unfoldable pub wtetag : ℕ → Bytes → ℕ → State h → State h
  wtetag id etag code s = record s {
    etag_file =
        s.etag_file
        ++ decimal id
        ++ comma ∷ etag
        ++ codes ",0x"
        ++ hexadecimal code
        ++ newline ∷ [];
  }

  -- `ph_io_wtrankmap`.
  unfoldable pub wtrankmap : Process → State h → State h
  wtrankmap p s = record s {
    rankmap_file =
        s.rankmap_file
        ++ decimal p.rank
        ++ comma ∷ p.host
        ++ comma ∷ decimal p.cpu
        ++ comma ∷ decimal p.head
        ++ comma ∷ decimal p.iorank
        ++ newline ∷ [];
  }

  -- `ph_evcodes[ph_nev] = evcode; ph_nev++`, unless the event is not supported.
  unfoldable pub add_event : ℕ → State h → Run (State h)
  add_event code s =
      if leb code (0xFFFFFFFF - 1)
      then (do
        old ← access (get_elem? s.evcodes s.nev)
        done (record s { evcodes = set s.evcodes s.nev code; nev = s.nev + 1 }))
      else done s

  -- `ph_evcodes[ph_nev-1]`.
  unfoldable pub last_code : State h → Run ℕ
  last_code s = access (if s.nev == 0 then none else get_elem? s.evcodes (s.nev - 1))

  -- What `ph_set_evt` and `phmpi_set_evt` share: they differ in when there are too many events,
  -- and in who writes the list of events.
  unfoldable pub set_evt_by : Bool → Bool → Bytes → State h → Run (ℕ × State h)
  set_evt_by too_many writes etag s =
      if s.ready then done (1, s) else if too_many then done (2, s) else (do
        t ← add_event (event_code etag) s
        (if not writes
            then done (0, t)
            else (last_code t >>= λ code. done (0, wtetag t.nev etag code t))))

  unfoldable pub set_evt : Bytes → State h → Run (ℕ × State h)
  set_evt etag s = set_evt_by (ltb (nev_max o) s.nev) true etag s

  unfoldable pub phmpi_set_evt : ℕ → Bytes → State h → Run (ℕ × State h)
  phmpi_set_evt rank etag s = set_evt_by (leb (nev_max o) s.nev) (rank == 0) etag s

  unfoldable pub set_tag : ℕ → ℕ → Bytes → State h → ℕ × State h
  set_tag gid pid tag s = (0, wtctag gid pid tag s)

  -- `_ph_config_event`, whose array of zeros has eight words. `ph_evcodes` has `ph_nev` words:
  -- `add_event` has written them.
  unfoldable pub config_event : State h → Run (State h)
  unfolding first_words
  config_event s = if s.nev == 0 then done s else (do
    zeros ← first_words s.nev (replicate 8 0)
    done (record s { pmu = wr_cnts 3 zeros (wr_cfgs 3 (take s.nev s.evcodes) s.pmu) }))

  -- `ph_io_mkrec`; `none` when the file does not open.
  unfoldable pub mkrec : State h → Option (State h)
  mkrec s =
      if opens s.attempts
      then some (record s { attempts = s.attempts + 1; rec_file = rec_header s.nev })
      else none

  -- `ph_commit` behind the configuration.
  unfoldable pub start_reading : State h → Run (State h)
  start_reading s = elim (mkrec s) [
    | none ↦ exited 1
    | some t ↦ read h o 2 0 1 (of_uint 0) (record t { ready = true; irec = 0 })
  ]

  unfoldable pub commit : State h → Run (State h)
  commit s = config_event s >>= start_reading

  -- `ph_io_wtinfo`, given whether the file opens.
  unfoldable pub wtinfo : Process → Bool → State h → ℕ × State h
  wtinfo p opened s = if not opened then (1, s) else (
    0,
    record s {
      info_file =
          s.info_file
          ++ decimal p.runid
          ++ comma ∷ decimal p.nrank
          ++ comma ∷ decimal s.nev
          ++ comma ∷ print_int s.nrec_tot
          ++ comma ∷ p.st_timestr
          ++ comma ∷ p.en_timestr
          ++ comma ∷ newline ∷ [];
    },
  )

  -- `ph_finalize` behind its reading.
  unfoldable pub closing : Process → Bool → State h → Run (State h)
  closing p opened t = do written ← wtrec h t.irec t; done ((wtinfo p opened (written.1)).1)

  -- The failures of the two writers are only reported.
  unfoldable pub finalize : Process → Bool → State h → Run (State h)
  finalize p opened s = do t ← read h o 2 0 2 (of_uint 0) s; closing p opened t
