-- ===== src/Probe/Setup/Begin.antt =====
-- `ph_init` of src/probe/perfhound.c, with the files that `ph_io_mkfile` of src/probe/ph_io.c makes.
use perf_hound.Prelude.{
  ℕ, zero, suc, ◌+◌, ◌-◌, ◌*◌, ◌/◌, ltb, List, [], ◌∷◌, ◌++◌, replicate, Bool, false, not,
  if◌then◌else◌, Bytes, codes, Option, none, some,
}
use perf_hound.Prelude.Run.{Run, done, exited}
use perf_hound.Bits.{u32}
use perf_hound.Probe.{Machine, Mode, Rec, State, slots, rec_size}
use perf_hound.Probe.Row.{newline}
use perf_hound.Prelude.{◌&&◌}
use perf_hound.Probe.{rec_size, slots}
use perf_hound.Probe.Setup.{Process, wtctag, wtrankmap}

-- `buf_nbyte`, for a buffer of so many KiB.
unfoldable pub buf_bytes : ℕ → ℕ
buf_bytes bufsize = u32 (bufsize * 1024)

-- `buf_nrec`.
unfoldable pub buf_records : Mode → ℕ → ℕ
unfolding buf_bytes
buf_records o bufsize = buf_bytes bufsize / rec_size o

-- The bytes of the fields of a record, one after the other: two tags of 4 bytes, `cy`, `ns`, `uval`
-- and the slots, of 8 each.
abbrev pub rec_bytes : Mode → ℕ
rec_bytes o = 2 * 4 + 8 + 8 + 8 + slots o * 8

-- The list of runs, which has its header written only when it is empty.
unfoldable pub info_begun : Bytes → Bytes
info_begun [] =
    codes "id,nrank,nevent,ngroup,npoint,start_time,end_time,description" ++ newline ∷ []
info_begun (c ∷ text) = c ∷ text

module _ (h : Machine) (o : Mode) where
  open h use {wr_cfgs, wr_cnts}

  -- The records that lie within so many bytes of memory, which is the buffer that `aligned_alloc`
  -- returns for these bytes; every record takes some, so the bytes are rounds enough.
  unfoldable pub within_bytes : ℕ → ℕ → ℕ → (ℕ → Rec h) → List (Rec h)
  within_bytes zero nbyte i memory = []
  within_bytes (suc rounds) nbyte i memory =
      let rest = within_bytes rounds (nbyte - rec_bytes o) (i + 1) memory in
      if ltb nbyte (rec_bytes o) then [] else memory i ∷ rest

  unfoldable pub allocated : ℕ → (ℕ → Rec h) → List (Rec h)
  unfolding within_bytes
  allocated nbyte memory = within_bytes nbyte nbyte 0 memory

  -- The globals and the files in front of the tags.
  unfoldable pub begun_state : ℕ → (ℕ → Rec h) → Bytes → h.Pmu → State h
  begun_state bufsize memory info pmu = record {
    buf_nrec = buf_records o bufsize;
    irec = 0;
    ready = false;
    nev = 0;
    evcodes = replicate (slots o) 0;
    precs = allocated (buf_bytes bufsize) memory;
    nrec_tot = 0;
    ticks = 0;
    attempts = 0;
    rec_file = [];
    etag_file = codes "id,name,code" ++ newline ∷ [];
    ctag_file = codes "gid,pid,description" ++ newline ∷ [];
    rankmap_file = codes "rank,hostname,cpu,hosthead,iorank" ++ newline ∷ [];
    info_file = info_begun info;
    pmu = wr_cnts 0 (replicate 7 0) (wr_cfgs 0 (2 ∷ 2 ∷ 2 ∷ 0 ∷ 0 ∷ 0 ∷ 0 ∷ []) pmu);
  }

  -- `ph_init`, given whether the directories and files can be made and the counters be had, and
  -- the memory that `aligned_alloc` returns; any failure ends the program.
  unfoldable pub init :
      ℕ
      → Process
      → (mkdir_ok mkfile_ok mkhost_ok pmu_ok : Bool) → Option (ℕ → Rec h)
      → (info : Bytes) → h.Pmu
      → Run (State h)
  init bufsize p mkdir_ok mkfile_ok mkhost_ok pmu_ok none info pmu = exited 1
  init bufsize p mkdir_ok mkfile_ok mkhost_ok pmu_ok (some memory) info pmu =
      if not (mkdir_ok && mkfile_ok && mkhost_ok && pmu_ok)
      then exited 1
      else done (
          wtctag h o 0 4 (codes "PH_E_ph_dump") (
            wtctag h o 0 3 (codes "PH_S_ph_dump") (
              wtctag h o 0 2 (codes "PH_E_main") (
                wtctag h o 0 1 (codes "PH_S_main") (
                  wtctag h o 0 0 (codes "PHGroup")
                    (wtrankmap h o p (begun_state bufsize memory info pmu)))))))
