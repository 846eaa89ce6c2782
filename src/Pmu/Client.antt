-- ===== src/Pmu/Client.antt =====
-- `ph_pmu_init` and `ph_pmu_fini` of src/probe/ph_pmu_x86.c, with the file cr4.pce of the kernel
-- module. The descriptors that the C file keeps are a record, and a closed one is `none`.
pub mod Closing
pub mod Ready
pub mod Loaded
mod Tests
use perf_hound.Prelude.{
  ℕ, ◌≡◌, ◌≢◌, Bool, true, false, not, ◌&&◌, ◌||◌, Option, none, some, List, [], ◌∷◌, ◌==◌,
  if◌then◌else◌, Bytes, codes, take,
}
use perf_hound.Bits.{◌&&&◌}
use perf_hound.Kmod.{Globals}
use perf_hound.Kmod.Sysfs.{Reply, msk_rd}
use perf_hound.Pmu.{Answer}

-- `open` and `close` of the system. `is_open` tells which descriptors are in use: `open` answers one
-- that is not, and `close` frees the one that it is given.
pub record Os : Type 1 where
  pub Table : Type 0
  pub open_file : Bytes → Table → Option ℕ × Table
  pub close_file : ℕ → Table → Table
  pub is_open : Table → ℕ → Bool
  pub opened :
      (path : Bytes) (t u : Table) (fd f : ℕ)
      → open_file path t ≡ (some fd, u)
      → (is_open t fd ≡ false) × (is_open u f ≡ f == fd || is_open t f)
  pub not_opened :
      (path : Bytes) (t u : Table) (f : ℕ)
      → open_file path t ≡ (none, u)
      → is_open u f ≡ is_open t f
  pub closed : (t : Table) (fd f : ℕ) → is_open (close_file fd t) f ≡ is_open t f && not (f == fd)

-- The four `static int` of the file.
pub record Descriptors : Type 0 where
  pub cfg_fd : Option ℕ
  pub msk_fd : Option ℕ
  pub cnt_fd : Option ℕ
  pub cr4_fd : Option ℕ

-- What is read from cr4.pce: `pfcCR4PceRd`.
unfoldable pub cr4_pce_rd : ℕ → Bytes
cr4_pce_rd cr4 = if not (cr4 &&& 0x100 == 0) then codes "1" else codes "0"

-- `n != 1 || buf[0] != '1'`, for what `read` of one byte left in `buf`.
unfoldable pub not_set : Bytes → Bool
not_set [] = true
not_set (c ∷ cs) = not (c == 49)

-- The bytes that `pread` of the masks answers equal `sizeof(masks)`.
unfoldable pub whole_masks : Reply (List ℕ) → Bool
whole_masks Reply.refused = false
whole_masks (Reply.moved bytes words) = bytes == 56

-- `fd < 0`.
unfoldable pub is_none : Option ℕ → Bool
is_none none = true
is_none (some fd) = false

unfoldable pub some_closed : Descriptors → Bool
some_closed d = is_none d.cfg_fd || is_none d.msk_fd || is_none d.cnt_fd || is_none d.cr4_fd

module _ (o : Os) where
  open o use {Table, open_file, close_file}

  -- `if (fd >= 0) { close(fd); fd = -1; }`, but for the last.
  unfoldable pub close_if : Option ℕ → Table → Table
  close_if none t = t
  close_if (some fd) t = close_file fd t

  unfoldable pub pmu_fini : Descriptors → Table → Descriptors × Table
  unfolding close_if
  pmu_fini d t = (
    record { cfg_fd = none; msk_fd = none; cnt_fd = none; cr4_fd = none },
    close_if d.cr4_fd (close_if d.cnt_fd (close_if d.msk_fd (close_if d.cfg_fd t))),
  )

  -- The four calls of `open`.
  unfoldable pub open_files : Table → Descriptors × Table
  open_files t =
      let (cfg, t1) = open_file (codes "/sys/module/ph_enable_pmu/config") t in
      let (msk, t2) = open_file (codes "/sys/module/ph_enable_pmu/masks") t1 in
      let (cnt, t3) = open_file (codes "/sys/module/ph_enable_pmu/counts") t2 in
      let (cr4, t4) = open_file (codes "/sys/module/ph_enable_pmu/cr4.pce") t3 in
      (record { cfg_fd = cfg; msk_fd = msk; cnt_fd = cnt; cr4_fd = cr4 }, t4)

  -- The part behind the opening: `cr4` is the control register of the CPU that runs the read.
  unfoldable pub check_files : Globals → ℕ → Descriptors → Table → Answer × (Descriptors × Table)
  unfolding close_if
  check_files g cr4 d t =
      let closed_cr4 : Descriptors = record {
        cfg_fd = d.cfg_fd;
        msk_fd = d.msk_fd;
        cnt_fd = d.cnt_fd;
        cr4_fd = none;
      } in
      let rest : Descriptors × Table = (closed_cr4, close_if d.cr4_fd t) in
      if not_set (take 1 (cr4_pce_rd cr4))
      then (Answer.cr4_pce_not_set, rest)
      else if not (whole_masks (msk_rd g 0 56))
      then (Answer.reading_masks, rest)
      else (Answer.ok, rest)

  unfoldable pub pmu_init : Globals → ℕ → Table → Answer × (Descriptors × Table)
  unfolding open_files some_closed check_files pmu_fini
  pmu_init g cr4 t =
      let (d, u) = open_files t in
      if some_closed d then (Answer.open_sysfile, pmu_fini d u) else check_files g cr4 d u
