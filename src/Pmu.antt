-- ===== src/Pmu.antt =====
-- src/probe/ph_pmu_x86.c: the probe's writes to the files of the kernel module.
pub mod Configured
pub mod Client
mod Tests
use perf_hound.Prelude.{ℕ, ◌+◌, ◌*◌, List, length, replicate, take, ltb, if◌then◌else◌}
use perf_hound.Prelude.Run.{Run, done, ◌>>=◌}
use perf_hound.Kmod.{Globals}
use perf_hound.Kmod.Msr.{MsrFile}
use perf_hound.Kmod.Sysfs.{Reply, cfg_wr, cnt_wr}

-- PH_PMU_ERR_OK and its kin, which are 0, -1, -2, -3, -5 and -7.
pub data Answer : Type 0 where
  ok open_sysfile pwrite_failed pwrite_too_few cr4_pce_not_set reading_masks : Answer

module _ (m : MsrFile) (g : Globals) where
  open m use {State}

  -- The answer to a write of `n` words, which the handler refused, or took so many bytes of.
  unfoldable pub answer : ℕ → State → Reply State → Answer × State
  answer n s Reply.refused = (Answer.pwrite_failed, s)
  answer n s (Reply.moved bytes t) =
      (if ltb bytes (8 * n) then Answer.pwrite_too_few else Answer.ok, t)

  -- `pwrite(cfg_fd, cfg, 8 * n, 8 * k)` is the handler's call.
  unfoldable pub wr_cfgs : ℕ → ℕ → List ℕ → State → Run (Answer × State)
  wr_cfgs k n cfg s = cfg_wr m g s cfg (k * 8) (8 * n) >>= λ r. done (answer n s r)

  unfoldable pub wr_cnts : ℕ → ℕ → List ℕ → State → Run (Answer × State)
  wr_cnts k n cnt s = cnt_wr m g s cnt (k * 8) (8 * n) >>= λ r. done (answer n s r)
