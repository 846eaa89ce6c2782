-- ===== src/Kmod/Counters.antt =====
-- "Counter manipulation" of src/kmod/x86/enable_pmu_x86.c: enabling, configuring and accessing one
-- fixed-function (`ff`) or general-purpose (`gp`) counter.
pub mod Fixed
pub mod Enable
pub mod General
use perf_hound.Prelude.{ℕ, ◌+◌, ◌*◌, ◌&&◌, ◌||◌, not, Bool, ◌==◌, if◌then◌else◌}
use perf_hound.Bits.{not64, ◌&&&◌, ◌|||◌, ◌<<<◌, ◌>>>◌}
use perf_hound.Kmod
use perf_hound.Kmod.{Globals}
use perf_hound.Kmod.Vectors.{bv, cv}
use perf_hound.Kmod.Msr.{MsrFile, rdmsr, wrmsr}

-- `!!v`.
abbrev pub flag : ℕ → ℕ
flag v = if v == 0 then 0 else 1

-- The event filter of `pfcGpCntWrCfg`: no APIC interrupt, no pin control, and events that only one
-- counter can count are dropped elsewhere.
unfoldable pub filter_cfg : ℕ → ℕ → ℕ
filter_cfg i word =
    let c = word &&& not64 0x180000 in
    let evt_num = c &&& 0xFF in
    let umask = (c >>> 8) &&& 0xFF in
    let l1d = evt_num == 0x48 || evt_num == 0xA3 && (umask == 0x08 || umask == 0x0C) in
    let after_l1d = if l1d && not (i == 2) then 0 else c in
    if evt_num == 0xC0 && umask == 0x01 && not (i == 1) then 0 else after_l1d

module _ (m : MsrFile) (g : Globals) where
  open m use {State}

  unfoldable pub ff_cnt_wr_enb : State → ℕ → ℕ → State
  ff_cnt_wr_enb s i v =
      let en = rdmsr m s Kmod.perf_global_ctrl ||| (flag v <<< (32 + i)) in
      wrmsr m g s Kmod.perf_global_ctrl en

  unfoldable pub ff_cnt_wr_cfg : State → ℕ → ℕ → State
  ff_cnt_wr_cfg s i word =
      let c = word &&& 0x7 in
      let ctrl = cv (rdmsr m s Kmod.fixed_ctr_ctrl) 4 (4 * i) ||| bv c 4 (4 * i) in
      wrmsr m g s Kmod.fixed_ctr_ctrl ctrl

  unfoldable pub ff_cnt_rd_cfg : State → ℕ → ℕ
  ff_cnt_rd_cfg s i = (rdmsr m s Kmod.fixed_ctr_ctrl >>> (4 * i)) &&& 0xF

  unfoldable pub ff_cnt_wr_val : State → ℕ → ℕ → State
  ff_cnt_wr_val s i v = wrmsr m g s (Kmod.fixed_ctr0 + i) v

  unfoldable pub ff_cnt_rd_val : State → ℕ → ℕ
  ff_cnt_rd_val s i = rdmsr m s (Kmod.fixed_ctr0 + i)

  unfoldable pub gp_cnt_wr_enb : State → ℕ → ℕ → State
  gp_cnt_wr_enb s i v =
      let en = rdmsr m s Kmod.perf_global_ctrl ||| (flag v <<< (0 + i)) in
      wrmsr m g s Kmod.perf_global_ctrl en

  unfoldable pub gp_cnt_wr_cfg : State → ℕ → ℕ → State
  gp_cnt_wr_cfg s i word = wrmsr m g s (Kmod.perfevtsel0 + i) (filter_cfg i word)

  unfoldable pub gp_cnt_rd_cfg : State → ℕ → ℕ
  gp_cnt_rd_cfg s i = rdmsr m s (Kmod.perfevtsel0 + i)

  unfoldable pub gp_cnt_wr_val : State → ℕ → ℕ → State
  gp_cnt_wr_val s i v =
      if g.full_width_writes
      then wrmsr m g s (Kmod.a_pmc0 + i) v
      else wrmsr m g s (Kmod.perfctr0 + i) v

  unfoldable pub gp_cnt_rd_val : State → ℕ → ℕ
  gp_cnt_rd_val s i = rdmsr m s (Kmod.perfctr0 + i)
