-- ===== src/Kmod.antt =====
-- src/kmod/x86: the globals that `ph_pmu_init_cpuid` fills in, and the addresses of ph_pmu_msr.h.
pub mod Vectors
pub mod Msr
pub mod Counters
pub mod Sysfs
pub mod Startup
pub mod Load
pub mod Demo
mod Tests
use perf_hound.Prelude.{ℕ, Bool}

-- The counters that the module found. A C `int` here is never negative: each is cut from a CPUID
-- register by a mask.
pub record Globals : Type 0 where
  pub full_width_writes : Bool
  pub pmc_ff_hw : ℕ
  pub pmc_ff : ℕ
  pub pmc_gp : ℕ
  pub pmc_ff_mask : ℕ
  pub pmc_gp_mask : ℕ
  pub pmc_start_ff : ℕ
  pub pmc_end_ff : ℕ
  pub pmc_start_gp : ℕ
  pub pmc_end_gp : ℕ

abbrev pub perfctr0 : ℕ
perfctr0 = 0xC1

abbrev pub perfevtsel0 : ℕ
perfevtsel0 = 0x186

abbrev pub perf_ctl : ℕ
perf_ctl = 0x199

abbrev pub therm_status : ℕ
therm_status = 0x19C

abbrev pub temperature_target : ℕ
temperature_target = 0x1A2

abbrev pub energy_perf_bias : ℕ
energy_perf_bias = 0x1B0

abbrev pub package_therm_status : ℕ
package_therm_status = 0x1B1

abbrev pub fixed_ctr0 : ℕ
fixed_ctr0 = 0x309

abbrev pub perf_capabilities : ℕ
perf_capabilities = 0x345

abbrev pub fixed_ctr_ctrl : ℕ
fixed_ctr_ctrl = 0x38D

abbrev pub perf_global_status : ℕ
perf_global_status = 0x38E

abbrev pub perf_global_ctrl : ℕ
perf_global_ctrl = 0x38F

abbrev pub perf_global_ovf_ctrl : ℕ
perf_global_ovf_ctrl = 0x390

abbrev pub pebs_frontend : ℕ
pebs_frontend = 0x3F7

abbrev pub a_pmc0 : ℕ
a_pmc0 = 0x4C1

abbrev pub core_perf_limit_reasons : ℕ
core_perf_limit_reasons = 0x690
