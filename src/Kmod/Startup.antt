-- ===== src/Kmod/Startup.antt =====
-- `ph_pmu_init_cpuid` and `ph_pmu_init_counters` of src/kmod/x86/enable_pmu_x86.c. The CPUID leaves
-- are arguments; the lines that only print are left out.
pub mod Cpuid
pub mod Cleared
use perf_hound.Prelude.{
  ℕ, zero, suc, ◌+◌, ◌-◌, ◌*◌, ◌^◌, Bool, Option, none, some, ltb, leb, ◌==◌, if◌then◌else◌, ◌&&◌,
  ◌||◌, not,
}
use perf_hound.Bits.{◌&&&◌, ◌|||◌, ◌>>>◌, ◌<<<◌}
use perf_hound.Kmod
use perf_hound.Kmod.{Globals}
use perf_hound.Kmod.Msr.{MsrFile, rdmsr, wrmsr}
use perf_hound.Kmod.Vectors.{ov}

abbrev pub max_pmc : ℕ
max_pmc = 25

abbrev pub sysfs_max_ff : ℕ
sysfs_max_ff = 3

-- The registers of the CPUID leaves that are looked at.
pub record Leaves : Type 0 where
  pub leaf0_a : ℕ
  pub leaf1_a : ℕ
  pub leaf1_c : ℕ
  pub leaf_a_a : ℕ
  pub leaf_a_d : ℕ

-- The processor's identity, which is only printed.
pub record Identity : Type 0 where
  pub disp_family : ℕ
  pub disp_model : ℕ
  pub stepping : ℕ

pub identify : Leaves → Identity
identify l =
    let family = (l.leaf1_a >>> 8) &&& 0x0F in
    let model = (l.leaf1_a >>> 4) &&& 0x0F in
    let exmodel = (l.leaf1_a >>> 16) &&& 0x0F in
    let exfamily = (l.leaf1_a >>> 20) &&& 0xFF in
    record {
      disp_family = if not (family == 0x0F) then family else family + exfamily;
      disp_model = if family == 0x06 || family == 0x0F then (exmodel <<< 4) ||| model else model;
      stepping = l.leaf1_a &&& 0x0F;
    }

abbrev pub arch_version : Leaves → ℕ
arch_version l = l.leaf_a_a &&& 0xFF

-- "Inform ourselves about PMC support": `cap` is IA32_PERF_CAPABILITIES.
unfoldable pub discover : Leaves → ℕ → Globals
discover l cap =
    let full = (cap >>> 13) &&& 1 == 1 in
    let gp = (l.leaf_a_a >>> 8) &&& 0xFF in
    let gp_mask = if full then ov ((l.leaf_a_a >>> 16) &&& 0xFF) 0 else ov 32 0 in
    let ff_hw = l.leaf_a_d &&& 0x1F in
    let ff_mask = ov ((l.leaf_a_d >>> 5) &&& 0xFF) 0 in
    let ff = if ltb sysfs_max_ff ff_hw then sysfs_max_ff else ff_hw in
    let many = ltb max_pmc (ff + gp) in
    let gp_clamped = if many && ltb max_pmc gp then max_pmc else gp in
    let ff_clamped = if many && ltb max_pmc (gp_clamped + ff) then max_pmc - gp_clamped else ff in
    record {
      full_width_writes = full;
      pmc_ff_hw = ff_hw;
      pmc_ff = ff_clamped;
      pmc_gp = gp_clamped;
      pmc_ff_mask = ff_mask;
      pmc_gp_mask = gp_mask;
      pmc_start_ff = 0;
      pmc_end_ff = ff;
      pmc_start_gp = sysfs_max_ff;
      pmc_end_gp = sysfs_max_ff + gp;
    }

-- `none` is the answer -1.
unfoldable pub init_cpuid : Leaves → ℕ → Option Globals
unfolding discover
init_cpuid l cap =
    if ltb l.leaf0_a 0xA
    then none
    else if (l.leaf1_c >>> 15) &&& 1 == 0
    then none
    else if ltb (arch_version l) 3 || ltb 6 (arch_version l)
    then none
    else some (discover l cap)

module _ (m : MsrFile) (g : Globals) where
  open m use {State}

  -- `for(i=0;i<pmcFfHw;i++)`, with the rounds left.
  unfoldable pub zero_fixed : ℕ → ℕ → State → State
  zero_fixed zero i s = s
  zero_fixed (suc n) i s = zero_fixed n (i + 1) (wrmsr m g s (Kmod.fixed_ctr0 + i) 0)

  -- `for(i=0;i<pmcGp;i++)`, with the rounds left.
  unfoldable pub zero_general : ℕ → ℕ → State → State
  zero_general zero i s = s
  zero_general (suc n) i s =
      zero_general n (i + 1)
        (wrmsr m g (wrmsr m g s (Kmod.perfevtsel0 + i) 0) (Kmod.perfctr0 + i) 0)

  unfoldable pub init_counters : State → State
  init_counters s =
      let t = wrmsr m g (wrmsr m g s Kmod.perf_global_ctrl 0) Kmod.fixed_ctr_ctrl 0 in
      let u = zero_general g.pmc_gp 0 (zero_fixed g.pmc_ff_hw 0 t) in
      wrmsr m g u Kmod.perf_global_ovf_ctrl (2 ^ 64 - 1)
