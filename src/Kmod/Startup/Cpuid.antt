-- ===== src/Kmod/Startup/Cpuid.antt =====
-- What `ph_pmu_init_cpuid` accepts, and the counters that it announces.
use perf_hound.Prelude.{ℕ, ◌+◌, ◌/◌, ◌%◌, ◌^◌, ◌≤◌, ◌≡◌, ◌↔◌, some, arith}
use perf_hound.Bits.{◌>>>◌}
use perf_hound.Bits.Fields.{and-mask}
use perf_hound.Kmod.{Globals}
use perf_hound.Kmod.Sysfs.Range.{IsProbeAbi}
use perf_hound.Kmod.Startup.{Leaves, discover, init_cpuid}

-- The module accepts a processor with what it has found out about it exactly if the processor has
-- CPUID leaf 10, the performance capability bit and an architecture version from 3 to 6.
pub init_cpuid-accepts :
    (l : Leaves) (cap : ℕ)
    → (init_cpuid l cap ≡ some (discover l cap)) ↔ (
        (10 ≤ l.leaf0_a)
        × (l.leaf1_c / 2 ^ 15 % 2 ≡ 1)
        × (3 ≤ l.leaf_a_a % 256)
        × (l.leaf_a_a % 256 ≤ 6))
unfolding init_cpuid
init_cpuid-accepts l cap = ground (arith, and-mask 1 (l.leaf1_c >>> 15), and-mask 8 l.leaf_a_a)

-- The limits that the module keeps for every processor.
pub record WithinLimits (g : Globals) : Type 0 where
  pub few_ff : g.pmc_ff ≤ 3
  pub few_gp : g.pmc_gp ≤ 25
  pub few : g.pmc_ff + g.pmc_gp ≤ 25

-- On every processor, the module works with at most 3 fixed counters, at most 25 general ones and
-- at most 25 altogether.
pub discover-WithinLimits : (l : Leaves) (cap : ℕ) → WithinLimits (discover l cap)
unfolding discover
discover-WithinLimits l cap = ground arith

-- On a processor with at least 3 fixed counters and at most 22 general ones, the exported layout
-- is three fixed counters followed by the general ones.
pub discover-IsProbeAbi :
    (l : Leaves) (cap : ℕ)
    → 3 ≤ l.leaf_a_d % 32
    → l.leaf_a_a / 2 ^ 8 % 256 ≤ 22
    → IsProbeAbi (discover l cap)
unfolding discover
discover-IsProbeAbi l cap ff gp =
    ground (arith, and-mask 5 l.leaf_a_d, and-mask 8 (l.leaf_a_a >>> 8))
