-- ===== src/Kmod/Demo.antt =====
-- A memory as register file, and a processor, for runs of src/kmod/x86/enable_pmu_x86.c.
use perf_hound.Prelude.{
  ℕ, ◌+◌, ◌*◌, ◌%◌, ◌^◌, ◌<◌, ◌≡◌, ◌≢◌, refl, true, List, [], ◌∷◌, arith, ◌==◌, if◌then◌else◌,
}
use perf_hound.Kmod.{Globals}
use perf_hound.Kmod.Msr.{MsrFile}
use perf_hound.Kmod.Sysfs.Range.{IsProbeAbi}
use perf_hound.Kmod.Sysfs.Write.Rounds.{HoldsConfig}
use perf_hound.Kmod.Startup.{Leaves}

abbrev pub memory_rd : (ℕ → ℕ) → ℕ → ℕ
memory_rd s a = s a % 2 ^ 64

abbrev pub memory_wr : (ℕ → ℕ) → ℕ → ℕ → ℕ → ℕ → ℕ
memory_wr s a lo hi b = if a == b then hi * 2 ^ 32 + lo else s b

pub memory_rd-wr_self :
    (s : ℕ → ℕ) (a lo hi : ℕ)
    → lo < 2 ^ 32
    → hi < 2 ^ 32
    → memory_rd (memory_wr s a lo hi) a ≡ hi * 2 ^ 32 + lo
memory_rd-wr_self s a lo hi p q = ground arith

pub memory_rd-wr_ne :
    (s : ℕ → ℕ) (a b lo hi : ℕ) → a ≢ b → memory_rd (memory_wr s a lo hi) b ≡ memory_rd s b
memory_rd-wr_ne s a b lo hi ne = ground arith

pub memory_rd-lt : (s : ℕ → ℕ) (a : ℕ) → memory_rd s a < 2 ^ 64
memory_rd-lt s a = omega arith

abbrev pub memory : MsrFile
memory = record {
  State = ℕ → ℕ;
  rd = memory_rd;
  wr = memory_wr;
  Holds = λ _. Unit {0};
  rd-lt = memory_rd-lt;
  rd-wr_self = λ s a lo hi h p q. memory_rd-wr_self s a lo hi p q;
  rd-wr_ne = λ s a b lo hi h ne. memory_rd-wr_ne s a b lo hi ne;
}

-- CPUID of a processor with three fixed and four other counters of 48 bits, version 4.
abbrev pub skylake : Leaves
skylake = record {
  leaf0_a = 0x16;
  leaf1_a = 0x506E3;
  leaf1_c = 0x7FFAFBBF;
  leaf_a_a = 0x07300404;
  leaf_a_d = 0x603;
}

abbrev pub counters : Globals
counters = record {
  full_width_writes = true;
  pmc_ff_hw = 3;
  pmc_ff = 3;
  pmc_gp = 4;
  pmc_ff_mask = 0xFFFFFFFFFFFF;
  pmc_gp_mask = 0xFFFFFFFFFFFF;
  pmc_start_ff = 0;
  pmc_end_ff = 3;
  pmc_start_gp = 3;
  pmc_end_gp = 7;
}

abbrev pub garbage : ℕ → ℕ
garbage a = 0x1_0000_0000 * a + 0x2_0000

abbrev pub abi : IsProbeAbi counters
abi = record {
  start_ff = refl;
  end_ff = refl;
  start_gp = refl;
  end_gp = refl;
  ff = refl;
  gp = omega arith;
}

abbrev pub all_hold : HoldsConfig memory counters
all_hold = record { ctrl = tt; global = tt; evtsel = λ i _. tt }

-- The request of `_ph_init_ts`: seven configurations.
abbrev pub first_request : List ℕ
first_request = 2 ∷ 2 ∷ 2 ∷ 0x4100C0 ∷ 0 ∷ 0x4300C4 ∷ 0 ∷ []
