-- ===== src/Kmod/Tests.antt =====
-- Runs of the model of src/kmod/x86 on a register file that is a plain memory, for a processor with
-- three fixed and four general-purpose counters.
use perf_hound.Prelude.{
  ℕ, ◌+◌, ◌-◌, ◌/◌, ◌%◌, ◌^◌, ◌≤◌, ◌<◌, ◌≡◌, refl, true, arith, ◌==◌, ltb, if◌then◌else◌, ◌↔◌, some,
}
use perf_hound.Prelude.Run.{done}
use perf_hound.Bits.{bit}
use perf_hound.Kmod
use perf_hound.Kmod.{Globals}
use perf_hound.Kmod.Msr.{wrmsr, reserved, bit-wrmsr}
use perf_hound.Kmod.Counters.{ff_cnt_rd_cfg, gp_cnt_wr_enb, gp_cnt_rd_cfg, gp_cnt_rd_val}
use perf_hound.Kmod.Counters.Enable.{bit-gp_cnt_wr_enb}
use perf_hound.Kmod.Sysfs.{reasonable, cfg_rd, cfg_wr, msk_rd, cnt_rd, moved}
use perf_hound.Kmod.Sysfs.Range.{WordAt, selected}
use perf_hound.Kmod.Sysfs.Read.{readers_lem, cfg_rd-cfg_wr}
use perf_hound.Kmod.Sysfs.Write.{cfg_wr_lem, word_for}
use perf_hound.Kmod.Sysfs.Write.Rounds.{gp_merge}
use perf_hound.Kmod.Startup.{discover, init_cpuid}
use perf_hound.Kmod.Startup.Cpuid.{init_cpuid-accepts}
use perf_hound.Kmod.Demo.{
  memory_rd, memory, skylake, counters, garbage, abi, all_hold, first_request,
}

first_request_ok : reasonable 0 56 ≡ true
unfolding reasonable
first_request_ok = refl

bit-wrmsr_example :
    bit 33 (memory_rd (wrmsr memory counters garbage Kmod.perfevtsel0 7) Kmod.perfevtsel0) ≡ (
      if bit 33 0xFFFFFFFF00000000 == 1
      then bit 33 (memory_rd garbage Kmod.perfevtsel0)
      else bit 33 7)
unfolding reserved
bit-wrmsr_example =
    bit-wrmsr memory counters garbage Kmod.perfevtsel0 7 0xFFFFFFFF00000000 33 tt refl (omega arith)
      (omega arith)

bit-gp_cnt_wr_enb_example :
    bit 2 (memory_rd (gp_cnt_wr_enb memory counters garbage 2 1) Kmod.perf_global_ctrl) ≡ 1
bit-gp_cnt_wr_enb_example =
    bit-gp_cnt_wr_enb memory counters (omega arith) tt garbage 2 1 2 (omega arith) (omega arith)

readers_lem_example :
    WordAt (cfg_rd memory counters garbage 0 56) 4 (gp_cnt_rd_cfg memory counters garbage 1)
    × WordAt (msk_rd counters 0 56) 4 0xFFFFFFFFFFFF
    × WordAt (cnt_rd memory counters garbage 0 56) 4 (gp_cnt_rd_val memory counters garbage 1)
readers_lem_example =
    readers_lem memory counters abi garbage 0 56 4 first_request_ok refl (omega arith)

cfg_wr_lem_example :
    (t : ℕ → ℕ) × (bytes : ℕ) × (cfg_wr memory counters garbage first_request 0 56
      ≡ done (moved bytes t))
    × ((k : ℕ)
        → k < 3
        → ff_cnt_rd_cfg memory counters t k ≡ (
            if selected 0 56 k
            then word_for first_request 0 k % 8
            else ff_cnt_rd_cfg memory counters garbage k))
    × ((k : ℕ)
        → k < 4
        → gp_cnt_rd_cfg memory counters t k ≡ (
            if selected 0 56 (3 + k)
            then gp_merge k
                (word_for first_request 0 (3 + k))
                (gp_cnt_rd_cfg memory counters garbage k)
            else gp_cnt_rd_cfg memory counters garbage k))
cfg_wr_lem_example =
    cfg_wr_lem memory counters abi all_hold garbage first_request 0 56 first_request_ok
      (omega arith)

cfg_rd-cfg_wr_example :
    (t : ℕ → ℕ) × (bytes : ℕ) × (cfg_wr memory counters garbage first_request 0 56
      ≡ done (moved bytes t))
    × ((k : ℕ)
        → selected 0 56 k ≡ true
        → k < 3 + 4
        → WordAt (cfg_rd memory counters t 0 56) (k - 0 / 8) (
            if ltb k 3
            then word_for first_request 0 k % 8
            else gp_merge
                (k - 3)
                (word_for first_request 0 k)
                (gp_cnt_rd_cfg memory counters garbage (k - 3))))
cfg_rd-cfg_wr_example =
    cfg_rd-cfg_wr memory counters abi garbage first_request 0 56 all_hold first_request_ok
      (omega arith)

init_cpuid-accepts_example : (init_cpuid skylake 0x2000 ≡ some (discover skylake 0x2000)) ↔ (
    (10 ≤ 0x16) × (0x7FFAFBBF / 2 ^ 15 % 2 ≡ 1) × (3 ≤ 0x07300404 % 256) × (0x07300404 % 256 ≤ 6))
init_cpuid-accepts_example = init_cpuid-accepts skylake 0x2000
