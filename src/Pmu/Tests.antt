-- ===== src/Pmu/Tests.antt =====
-- The configuration of named events on the memory of Kmod/Demo.
use perf_hound.Prelude.{
  ℕ, ◌≡◌, arith, List, [], ◌∷◌, ◌%◌, ◌^◌, length, map, get_elem?, some, Bytes, codes, if◌then◌else◌,
}
use perf_hound.Prelude.Run.{done}
use perf_hound.Bits.{◌>>>◌}
use perf_hound.Kmod.Counters.{gp_cnt_rd_cfg}
use perf_hound.Kmod.Counters.General.{allowed}
use perf_hound.Kmod.Demo.{memory, counters, garbage, abi, all_hold}
use perf_hound.Event.Parse.{parse_cfg}
use perf_hound.Pmu.{Answer, wr_cfgs}
use perf_hound.Pmu.Configured.{names-configured}

abbrev names : List Bytes
names = codes "0x3C.0x00" ∷ codes "0x48.0x01" ∷ []

names-configured_example :
    (t : ℕ → ℕ) × (wr_cfgs memory counters 3
        (length (map parse_cfg names))
        (map parse_cfg names)
        garbage
      ≡ done (Answer.ok, t))
    × ((i : ℕ) (name : Bytes)
        → get_elem? names i ≡ some name
        → gp_cnt_rd_cfg memory counters t i % 2 ^ 32 ≡ (
            if allowed i (parse_cfg name % 2 ^ 8) ((parse_cfg name >>> 8) % 2 ^ 8)
            then parse_cfg name
            else 0))
names-configured_example = names-configured memory counters abi all_hold garbage names (omega arith)
