-- ===== src/Event/UmasksLow.antt =====
-- Lines 24 to 98 of `UMASK_LIST` in src/probe/ph_evt_x86.c.
use perf_hound.Prelude.{List, [], ◌∷◌}
use perf_hound.Event.Entry.{Umask, umask, null_umask}

unfoldable pub umasks_low : List Umask
umasks_low =
    umask 0x02 "store_forward"
    ∷ umask 0x08 "no_sr"
    ∷ null_umask
    ∷ umask 0x01 "loads"
    ∷ umask 0x02 "stores"
    ∷ null_umask
    ∷ umask 0x01 "address_alias"
    ∷ null_umask
    ∷ umask 0x01 "miss_causes_a_walk"
    ∷ umask 0x02 "walk_completed_4k"
    ∷ umask 0x04 "walk_completed_2m_4m"
    ∷ umask 0x0e "walk_completed"
    ∷ umask 0x10 "walk_duration"
    ∷ umask 0x20 "stlb_hit_4k"
    ∷ umask 0x40 "stlb_hit_2m"
    ∷ umask 0x60 "stlb_hit"
    ∷ umask 0x80 "pde_cache_miss"
    ∷ null_umask
    ∷ umask 0x03 "recovery_cycles"
    ∷ null_umask
    ∷ umask 0x01 "any"
    ∷ umask 0x10 "flags_merge"
    ∷ umask 0x20 "slow_lea"
    ∷ umask 0x40 "single_mul"
    ∷ null_umask
    ∷ umask 0x21 "demand_data_rd_miss"
    ∷ umask 0x41 "demand_data_rd_hit"
    ∷ umask 0xE1 "all_demand_data_rd"
    ∷ umask 0x42 "rfo_hit"
    ∷ umask 0x22 "rfo_miss"
    ∷ umask 0xE2 "all_rfo"
    ∷ umask 0x44 "code_rd_hit"
    ∷ umask 0x24 "code_rd_miss"
    ∷ umask 0x27 "all_demand_miss"
    ∷ umask 0xE7 "all_demand_references"
    ∷ umask 0xE4 "all_code_rd"
    ∷ umask 0x50 "l2_pf_hit"
    ∷ umask 0x30 "l2_pf_miss"
    ∷ umask 0xF8 "all_pf"
    ∷ umask 0x3F "miss"
    ∷ umask 0xFF "references"
    ∷ null_umask
    ∷ umask 0x50 "wb_hit"
    ∷ null_umask
    ∷ umask 0x4F "reference"
    ∷ umask 0x41 "miss"
    ∷ null_umask
    ∷ umask 0x00 "core_clk"
    ∷ umask 0x01 "ref_xclk"
    ∷ null_umask
    ∷ umask 0x01 "pending"
    ∷ null_umask
    ∷ umask 0x01 "miss_causes_a_walk"
    ∷ umask 0x02 "walk_completed_4k"
    ∷ umask 0x04 "walk_completed_2m_4m"
    ∷ umask 0x0E "walk_completed"
    ∷ umask 0x10 "walk_duration"
    ∷ umask 0x20 "stlb_hit_4k"
    ∷ umask 0x40 "stlb_hit_2m"
    ∷ umask 0x60 "stlb_hit"
    ∷ umask 0x80 "pde_cache_miss"
    ∷ null_umask
    ∷ umask 0x01 "sw_pf"
    ∷ umask 0x02 "hw_pf"
    ∷ null_umask
    ∷ umask 0x01 "replacement"
    ∷ null_umask
    ∷ umask 0x01 "abort_conflict"
    ∷ umask 0x02 "abort_capacity_write"
    ∷ umask 0x04 "abort_hle_store_to_elided_lock"
    ∷ umask 0x08 "abort_hle_elision_buffer_not_empty"
    ∷ umask 0x10 "abort_hle_elision_buffer_mismatch"
    ∷ umask 0x20 "abort_hle_elision_buffer_unsupported_alignment"
    ∷ umask 0x40 "hle_elision_buffer_full"
    ∷ null_umask
    ∷ []
