-- ===== src/Event/UmasksMid.antt =====
-- Lines 99 to 167 of `UMASK_LIST` in src/probe/ph_evt_x86.c.
use perf_hound.Prelude.{List, [], ◌∷◌}
use perf_hound.Event.Entry.{Umask, umask, null_umask}

unfoldable pub umasks_mid : List Umask
umasks_mid =
    umask 0x04 "int_not_eliminated"
    ∷ umask 0x08 "simd_not_eliminated"
    ∷ umask 0x01 "int_not_eliminated"
    ∷ umask 0x02 "simd_eliminated"
    ∷ null_umask
    ∷ umask 0x01 "ring0"
    ∷ umask 0x02 "ring123"
    ∷ null_umask
    ∷ umask 0x01 "misc1"
    ∷ umask 0x02 "misc2"
    ∷ umask 0x04 "misc3"
    ∷ umask 0x08 "misc4"
    ∷ umask 0x10 "misc5"
    ∷ null_umask
    ∷ umask 0x01 "empty_cycles"
    ∷ null_umask
    ∷ umask 0x01 "demand_data_rd"
    ∷ umask 0x02 "demand_code_rd"
    ∷ umask 0x04 "demand_rfo"
    ∷ umask 0x08 "all_data_rd"
    ∷ null_umask
    ∷ umask 0x01 "split_lock_uc_lock_duration"
    ∷ umask 0x02 "cache_lock_duration"
    ∷ null_umask
    ∷ umask 0x02 "empty"
    ∷ umask 0x04 "mite_uops"
    ∷ umask 0x08 "dsb_uops"
    ∷ umask 0x10 "ms_dsb_uops"
    ∷ umask 0x20 "ms_mite_uops"
    ∷ umask 0x30 "ms_uops"
    ∷ umask 0x18 "all_dsb_cycles_any_uops"
    ∷ umask 0x18 "all_dsb_cycles_4_uops"
    ∷ umask 0x24 "all_mite_cycles_any_uops"
    ∷ umask 0x24 "all_mite_cycles_4_uops"
    ∷ umask 0x3C "mite_all_uops"
    ∷ null_umask
    ∷ umask 0x02 "misses"
    ∷ null_umask
    ∷ umask 0x01 "miss_causes_a_walk"
    ∷ umask 0x02 "walk_completed_4k"
    ∷ umask 0x04 "walk_completed_2m_4m"
    ∷ umask 0x0E "walk_completed"
    ∷ umask 0x10 "walk_duration"
    ∷ umask 0x20 "stlb_hit_4k"
    ∷ umask 0x40 "stlb_hit_2m"
    ∷ umask 0x60 "stlb_hit"
    ∷ null_umask
    ∷ umask 0x01 "lcp"
    ∷ umask 0x04 "iq_full"
    ∷ null_umask
    ∷ umask 0x01 "cond"
    ∷ umask 0x02 "direct_jmp"
    ∷ umask 0x04 "indirect_jmp_non_call_ret"
    ∷ umask 0x08 "return_near"
    ∷ umask 0x10 "direct_near_call"
    ∷ umask 0x20 "indirect_near_call"
    ∷ umask 0x40 "nontaken"
    ∷ umask 0x80 "taken"
    ∷ umask 0xFF "all_branches"
    ∷ null_umask
    ∷ umask 0x01 "cond"
    ∷ umask 0x04 "indirect_jmp_non_call_ret"
    ∷ umask 0x08 "return_near"
    ∷ umask 0x10 "direct_near_call"
    ∷ umask 0x20 "indirect_near_call"
    ∷ umask 0x40 "nontaken"
    ∷ umask 0x80 "taken"
    ∷ umask 0xFF "all_branches"
    ∷ null_umask
    ∷ []
