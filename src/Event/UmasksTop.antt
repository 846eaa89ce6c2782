-- ===== src/Event/UmasksTop.antt =====
-- Lines 241 to 308 of `UMASK_LIST` in src/probe/ph_evt_x86.c.
use perf_hound.Prelude.{List, [], ◌∷◌}
use perf_hound.Event.Entry.{Umask, umask, null_umask}

unfoldable pub umasks_top : List Umask
umasks_top =
    umask 0x01 "start"
    ∷ umask 0x02 "commit"
    ∷ umask 0x04 "aborted"
    ∷ umask 0x08 "aborted_mem"
    ∷ umask 0x10 "aborted_timer"
    ∷ umask 0x20 "aborted_unfriendly"
    ∷ umask 0x40 "aborted_memtype"
    ∷ umask 0x80 "aborted_events"
    ∷ null_umask
    ∷ umask 0x01 "start"
    ∷ umask 0x02 "commit"
    ∷ umask 0x04 "aborted"
    ∷ umask 0x08 "aborted_mem"
    ∷ umask 0x10 "aborted_timer"
    ∷ umask 0x20 "aborted_unfriendly"
    ∷ umask 0x40 "aborted_memtype"
    ∷ umask 0x80 "aborted_events"
    ∷ null_umask
    ∷ umask 0x02 "x87_output"
    ∷ umask 0x04 "x87_input"
    ∷ umask 0x08 "simd_output"
    ∷ umask 0x10 "simd_input"
    ∷ umask 0x1E "any"
    ∷ null_umask
    ∷ umask 0x20 "lbr_inserts"
    ∷ null_umask
    ∷ umask 0x11 "stlb_miss_loads"
    ∷ umask 0x12 "stlb_miss_stores"
    ∷ umask 0x21 "lock_loads"
    ∷ umask 0x41 "split_loads"
    ∷ umask 0x42 "split_stores"
    ∷ umask 0x81 "all_loads"
    ∷ umask 0x82 "all_stores"
    ∷ null_umask
    ∷ umask 0x01 "l1_hit"
    ∷ umask 0x02 "l2_hit"
    ∷ umask 0x04 "l3_hit"
    ∷ umask 0x08 "l1_miss"
    ∷ umask 0x10 "l2_miss"
    ∷ umask 0x20 "l3_miss"
    ∷ umask 0x40 "hit_lfb"
    ∷ null_umask
    ∷ umask 0x01 "xsnp_miss"
    ∷ umask 0x02 "xsnp_hit"
    ∷ umask 0x04 "xsnp_hitm"
    ∷ umask 0x08 "xsnp_none"
    ∷ null_umask
    ∷ umask 0x01 "local_dram"
    ∷ null_umask
    ∷ umask 0x1F "any"
    ∷ null_umask
    ∷ umask 0x01 "demand_data_rd"
    ∷ umask 0x02 "rfo"
    ∷ umask 0x04 "code_rd"
    ∷ umask 0x08 "all_pf"
    ∷ umask 0x10 "l1d_wb"
    ∷ umask 0x20 "l2_fill"
    ∷ umask 0x40 "l2_wb"
    ∷ umask 0x80 "all_requests"
    ∷ null_umask
    ∷ umask 0x01 "i"
    ∷ umask 0x02 "s"
    ∷ umask 0x04 "e"
    ∷ umask 0x07 "all"
    ∷ null_umask
    ∷ umask 0x05 "demand_clean"
    ∷ umask 0x06 "demand_dirty"
    ∷ null_umask
    ∷ []
