-- ===== src/Event/UmasksHigh.antt =====
-- Lines 168 to 240 of `UMASK_LIST` in src/probe/ph_evt_x86.c.
use perf_hound.Prelude.{List, [], ◌∷◌}
use perf_hound.Event.Entry.{Umask, umask, null_umask}

unfoldable pub umasks_high : List Umask
umasks_high =
    umask 0x01 "core"
    ∷ null_umask
    ∷ umask 0x01 "port_0"
    ∷ umask 0x02 "port_1"
    ∷ umask 0x04 "port_2"
    ∷ umask 0x08 "port_3"
    ∷ umask 0x10 "port_4"
    ∷ umask 0x20 "port_5"
    ∷ umask 0x40 "port_6"
    ∷ umask 0x80 "port_7"
    ∷ null_umask
    ∷ umask 0x01 "any"
    ∷ umask 0x04 "rs"
    ∷ umask 0x08 "sb"
    ∷ umask 0x10 "rob"
    ∷ null_umask
    ∷ umask 0x01 "cycles_l2_pending"
    ∷ umask 0x02 "cycles_ldm_pending"
    ∷ umask 0x05 "stalls_l2_pending"
    ∷ umask 0x08 "cycles_l1d_pending"
    ∷ umask 0x0C "stalls_l1d_pending"
    ∷ null_umask
    ∷ umask 0x01 "uops"
    ∷ null_umask
    ∷ umask 0x01 "itlb_flush"
    ∷ null_umask
    ∷ umask 0x01 "demand_data_rd"
    ∷ umask 0x02 "demand_core_rd"
    ∷ umask 0x04 "demand_rfo"
    ∷ umask 0x08 "all_data_rd"
    ∷ null_umask
    ∷ umask 0x02 "core"
    ∷ null_umask
    ∷ umask 0x11 "dtlb_l1"
    ∷ umask 0x21 "itlb_l1"
    ∷ umask 0x12 "dtlb_l2"
    ∷ umask 0x22 "itlb_l2"
    ∷ umask 0x14 "dtlb_l3"
    ∷ umask 0x24 "itlb_l3"
    ∷ umask 0x18 "dtlb_memory"
    ∷ umask 0x28 "itlb_memory"
    ∷ null_umask
    ∷ umask 0x01 "dtlb_thread"
    ∷ umask 0x20 "stlb_any"
    ∷ null_umask
    ∷ umask 0x00 "any_p"
    ∷ umask 0x01 "prec_dist"
    ∷ null_umask
    ∷ umask 0x08 "avx_to_sse"
    ∷ umask 0x10 "sse_to_avx"
    ∷ umask 0x40 "any_wb_assist"
    ∷ null_umask
    ∷ umask 0x01 "all"
    ∷ umask 0x02 "retire_slots"
    ∷ null_umask
    ∷ umask 0x02 "memory_ordering"
    ∷ umask 0x04 "smc"
    ∷ umask 0x20 "maskmov"
    ∷ null_umask
    ∷ umask 0x00 "all_branches"
    ∷ umask 0x01 "conditional"
    ∷ umask 0x02 "near_call"
    ∷ umask 0x04 "all_branches_pebs"
    ∷ umask 0x08 "near_return"
    ∷ umask 0x10 "not_taken"
    ∷ umask 0x20 "near_taken"
    ∷ umask 0x40 "far_branch"
    ∷ null_umask
    ∷ umask 0x00 "all_branches"
    ∷ umask 0x01 "conditional"
    ∷ umask 0x04 "all_branches_pebs"
    ∷ umask 0x20 "near_taken"
    ∷ null_umask
    ∷ []
