-- ===== src/Event/Events.antt =====
-- `EVENT_LIST` of src/probe/ph_evt_x86.c; its last entry, with a NULL name, is the list's end.
use perf_hound.Prelude.{List, [], ◌∷◌}
use perf_hound.Event.Entry.{Event, event}

unfoldable pub event_list : List Event
event_list =
    event 0x03 0 "ld_blocks"
    ∷ event 0x05 3 "misalign_mem_ref"
    ∷ event 0x07 6 "ld_blocks_partial"
    ∷ event 0x08 8 "dtlb_load_misses"
    ∷ event 0x0D 18 "int_misc"
    ∷ event 0x0E 20 "uops_issued"
    ∷ event 0x24 25 "l2_rqsts"
    ∷ event 0x27 42 "l2_demand_rqsts"
    ∷ event 0x2E 44 "llc"
    ∷ event 0x3C 47 "cpu_clk_unhalted"
    ∷ event 0x48 50 "l1d_pend_miss"
    ∷ event 0x49 52 "dtlb_store_misses"
    ∷ event 0x4C 62 "load_hit_pre"
    ∷ event 0x51 65 "l1d"
    ∷ event 0x54 67 "tx_mem"
    ∷ event 0x58 75 "move_elimination"
    ∷ event 0x5C 80 "cpl_cycles"
    ∷ event 0x5D 83 "tx_exec"
    ∷ event 0x5E 89 "rs_events"
    ∷ event 0x60 91 "offcore_requests_outstanding"
    ∷ event 0x63 96 "lock_cycles"
    ∷ event 0x79 99 "idq"
    ∷ event 0x80 111 "icache"
    ∷ event 0x85 113 "itlb_misses"
    ∷ event 0x87 122 "ild_stall"
    ∷ event 0x88 125 "br_inst_exec"
    ∷ event 0x89 135 "br_misp_exec"
    ∷ event 0x9C 144 "idq_uops_not_delivered"
    ∷ event 0xA1 146 "uops_executed_port"
    ∷ event 0xA2 155 "resource_stalls"
    ∷ event 0xA3 160 "cycle_activity"
    ∷ event 0xA8 166 "lsd"
    ∷ event 0xAE 168 "itlb"
    ∷ event 0xB0 170 "offcore_requests"
    ∷ event 0xB1 175 "uops_executed"
    ∷ event 0xBC 177 "page_walker_loads"
    ∷ event 0xBD 186 "tlb_flush"
    ∷ event 0xC0 189 "inst_retired"
    ∷ event 0xC1 192 "other_assists"
    ∷ event 0xC2 196 "uops_retired"
    ∷ event 0xC3 199 "machine_clears"
    ∷ event 0xC4 203 "br_inst_retired"
    ∷ event 0xC5 212 "br_misp_retired"
    ∷ event 0xC8 217 "hle_retired"
    ∷ event 0xC9 226 "rtm_retired"
    ∷ event 0xCA 235 "fp_assist"
    ∷ event 0xCC 241 "rob_misc_events"
    ∷ event 0xD0 243 "mem_uops_retired"
    ∷ event 0xD1 251 "mem_load_uops_retired"
    ∷ event 0xD2 259 "mem_load_uops_l3_hit_retired"
    ∷ event 0xD3 264 "mem_load_uops_l3_miss_retired"
    ∷ event 0xE6 266 "baclears"
    ∷ event 0xF0 268 "l2_trans"
    ∷ event 0xF1 277 "l2_lines_in"
    ∷ event 0xF2 282 "l2_lines_out"
    ∷ []
