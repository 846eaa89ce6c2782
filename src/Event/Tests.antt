-- ===== src/Event/Tests.antt =====
-- Runs of the parser on concrete strings.
use perf_hound.Prelude.{◌≡◌, refl, codes, ◌⊎◌, ◌%◌, ◌^◌, if◌then◌else◌}
use perf_hound.Bits.{◌>>>◌}
use perf_hound.Kmod.Counters.{filter_cfg}
use perf_hound.Kmod.Counters.General.{allowed}
use perf_hound.Event.Result.{IsEventWord, parse_cfg-IsEventWord}
use perf_hound.Event.Kept.{filter_cfg-parse_cfg}
use perf_hound.Event.Parse.{
  umask_list, find_event, find_number, by_number, parse_event, find_umask, parse_umask, threshold,
  parse_cmask, modes_loop, parse_modes, event_word, parse_tail, parse_masked, parse_from, parse_cfg,
}
use perf_hound.Event.Libc.{starts_with, skip_space, digits, strtoull}
use perf_hound.Event.Events.{event_list}
use perf_hound.Event.UmasksLow.{umasks_low}
use perf_hound.Event.UmasksMid.{umasks_mid}
use perf_hound.Event.UmasksHigh.{umasks_high}
use perf_hound.Event.UmasksTop.{umasks_top}

numeric : parse_cfg (codes "0xA3.0x0C>=6:uK") ≡ 0x6430CA3
unfolding umask_list find_event find_number by_number parse_event find_umask parse_umask threshold
    parse_cmask modes_loop parse_modes event_word parse_tail parse_masked parse_from parse_cfg
    starts_with skip_space digits strtoull event_list umasks_low umasks_mid umasks_high umasks_top
numeric = refl

parse_cfg-IsEventWord_example :
    (parse_cfg (codes "*0x0E.0x01<2:u") ≡ 0) ⊎ IsEventWord (parse_cfg (codes "*0x0E.0x01<2:u"))
parse_cfg-IsEventWord_example = parse_cfg-IsEventWord (codes "*0x0E.0x01<2:u")

filter_cfg-parse_cfg_example : filter_cfg 1 (parse_cfg (codes "0x48.0x01")) ≡ (
    if allowed 1
      (parse_cfg (codes "0x48.0x01") % 2 ^ 8)
      ((parse_cfg (codes "0x48.0x01") >>> 8) % 2 ^ 8)
    then parse_cfg (codes "0x48.0x01")
    else 0)
filter_cfg-parse_cfg_example = filter_cfg-parse_cfg 1 (codes "0x48.0x01")
