-- ===== src/Event/Parse.antt =====
-- `ph_pmu_parse_cfg` of src/probe/ph_evt_x86.c, stage by stage; 0 is its error code.
use perf_hound.Prelude.{
  ℕ, ◌+◌, Bool, not, ◌&&◌, ◌||◌, List, [], ◌∷◌, ◌++◌, drop, length, Bytes, ltb, ◌==◌, if◌then◌else◌,
  Option, none, some,
}
use perf_hound.Bits.{◌|||◌, ◌&&&◌, ◌<<<◌}
use perf_hound.Event.Entry.{Umask, Event}
use perf_hound.Event.UmasksLow.{umasks_low}
use perf_hound.Event.UmasksMid.{umasks_mid}
use perf_hound.Event.UmasksHigh.{umasks_high}
use perf_hound.Event.UmasksTop.{umasks_top}
use perf_hound.Event.Events.{event_list}
use perf_hound.Event.Libc.{at, is_digit, starts_with, strtoull}

unfoldable pub umask_list : List Umask
umask_list = umasks_low ++ umasks_mid ++ umasks_high ++ umasks_top

-- The bytes `.`, `*`, `:`, `<`, `=` and `>`.
abbrev pub dot : ℕ
dot = 46

abbrev pub star : ℕ
star = 42

abbrev pub colon : ℕ
colon = 58

abbrev pub less : ℕ
less = 60

abbrev pub equals : ℕ
equals = 61

abbrev pub greater : ℕ
greater = 62

-- The first event whose name is in front of a dot, and what follows the dot.
unfoldable pub find_event : List Event → Bytes → Option (Event × Bytes)
find_event [] s = none
find_event (e ∷ es) s =
    let rest = find_event es s in
    let n = length (e.name) in
    if starts_with s (e.name) && at s n == dot then some (e, drop (n + 1) s) else rest

unfoldable pub find_number : List Event → ℕ → Option Event
find_number [] v = none
find_number (e ∷ es) v = let rest = find_number es v in if e.evt_num == v then some e else rest

-- The event number, the index of its unit masks, and the rest of the string.
pub record Chosen : Type 0 where
  pub evt_num : ℕ
  pub umasks : ℕ
  pub rest : Bytes

unfoldable pub by_number : Bytes → Option Chosen
by_number s =
    let r = strtoull s in
    if not (at (r.1) 0 == dot) || ltb 0xFF (r.0)
    then none
    else elim (find_number event_list (r.0)) [
      | none ↦ none
      | some e ↦ some (record { evt_num = r.0; umasks = e.umasks; rest = drop 1 (r.1) })
    ]

unfoldable pub parse_event : Bytes → Option Chosen
parse_event s = elim (find_event event_list s) [
  | some p ↦ some (record { evt_num = (p.0).evt_num; umasks = (p.0).umasks; rest = p.1 })
  | none ↦ by_number s
]

-- What may follow a unit mask at index `n`.
abbrev pub ends_umask : Bytes → ℕ → Bool
ends_umask s n =
    at s n == 0
    || at s n == less
    || (at s n == greater && at s (n + 1) == equals)
    || at s n == colon

unfoldable pub find_umask : List Umask → Bytes → Option (ℕ × Bytes)
find_umask [] s = none
find_umask (m ∷ ms) s =
    let rest = find_umask ms s in
    elim (m.name) [
      | none ↦ none
      | some name ↦
          (let n = length name in
            if starts_with s name && ends_umask s n then some (m.umask_val, drop n s) else rest)
    ]

unfoldable pub parse_umask : List Umask → Bytes → Option (ℕ × Bytes)
parse_umask masks s = elim (find_umask masks s) [
  | some p ↦ some p
  | none ↦
      (let r = strtoull s in if ltb 0xFF (r.0) || not (ends_umask (r.1) 0) then none else some r)
]

-- `inv`, `cmask` and the rest of the string.
pub record Threshold : Type 0 where
  pub inv : ℕ
  pub cmask : ℕ
  pub rest : Bytes

unfoldable pub threshold : ℕ → Bytes → Threshold
threshold inv s = let r = strtoull s in record { inv = inv; cmask = r.0 &&& 0xFF; rest = r.1 }

unfoldable pub parse_cmask : Bytes → Threshold
parse_cmask s =
    if at s 0 == greater && at s 1 == equals && is_digit (at s 2)
    then threshold 0 (drop 2 s)
    else if at s 0 == less && is_digit (at s 1)
    then threshold 1 (drop 1 s)
    else record { inv = 0; cmask = 0; rest = s }

pub record Modes : Type 0 where
  pub anythread : ℕ
  pub user : ℕ
  pub os : ℕ

-- One letter of the mode, or the end of the loop.
abbrev pub mode_letter : Modes → ℕ → Option Modes
mode_letter m c =
    if c == 65 || c == 97
    then some (record { anythread = 1; user = m.user; os = m.os })
    else if c == 85 || c == 117
    then some (record { anythread = m.anythread; user = 1; os = m.os })
    else if c == 75 || c == 107
    then some (record { anythread = m.anythread; user = m.user; os = 1 })
    else none

-- The loop over the letters behind the colon.
unfoldable pub modes_loop : Modes → Bytes → Modes
modes_loop m [] = m
modes_loop m (c ∷ s) = elim (mode_letter m c) [ none ↦ m | some n ↦ modes_loop n s ]

unfoldable pub parse_modes : Bytes → Modes
parse_modes s =
    if at s 0 == colon
    then modes_loop (record { anythread = 0; user = 0; os = 0 }) (drop 1 s)
    else record { anythread = 0; user = 1; os = 0 }

-- The layout of IA32_PERFEVTSELx.
unfoldable pub event_word : ℕ → ℕ → Threshold → ℕ → Modes → ℕ
event_word evt umask t edge m =
    (t.cmask <<< 24)
    ||| (t.inv <<< 23)
    ||| (1 <<< 22)
    ||| (m.anythread <<< 21)
    ||| (edge <<< 18)
    ||| (m.os <<< 17)
    ||| (m.user <<< 16)
    ||| (umask <<< 8)
    ||| evt

unfoldable pub parse_tail : ℕ → ℕ → ℕ × Bytes → ℕ
parse_tail edge evt p =
    let t = parse_cmask (p.1) in event_word evt (p.0) t edge (parse_modes (t.rest))

unfoldable pub parse_masked : ℕ → Chosen → ℕ
parse_masked edge e = elim (parse_umask (drop (e.umasks) umask_list) (e.rest)) [
  | none ↦ 0
  | some p ↦ parse_tail edge (e.evt_num) p
]

unfoldable pub parse_from : ℕ → Bytes → ℕ
parse_from edge s = elim (parse_event s) [ none ↦ 0 | some e ↦ parse_masked edge e ]

unfoldable pub parse_cfg : Bytes → ℕ
parse_cfg s =
    if at s 0 == 0 then 0 else if at s 0 == star then parse_from 1 (drop 1 s) else parse_from 0 s
