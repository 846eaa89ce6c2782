-- ===== src/Event/Names.antt =====
-- The names in the tables of src/probe/ph_evt_x86.c and what the parser makes of them.
use perf_hound.Prelude.{
  ℕ, ◌≡◌, refl, ◌+◌, ◌*◌, ◌^◌, ◌==◌, ==_iff, ◌&&◌, List, [], ◌∷◌, ◌++◌, some, none, Bool, true,
  false, drop, Bytes, All, All-map, if◌then◌else◌, arith,
}
use perf_hound.Event.Entry.{Event, Umask}
use perf_hound.Event.Parse.{
  umask_list, find_event, find_number, by_number, parse_event, find_umask, parse_umask, threshold,
  parse_cmask, modes_loop, parse_modes, event_word, parse_tail, parse_masked, parse_from, parse_cfg,
}
use perf_hound.Event.Libc.{starts_with, skip_space, digits, strtoull}
use perf_hound.Event.Events.{event_list}
use perf_hound.Event.UmasksLow.{umasks_low}
use perf_hound.Event.UmasksMid.{umasks_mid}
use perf_hound.Event.UmasksHigh.{umasks_high}
use perf_hound.Event.UmasksTop.{umasks_top}

-- The entries in front of the terminator.
unfoldable pub named_masks : List Umask → List (Bytes × ℕ)
named_masks [] = []
named_masks (m ∷ ms) =
    let rest = named_masks ms in
    elim (m.name) [ none ↦ [] | some name ↦ (name, m.umask_val) ∷ rest ]

unfoldable pub same_bytes : Bytes → Bytes → Bool
same_bytes [] [] = true
same_bytes (a ∷ xs) (b ∷ ys) = (a == b) && same_bytes xs ys
same_bytes xs ys = false

-- The unit mask of the first entry of a name.
unfoldable pub first_value : List (Bytes × ℕ) → Bytes → ℕ
first_value [] name = 0
first_value (p ∷ ps) name =
    let rest = first_value ps name in if same_bytes name (p.0) then p.1 else rest

abbrev pub masks_of : Event → List (Bytes × ℕ)
masks_of e = named_masks (drop (e.umasks) umask_list)

module _ {ℓ} {A : Type ℓ} (P : A → Bool) where
  every : List A → Bool
  every [] = true
  every (x ∷ xs) = P x && every xs

  All-every : (xs : List A) → every xs ≡ true → All (λ x. P x ≡ true) xs
  unfolding every
  All-every [] h = tt
  All-every (x ∷ xs) h = (ground arith, All-every xs (ground arith))

abbrev expected : Event → Bytes → ℕ
expected e name = 2 ^ 22 + 2 ^ 16 + first_value (masks_of e) name * 2 ^ 8 + e.evt_num

abbrev row_parses : Event → Bytes × ℕ → Bool
row_parses e p = parse_cfg (e.name ++ 46 ∷ p.0) == expected e (p.0)

event_parses : Event → Bool
event_parses e = every (row_parses e) (masks_of e)

all_parse : every event_parses event_list ≡ true
unfolding umask_list find_event find_number by_number parse_event find_umask parse_umask threshold
    parse_cmask modes_loop parse_modes event_word parse_tail parse_masked parse_from parse_cfg
    starts_with skip_space digits strtoull event_list umasks_low umasks_mid umasks_high umasks_top
    every event_parses named_masks same_bytes first_value
all_parse = refl

-- For every event of the table and every unit mask in its list, the name of the event, a dot and
-- the name of the unit mask parse to the number of the event and to the value of the first entry
-- of that name in the list, counted in user mode, with no threshold and no edge detection.
parse_cfg-names :
    All
      (λ e.
        All
          (λ (p : Bytes × ℕ).
            parse_cfg (e.name ++ 46 ∷ p.0)
            ≡ 2 ^ 22 + 2 ^ 16 + first_value (masks_of e) (p.0) * 2 ^ 8 + e.evt_num)
          (masks_of e))
      event_list
unfolding event_parses
parse_cfg-names =
    All-map event_list
      (λ e h. All-map (masks_of e) (λ p. (==_iff _ _).0) (All-every (row_parses e) (masks_of e) h))
      (All-every event_parses event_list all_parse)
