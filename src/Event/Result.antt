-- ===== src/Event/Result.antt =====
-- What `ph_pmu_parse_cfg` returns, for every string.
use perf_hound.Prelude.{
  ℕ, ◌^◌, ◌<◌, ◌≡◌, refl, arith, ltb, List, [], ◌∷◌, some, Bytes, Option-cases, inl, inr, ◌⊎◌, ◌&&◌,
  ◌==◌, Bool, true, Bool-cases, drop, All, All-drop, length,
}
use perf_hound.Bits.Fields.{and-mask}
use perf_hound.Event.Entry.{Umask, Event}
use perf_hound.Event.Libc.{at, starts_with, strtoull, is_digit}
use perf_hound.Event.Events.{event_list}
use perf_hound.Event.UmasksLow.{umasks_low}
use perf_hound.Event.UmasksMid.{umasks_mid}
use perf_hound.Event.UmasksHigh.{umasks_high}
use perf_hound.Event.UmasksTop.{umasks_top}
use perf_hound.Event.Parse.{
  umask_list, dot, less, equals, greater, colon, star, Chosen, Threshold, Modes, find_event,
  by_number, parse_event, find_umask, parse_umask, threshold, parse_cmask, mode_letter, modes_loop,
  parse_modes, parse_tail, parse_masked, parse_from, parse_cfg, ends_umask,
}
use perf_hound.Event.Word.{InRange, word_sum, event_word_lem}

all_below {ℓ} : {A : Type ℓ} → (A → ℕ) → List A → Bool
all_below f [] = true
all_below f (x ∷ xs) = ltb (f x) 256 && all_below f xs

All-below {ℓ} :
    {A : Type ℓ} (f : A → ℕ) (xs : List A) → all_below f xs ≡ true → All (λ x. f x < 2 ^ 8) xs
unfolding all_below
All-below f [] h = tt
All-below f (x ∷ xs) h = (ground arith, All-below f xs (ground arith))

events_small : All (λ e. e.evt_num < 2 ^ 8) event_list
unfolding all_below event_list
events_small = All-below (λ (e : Event). e.evt_num) event_list refl

umasks_small : All (λ m. m.umask_val < 2 ^ 8) umask_list
unfolding all_below umask_list umasks_low umasks_mid umasks_high umasks_top
umasks_small = All-below (λ (m : Umask). m.umask_val) umask_list refl

find_event-small :
    (es : List Event) (s : Bytes) {p : Event × Bytes}
    → All (λ e. e.evt_num < 2 ^ 8) es
    → find_event es s ≡ some p
    → (p.0).evt_num < 2 ^ 8
unfolding find_event
find_event-small [] s h e = absurd (ground arith)
find_event-small (x ∷ es) s {p} h e =
    elim (Bool-cases (starts_with s (x.name) && at s (length (x.name)) == dot)) [
      | inl found ↦ ground (arith, h.0)
      | inr other ↦ find_event-small es s {p = p} (h.1) (ground arith)
    ]

find_umask-small :
    (ms : List Umask) (s : Bytes) {p : ℕ × Bytes}
    → All (λ m. m.umask_val < 2 ^ 8) ms
    → find_umask ms s ≡ some p
    → p.0 < 2 ^ 8
unfolding find_umask
find_umask-small [] s h e = absurd (ground arith)
find_umask-small (x ∷ ms) s {p} h e = elim (Option-cases (x.name)) [
  | inl last ↦ absurd (ground arith)
  | inr (name, named) ↦ elim (Bool-cases (starts_with s name && ends_umask s (length name))) [
    | inl found ↦ ground (arith, h.0)
    | inr other ↦ find_umask-small ms s {p = p} (h.1) (ground arith)
  ]
]

parse_umask-small :
    (i : ℕ) (s : Bytes) {p : ℕ × Bytes} → parse_umask (drop i umask_list) s ≡ some p → p.0 < 2 ^ 8
unfolding parse_umask
parse_umask-small i s e = elim (Option-cases (find_umask (drop i umask_list) s)) [
  | inl none_found ↦ ground arith
  | inr (q, found) ↦
      ground
        (arith, find_umask-small (drop i umask_list) s (All-drop _ i umask_list umasks_small) found)
]

parse_event-small : (s : Bytes) {c : Chosen} → parse_event s ≡ some c → c.evt_num < 2 ^ 8
unfolding parse_event by_number
parse_event-small s e = elim (Option-cases (find_event event_list s)) [
  | inl none_found ↦ ground arith
  | inr (q, found) ↦ ground (arith, find_event-small event_list s events_small found)
]

threshold-small :
    (inv : ℕ) (s : Bytes) → ((threshold inv s).cmask < 2 ^ 8) × ((threshold inv s).inv ≡ inv)
unfolding threshold
threshold-small inv s = (omega (arith, and-mask 8 ((strtoull s).0)), refl)

parse_cmask-small : (s : Bytes) → ((parse_cmask s).cmask < 2 ^ 8) × ((parse_cmask s).inv < 2)
unfolding parse_cmask
parse_cmask-small s =
    elim (Bool-cases (at s 0 == greater && at s 1 == equals && is_digit (at s 2))) [
      | inl above ↦ rw above (ground (arith, threshold-small 0 (drop 2 s)))
      | inr other ↦ elim (Bool-cases (at s 0 == less && is_digit (at s 1))) [
        | inl below ↦ rw (other, below) (ground (arith, threshold-small 1 (drop 1 s)))
        | inr rest ↦ rw (other, rest) (omega arith, omega arith)
      ]
    ]

-- Every flag of the mode is a bit.
record AreBits (m : Modes) : Type 0 where
  anythread_lt : m.anythread < 2
  user_lt : m.user < 2
  os_lt : m.os < 2

mode_letter-AreBits :
    (m : Modes) (c : ℕ) {n : Modes} → AreBits m → mode_letter m c ≡ some n → AreBits n
mode_letter-AreBits m c h e =
    let b0 = h.anythread_lt in
    let b1 = h.user_lt in
    let b2 = h.os_lt in
    record { anythread_lt = ground arith; user_lt = ground arith; os_lt = ground arith }

modes_loop-AreBits : (s : Bytes) (m : Modes) → AreBits m → AreBits (modes_loop m s)
unfolding modes_loop
modes_loop-AreBits [] m h = h
modes_loop-AreBits (c ∷ s) m h = elim (Option-cases (mode_letter m c)) [
  | inl end ↦ rw (modes_loop, end) h
  | inr (n, next) ↦ rw (modes_loop, next) (modes_loop-AreBits s n (mode_letter-AreBits m c h next))
]

parse_modes-AreBits : (s : Bytes) → AreBits (parse_modes s)
unfolding parse_modes
parse_modes-AreBits s = elim (Bool-cases (at s 0 == colon)) [
  | inl given ↦ rw given (
      modes_loop-AreBits (drop 1 s) _
        (record { anythread_lt = omega arith; user_lt = omega arith; os_lt = omega arith }))
  | inr absent ↦
      rw absent (record { anythread_lt = omega arith; user_lt = omega arith; os_lt = omega arith })
]

-- A word of IA32_PERFEVTSELx made of fields in their ranges.
pub record IsEventWord (w : ℕ) : Type 0 where
  pub evt_num : ℕ
  pub umask_val : ℕ
  pub threshold : Threshold
  pub edge : ℕ
  pub modes : Modes
  pub in_range : InRange evt_num umask_val threshold edge modes
  pub is_sum : w ≡ word_sum evt_num umask_val threshold edge modes

ParsesTo : ℕ → Type 0
ParsesTo w = (w ≡ 0) ⊎ IsEventWord w

parse_tail-IsEventWord :
    (edge evt : ℕ) (p : ℕ × Bytes)
    → edge < 2
    → evt < 2 ^ 8
    → p.0 < 2 ^ 8
    → IsEventWord (parse_tail edge evt p)
unfolding parse_tail
parse_tail-IsEventWord edge evt p he hv hu =
    let t = parse_cmask (p.1) in
    let m = parse_modes (t.rest) in
    let bits = parse_modes-AreBits (t.rest) in
    let fits : InRange evt (p.0) t edge m = record {
      evt_lt = hv;
      umask_lt = hu;
      cmask_lt = (parse_cmask-small (p.1)).0;
      inv_lt = (parse_cmask-small (p.1)).1;
      edge_lt = he;
      anythread_lt = bits.anythread_lt;
      user_lt = bits.user_lt;
      os_lt = bits.os_lt;
    } in
    record {
      evt_num = evt;
      umask_val = p.0;
      threshold = t;
      edge = edge;
      modes = m;
      in_range = fits;
      is_sum = event_word_lem fits;
    }

parse_from-ParsesTo : (edge : ℕ) (s : Bytes) → edge < 2 → ParsesTo (parse_from edge s)
unfolding parse_from parse_masked ParsesTo
parse_from-ParsesTo edge s he = elim (Option-cases (parse_event s)) [
  | inl unknown ↦ rw (parse_from, unknown) (inl refl)
  | inr (c, known) ↦ elim (Option-cases (parse_umask (drop (c.umasks) umask_list) (c.rest))) [
    | inl unknown ↦ rw (parse_from, known, parse_masked, unknown) (inl refl)
    | inr (p, masked) ↦
        rw (parse_from, known, parse_masked, masked)
          (inr (
            parse_tail-IsEventWord edge (c.evt_num) p he (parse_event-small s known)
              (parse_umask-small (c.umasks) (c.rest) masked)))
  ]
]

-- For every string, the event parser answers 0 or a word made of an event number, a unit mask and
-- a threshold of one byte each and of single-bit flags, with bit 22 set and nothing in bits 19 and
-- 20 or above bit 31.
pub parse_cfg-IsEventWord : (s : Bytes) → (parse_cfg s ≡ 0) ⊎ IsEventWord (parse_cfg s)
unfolding parse_cfg ParsesTo
parse_cfg-IsEventWord s = elim (Bool-cases (at s 0 == 0)) [
  | inl empty ↦ rw empty (inl refl)
  | inr some_byte ↦ elim (Bool-cases (at s 0 == star)) [
    | inl starred ↦ rw (some_byte, starred) (parse_from-ParsesTo 1 (drop 1 s) (omega arith))
    | inr plain ↦ rw (some_byte, plain) (parse_from-ParsesTo 0 s (omega arith))
  ]
]
