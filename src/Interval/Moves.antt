-- ===== src/Interval/Moves.antt =====
-- How far the calls of `calc_interval` move in the text: each ends, and ahead of where it began.
use perf_hound.Prelude.{
  ℕ, zero, suc, ◌+◌, ◌*◌, ◌≤◌, ◌<◌, arith, Bool, ◌||◌, List, [], ◌∷◌, Bytes, length, drop,
  length-drop, ltb, ◌==◌, if◌then◌else◌, Bool-cases, inl, inr, get_elem?, Option, none, some,
}
use perf_hound.Prelude.Run.{access, Ends, Ends-bind, Ends-mono}
use perf_hound.Event.Libc.{at, skip_space, digits, digit_value, saturate}
use perf_hound.Probe.Row.{newline, ev_fields}
use perf_hound.Interval.Scan.{ahead, step_to, signed, to_int, next_int, next_word, clip_long}
use perf_hound.Interval.Lines.{minus64, store, read_evs, subtract_evs, next_point, skip_line}

length-skip_space : (s : Bytes) → length (skip_space s) ≤ length s
unfolding skip_space
length-skip_space [] = omega arith
length-skip_space (c ∷ s) = ground (arith, length-skip_space s)

length-digits : (base acc : ℕ) (s : Bytes) → length ((digits base acc s).1) ≤ length s
unfolding digits
length-digits base acc [] = omega arith
length-digits base acc (c ∷ s) = ground (arith, length-digits base (acc * base + digit_value c) s)

length-signed : (clip : Bool → ℕ → ℕ) (s : Bytes) → length ((signed clip s).1) ≤ length s
unfolding signed
length-signed clip s =
    let t = skip_space s in
    let u = if at t 0 == 45 || at t 0 == 43 then drop 1 t else t in
    let shorter : length u ≤ length t = ground (arith, length-drop 1 t) in
    ground (arith, shorter, length-digits 10 0 u, length-skip_space s)

pub length-step_to : (s : Bytes) (ch : ℕ) → length (step_to s ch) ≤ length s
unfolding step_to
length-step_to [] ch = omega arith
length-step_to (c ∷ s) ch = ground (arith, length-step_to s ch)

-- Moving ahead within the text.
pub ahead-Ends : (n : ℕ) (s : Bytes) → Ends (λ t. length t + n ≤ length s) (ahead n s)
unfolding ahead
ahead-Ends zero s = omega arith
ahead-Ends (suc n) [] = tt
ahead-Ends (suc n) (c ∷ s) =
    Ends-mono (λ t. length t + n ≤ length s) (λ t. length t + suc n ≤ length (c ∷ s)) (ahead n s)
      (ahead-Ends n s) (λ t shorter. omega arith)

-- What is left behind a call is shorter than before.
abbrev pub Shorter : {A : Type 0} → Bytes → A × Bytes → Type 0
Shorter s r = length (r.1) < length s

module _ (s : Bytes) where
  pub next_int-Ends : Ends (Shorter s) (next_int s)
  unfolding next_int to_int
  next_int-Ends =
      Ends-bind _ (Shorter s) (ahead 1 s) _ (ahead-Ends 1 s)
        (λ t shorter. omega (arith, length-signed clip_long t))

  pub next_word-Ends : Ends (Shorter s) (next_word s)
  unfolding next_word
  next_word-Ends =
      Ends-bind _ (Shorter s) (ahead 1 s) _ (ahead-Ends 1 s)
        (λ t shorter. omega (arith, length-signed saturate t))

  pub skip_line-Ends : (nev : ℕ) → Ends (λ t. length t < length s) (skip_line nev s)
  unfolding skip_line
  skip_line-Ends nev =
      Ends-bind _ (λ t. length t < length s) (ahead (5 + 2 * nev) s) _ (ahead-Ends (5 + 2 * nev) s)
        (λ t shorter. omega (arith, length-step_to t newline))

pub next_point-Ends : (s : Bytes) → Ends (λ p. length (p.2) < length s) (next_point s)
unfolding next_point
next_point-Ends s = Ends-bind (Shorter s) _ (next_int s) _ (next_int-Ends s) (λ g below.
    Ends-bind (Shorter (g.1)) _ (next_int (g.1)) _ (next_int-Ends (g.1)) (λ p further. omega arith))

pub store-Ends : (j v : ℕ) (evs : List ℕ) → Ends (λ _. Unit) (store j v evs)
unfolding store
store-Ends j v evs = elim (Bool-cases (ltb j (length evs))) [ inl e ↦ rw e tt | inr e ↦ rw e tt ]

pub access-Ends : {A : Type 0} (o : Option A) → Ends (λ _. Unit) (access o)
access-Ends none = tt
access-Ends (some a) = tt

-- Not longer.
abbrev pub Behind : {A : Type 0} → Bytes → A × Bytes → Type 0
Behind s r = length (r.1) ≤ length s

pub read_evs-Ends : (n j : ℕ) (evs : List ℕ) (s : Bytes) → Ends (Behind s) (read_evs n j evs s)
unfolding read_evs
read_evs-Ends zero j evs s = omega arith
read_evs-Ends (suc n) j evs s =
    Ends-bind (Shorter s) (Behind s) (next_word s) _ (next_word-Ends s) (λ r below.
      Ends-bind _ (Behind s) (store j (r.0) evs) _ (store-Ends j (r.0) evs) (λ kept done_so.
        Ends-mono (Behind (r.1)) (Behind s) _ (read_evs-Ends n (j + 1) kept (r.1))
          (λ q further. omega arith)))

pub subtract_evs-Ends :
    (n j : ℕ) (evs : List ℕ) (s : Bytes) → Ends (Behind s) (subtract_evs n j evs s)
unfolding subtract_evs
subtract_evs-Ends zero j evs s = omega arith
subtract_evs-Ends (suc n) j evs s =
    Ends-bind (Shorter s) (Behind s) (next_word s) _ (next_word-Ends s) (λ r below.
      Ends-bind _ (Behind s) (access (get_elem? evs j)) _ (access-Ends (get_elem? evs j))
        (λ old found.
          Ends-bind _ (Behind s) (store j (minus64 (r.0) old) evs) _
            (store-Ends j (minus64 (r.0) old) evs)
            (λ kept done_so.
              Ends-mono (Behind (r.1)) (Behind s) _ (subtract_evs-Ends n (j + 1) kept (r.1))
                (λ q further. omega arith))))

pub ev_fields-Ends : (n j : ℕ) (evs : List ℕ) → Ends (λ _. Unit) (ev_fields n j evs)
unfolding ev_fields
ev_fields-Ends zero j evs = tt
ev_fields-Ends (suc n) j evs =
    Ends-bind _ (λ _. Unit) (access (get_elem? evs j)) _ (access-Ends (get_elem? evs j))
      (λ v found.
        Ends-bind _ (λ _. Unit) (ev_fields n (j + 1) evs) _ (ev_fields-Ends n (j + 1) evs)
          (λ rest done_so. tt))
