-- ===== src/Interval/Scan.antt =====
-- How the tool moves through the text of a file: a pointer is the text from it to the NUL.
use perf_hound.Prelude.{
  ℕ, zero, suc, ◌-◌, ◌%◌, ◌^◌, ◌≤◌, ◌<◌, ◌≡◌, refl, ap, arith, Bool, false, ◌||◌, [], ◌∷◌, ◌++◌,
  Bytes, ltb, leb, ◌==◌, if◌then◌else◌, drop, length, All, ◌≢◌, lt→ltb,
}
use perf_hound.Prelude.Run.{Run, done, fault, ◌>>=◌}
use perf_hound.Bits.{u32}
use perf_hound.Event.Libc.{at, skip_space, digits, digit_value, saturate}
use perf_hound.Probe.Number.{
  decimal, IsStop, IsDigit, digits-decimal_stop, decimal-IsDigit, length-decimal_pos,
}

-- `p + n`, which is read next: behind the NUL that is out of the buffer.
unfoldable pub ahead : ℕ → Bytes → Run Bytes
ahead zero s = done s
ahead (suc n) [] = fault
ahead (suc n) (c ∷ s) = ahead n s

-- `step_to`: the first `ch`, or the NUL.
unfoldable pub step_to : Bytes → ℕ → Bytes
step_to [] ch = []
step_to (c ∷ s) ch = let rest = step_to s ch in if c == ch then c ∷ s else rest

-- A number in base 10 with a sign, and what follows it; the text itself if there is no number.
unfoldable pub signed : (Bool → ℕ → ℕ) → Bytes → ℕ × Bytes
signed clip s =
    let t = skip_space s in
    let minus = at t 0 == 45 in
    let u = if minus || at t 0 == 43 then drop 1 t else t in
    if ltb (digit_value (at u 0)) 10
    then (let r = digits 10 0 u in (clip minus (r.0), r.1))
    else (0, s)

-- A `long` as a word of 64 bits: the largest or the smallest one when the number is out of range.
abbrev pub clip_long : Bool → ℕ → ℕ
clip_long minus n =
    if minus
    then (if leb n (2 ^ 63) then (2 ^ 64 - n) % 2 ^ 64 else 2 ^ 63)
    else (if ltb n (2 ^ 63) then n else 2 ^ 63 - 1)

-- `(int)strtol(s, &s, 10)` as a word of 32 bits.
unfoldable pub to_int : Bytes → ℕ × Bytes
to_int s = let r = signed clip_long s in (u32 (r.0), r.1)

-- `gid = strtol(pst+1, &pst, 10)`.
unfoldable pub next_int : Bytes → Run (ℕ × Bytes)
next_int s = do t ← ahead 1 s; done (to_int t)

-- `cy = strtoull(pst+1, &pst, 10)`.
unfoldable pub next_word : Bytes → Run (ℕ × Bytes)
next_word s = do t ← ahead 1 s; done (signed saturate t)

signed_digit :
    (clip : Bool → ℕ → ℕ) (c n : ℕ) (s rest : Bytes)
    → IsDigit c
    → digits 10 0 (c ∷ s) ≡ (n, rest)
    → signed clip (c ∷ s) ≡ (clip false n, rest)
unfolding signed skip_space
signed_digit clip c n s rest d e = ground (arith, d.0, d.1, e)

signed_text :
    (clip : Bool → ℕ → ℕ) (t : Bytes) (n : ℕ) (rest : Bytes)
    → 1 ≤ length t
    → All IsDigit t
    → digits 10 0 (t ++ rest) ≡ (n, rest)
    → signed clip (t ++ rest) ≡ (clip false n, rest)
signed_text clip [] n rest some d e = absurd (omega arith)
signed_text clip (c ∷ t) n rest some d e = signed_digit clip c n (t ++ rest) rest d.0 e

signed-decimal :
    (clip : Bool → ℕ → ℕ) (n : ℕ) (rest : Bytes)
    → n < 2 ^ 64
    → IsStop rest
    → signed clip (decimal n ++ rest) ≡ (clip false n, rest)
signed-decimal clip n rest h stop =
    signed_text clip (decimal n) n rest (length-decimal_pos n) (decimal-IsDigit n)
      (digits-decimal_stop n rest h stop)

pub next_word-decimal :
    (c n : ℕ) (rest : Bytes)
    → n < 2 ^ 64
    → IsStop rest
    → next_word (c ∷ (decimal n ++ rest)) ≡ done (n, rest)
unfolding next_word ahead
next_word-decimal c n rest h stop =
    rw (signed-decimal saturate n rest h stop, lt→ltb n (2 ^ 64) h) refl

pub to_int-decimal :
    (n : ℕ) (rest : Bytes) → n < 2 ^ 32 → IsStop rest → to_int (decimal n ++ rest) ≡ (n, rest)
unfolding to_int
to_int-decimal n rest h stop =
    rw (signed-decimal clip_long n rest (omega arith) stop) (ground arith)

pub next_int-decimal :
    (c n : ℕ) (rest : Bytes)
    → n < 2 ^ 32
    → IsStop rest
    → next_int (c ∷ (decimal n ++ rest)) ≡ done (n, rest)
unfolding next_int ahead
next_int-decimal c n rest h stop = ap done (to_int-decimal n rest h stop)

-- Stepping to a byte from within a text that does not have it.
pub step_to-behind :
    (ch : ℕ) (k : ℕ) (body rest : Bytes)
    → k ≤ length body
    → All (λ c. c ≢ ch) body
    → (ahead k (body ++ (ch ∷ rest)) >>= (λ t. done (step_to t ch))) ≡ done (ch ∷ rest)
unfolding step_to ahead
step_to-behind ch zero [] rest h free = ground arith
step_to-behind ch zero (c ∷ body) rest h free =
    ground (arith, free.0, step_to-behind ch zero body rest (omega arith) free.1)
step_to-behind ch (suc k) [] rest h free = absurd (omega arith)
step_to-behind ch (suc k) (c ∷ body) rest h free =
    step_to-behind ch k body rest (omega arith) free.1
