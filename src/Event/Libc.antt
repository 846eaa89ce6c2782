-- ===== src/Event/Libc.antt =====
-- The functions of the C library that the event parser calls, on a string of bytes.
use perf_hound.Prelude.{
  ℕ, ◌+◌, ◌-◌, ◌*◌, ◌%◌, ◌^◌, Bool, true, false, ◌&&◌, ◌||◌, [], ◌∷◌, get_or, drop, Bytes, leb, ltb,
  ◌==◌, if◌then◌else◌,
}

-- `s[i]`, which is the terminating NUL at the end.
abbrev pub at : Bytes → ℕ → ℕ
at s i = get_or s i 0

abbrev pub is_digit : ℕ → Bool
is_digit c = leb 48 c && leb c 57

abbrev pub is_space : ℕ → Bool
is_space c = leb 9 c && leb c 13 || c == 32

abbrev pub to_lower : ℕ → ℕ
to_lower c = if leb 65 c && leb c 90 then c + 32 else c

-- `strncasecmp(s, name, strlen(name)) == 0`.
unfoldable pub starts_with : Bytes → Bytes → Bool
starts_with s [] = true
starts_with [] (x ∷ xs) = false
starts_with (c ∷ s) (x ∷ xs) = (to_lower c == to_lower x) && starts_with s xs

-- The value of a digit or a letter, which is above every base for the other bytes.
abbrev pub digit_value : ℕ → ℕ
digit_value c =
    if is_digit c
    then c - 48
    else (let l = to_lower c in if leb 97 l && leb l 122 then l - 87 else 36)

unfoldable pub skip_space : Bytes → Bytes
skip_space [] = []
skip_space (c ∷ s) = if is_space c then skip_space s else c ∷ s

-- The digits of a base at the front, read behind `acc`, and what follows them.
unfoldable pub digits : ℕ → ℕ → Bytes → ℕ × Bytes
digits base acc [] = (acc, [])
digits base acc (c ∷ s) =
    if ltb (digit_value c) base then digits base (acc * base + digit_value c) s else (acc, c ∷ s)

-- The number in a `unsigned long long`: the largest one when it is too large, else negated by `-`.
abbrev pub saturate : Bool → ℕ → ℕ
saturate minus n =
    if ltb n (2 ^ 64) then (if minus then (2 ^ 64 - n) % 2 ^ 64 else n) else 2 ^ 64 - 1

abbrev pub digits_or : Bytes → Bool → ℕ → Bytes → ℕ × Bytes
digits_or s minus base t =
    if ltb (digit_value (at t 0)) base
    then (let r = digits base 0 t in (saturate minus (r.0), r.1))
    else (0, s)

-- `strtoull(s, &s, 0)`: the value and the new `s`.
unfoldable pub strtoull : Bytes → ℕ × Bytes
strtoull s =
    let t = skip_space s in
    let minus = at t 0 == 45 in
    let u = if minus || at t 0 == 43 then drop 1 t else t in
    let hex = at u 0 == 48 && to_lower (at u 1) == 120 && ltb (digit_value (at u 2)) 16 in
    if hex
    then digits_or s minus 16 (drop 2 u)
    else digits_or s minus (if at u 0 == 48 then 8 else 10) u
