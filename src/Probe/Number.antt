-- ===== src/Probe/Number.antt =====
-- `%u`, `%llu` and `%llx`: numbers as text.
use native.Mathlib.Nat.{pow-zero, pow-suc, div-add-mod', div-lt_iff_lt-mul, mod-lt, mod-eq_of_lt}
use perf_hound.Prelude.{
  ℕ, zero, suc, ◌+◌, ◌*◌, ◌/◌, ◌%◌, ◌^◌, ◌<◌, ◌≤◌, ◌≡◌, refl, subst, ap, ◌∙◌, arith, [], ◌∷◌, ◌++◌,
  Bytes, ltb, if◌then◌else◌, Bool-cases, ltb→lt, lt→ltb, inl, inr, false, All, length,
}
use perf_hound.Event.Libc.{digits, digit_value, at}

-- The character of a digit, in lower case.
abbrev pub digit_char : ℕ → ℕ
digit_char d = if ltb d 10 then 48 + d else 87 + d

-- The digits of `n` in front of `acc`, with the number of digits that there is room for.
unfoldable pub print_digits : ℕ → ℕ → ℕ → Bytes → Bytes
print_digits base zero n acc = acc
print_digits base (suc f) n acc =
    let c = digit_char (n % base) in
    let rest = print_digits base f (n / base) (c ∷ acc) in if ltb n base then c ∷ acc else rest

-- Twenty decimal digits and sixteen hexadecimal ones hold a word of 64 bits.
unfoldable pub decimal : ℕ → Bytes
decimal n = print_digits 10 20 n []

unfoldable pub hexadecimal : ℕ → Bytes
hexadecimal n = print_digits 16 16 n []

value_of_char : (d : ℕ) → d < 16 → digit_value (digit_char d) ≡ d
value_of_char d h = ground arith

one_digit :
    (base v d : ℕ) (rest : Bytes)
    → d < base
    → base ≤ 16
    → digits base v (digit_char d ∷ rest) ≡ digits base (v * base + d) rest
unfolding digits
one_digit base v d rest h hi =
    let e : digit_value (digit_char d) ≡ d = value_of_char d (omega arith) in
    rw (e, lt→ltb d base h) refl

-- Reading the digits back, in a base up to 16.
digits-print_digits :
    (base f n : ℕ) (rest : Bytes)
    → 2 ≤ base
    → base ≤ 16
    → n < base ^ f
    → digits base 0 (print_digits base f n rest) ≡ digits base n rest
unfolding print_digits
digits-print_digits base zero n rest lo hi h =
    ap (λ (k : ℕ). digits base k rest) {x = 0} {y = n} (omega (arith, pow-zero base))
digits-print_digits base (suc f) n rest lo hi h = elim (Bool-cases (ltb n base)) [
  | inl small ↦
      let e : n % base ≡ n = mod-eq_of_lt (ltb→lt n base small) in
      rw (small, e)
        (one_digit base 0 n rest (ltb→lt n base small) hi
          ∙ ap (λ (k : ℕ). digits base k rest) {x = 0 * base + n} {y = n} (omega arith))
  | inr large ↦
      let some_base : 0 < base = omega arith in
      let q : n / base < base ^ f =
        (div-lt_iff_lt-mul some_base).1 (subst (λ (k : ℕ). n < k) (pow-suc base f) h) in
      let r : n % base < base = mod-lt n some_base in
      let whole : n / base * base + n % base ≡ n = div-add-mod' n base in
      rw large (
        digits-print_digits base f (n / base) (digit_char (n % base) ∷ rest) lo hi q
        ∙ one_digit base (n / base) (n % base) rest r hi
        ∙ ap (λ (k : ℕ). digits base k rest) whole)
]

print_digits-append :
    (base f n : ℕ) (acc rest : Bytes)
    → print_digits base f n acc ++ rest ≡ print_digits base f n (acc ++ rest)
unfolding print_digits
print_digits-append base zero n acc rest = refl
print_digits-append base (suc f) n acc rest = elim (Bool-cases (ltb n base)) [
  | inl small ↦ rw small refl
  | inr large ↦ rw large (print_digits-append base f (n / base) (digit_char (n % base) ∷ acc) rest)
]

-- No digit is at the front.
abbrev pub IsStop : Bytes → Type 0
IsStop s = ltb (digit_value (at s 0)) 10 ≡ false

digits-IsStop : (n : ℕ) (s : Bytes) → IsStop s → digits 10 n s ≡ (n, s)
unfolding digits
digits-IsStop n [] h = refl
digits-IsStop n (c ∷ s) h = rw h refl

-- Reading back what was printed.
pub digits-decimal_stop :
    (n : ℕ) (rest : Bytes) → n < 2 ^ 64 → IsStop rest → digits 10 0 (decimal n ++ rest) ≡ (n, rest)
unfolding decimal
digits-decimal_stop n rest h stop =
    ap (digits 10 0) (print_digits-append 10 20 n [] rest)
    ∙ digits-print_digits 10 20 n rest (omega arith) (omega arith) (omega arith)
    ∙ digits-IsStop n rest stop

pub digits-decimal :
    (n : ℕ) (rest : Bytes) → n < 2 ^ 64 → digits 10 0 (decimal n ++ 44 ∷ rest) ≡ (n, 44 ∷ rest)
digits-decimal n rest h = digits-decimal_stop n (44 ∷ rest) h refl

abbrev pub IsDigit : ℕ → Type 0
IsDigit c = (48 ≤ c) × (c ≤ 57)

print_digits-IsDigit :
    (f n : ℕ) (acc : Bytes) → All IsDigit acc → All IsDigit (print_digits 10 f n acc)
unfolding print_digits
print_digits-IsDigit zero n acc h = h
print_digits-IsDigit (suc f) n acc h =
    let low : n % 10 < 10 = omega arith in
    let c : IsDigit (digit_char (n % 10)) = ground (arith, low) in
    elim (Bool-cases (ltb n 10)) [
      | inl small ↦ rw small (c, h)
      | inr large ↦ rw large (print_digits-IsDigit f (n / 10) (digit_char (n % 10) ∷ acc) (c, h))
    ]

pub decimal-IsDigit : (n : ℕ) → All IsDigit (decimal n)
unfolding decimal
decimal-IsDigit n = print_digits-IsDigit 20 n [] tt

print_digits-length : (f n : ℕ) (acc : Bytes) → length acc ≤ length (print_digits 10 f n acc)
unfolding print_digits
print_digits-length zero n acc = omega arith
print_digits-length (suc f) n acc = elim (Bool-cases (ltb n 10)) [
  | inl small ↦ rw small (omega arith)
  | inr large ↦ rw large (omega (arith, print_digits-length f (n / 10) (digit_char (n % 10) ∷ acc)))
]

pub length-decimal_pos : (n : ℕ) → 1 ≤ length (decimal n)
unfolding decimal print_digits
length-decimal_pos n = elim (Bool-cases (ltb n 10)) [
  | inl small ↦ rw small (omega arith)
  | inr large ↦ rw large (print_digits-length 19 (n / 10) (digit_char (n % 10) ∷ []))
]
