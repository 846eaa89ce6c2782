-- ===== src/Bits/Shift.antt =====
-- Bits of shifts and of words cut to a width; numbers with the same bits.
use native.Mathlib.Nat.{pow-suc, pow-succ', one-le-pow, mul_assoc, div-div-eq-div-mul}
use perf_hound.Prelude.{
  ◌==◌, ℕ, zero, suc, ◌+◌, ◌-◌, ◌*◌, ◌/◌, ◌%◌, ◌^◌, ◌≤◌, ◌<◌, ◌≡◌, refl, sym, ap, ◌∙◌, arith, ltb,
  if◌then◌else◌,
}
use perf_hound.Bits.{bit, u64, ◌<<<◌, ◌>>>◌}
use perf_hound.Bits.Logic.{bit-zero}

half-mod : (x p : ℕ) → 0 < p → x % (2 * p) / 2 ≡ x / 2 % p
half-mod x p h = grind arith

low-mod : (x p : ℕ) → 0 < p → x % (2 * p) % 2 ≡ x % 2
low-mod x p h = grind arith

-- Cutting to `w` bits clears the bits from `w` on.
pub bit-mod : (i w x : ℕ) → bit i (x % 2 ^ w) ≡ (if ltb i w then bit i x else 0)
unfolding bit
bit-mod i zero x = let e : x % 1 ≡ 0 = omega arith in ap (bit i) e ∙ bit-zero i ∙ ground arith
bit-mod zero (suc w) x = ground (arith, low-mod x (2 ^ w), one-le-pow w 2, pow-succ' 2 w)
bit-mod (suc i) (suc w) x = ground (
  arith,
  half-mod x (2 ^ w),
  one-le-pow w 2,
  pow-succ' 2 w,
  bit-mod i w (x / 2),
  ap (bit i) (half-mod x (2 ^ w) (one-le-pow w 2 (omega arith))),
)

pub bit-u64 : (i x : ℕ) → i < 64 → bit i (u64 x) ≡ bit i x
bit-u64 i x h = ground (arith, bit-mod i 64 x)

-- `x * 2 ^ k` moves the bits up by `k`.
pub bit-mul_pow : (i k x : ℕ) → bit i (x * 2 ^ k) ≡ (if ltb i k then 0 else bit (i - k) x)
unfolding bit
bit-mul_pow i zero x =
    let e : x * 1 ≡ x = omega arith in
    let s : i - 0 ≡ i = omega arith in ap (bit i) e ∙ ap (λ j. bit j x) (sym s) ∙ ground arith
bit-mul_pow zero (suc k) x =
    let e : x * 2 ^ suc k ≡ x * 2 ^ k * 2 =
      omega (arith, ap (λ (t : ℕ). x * t) (pow-suc 2 k), mul_assoc x (2 ^ k) 2) in
    rw e (ground arith)
bit-mul_pow (suc i) (suc k) x =
    let e : x * 2 ^ suc k / 2 ≡ x * 2 ^ k =
      omega (arith, ap (λ (t : ℕ). x * t) (pow-suc 2 k), mul_assoc x (2 ^ k) 2) in
    ap (bit i) e ∙ bit-mul_pow i k x ∙ ground arith

pub bit-shl : (i k x : ℕ) → i < 64 → bit i (x <<< k) ≡ (if ltb i k then 0 else bit (i - k) x)
bit-shl i k x h = bit-u64 i (x * 2 ^ k) h ∙ bit-mul_pow i k x

pub bit-shr : (i k x : ℕ) → bit i (x >>> k) ≡ bit (i + k) x
unfolding bit
bit-shr i zero x =
    let e : x / 1 ≡ x = omega arith in
    let s : i ≡ i + 0 = omega arith in ap (bit i) e ∙ ap (λ j. bit j x) s
bit-shr i (suc k) x =
    let e : x / 2 ^ suc k ≡ x / 2 / 2 ^ k =
      ap (λ (t : ℕ). x / t) (pow-succ' 2 k) ∙ sym (div-div-eq-div-mul x 2 (2 ^ k)) in
    let s : suc (i + k) ≡ i + suc k = omega arith in
    ap (bit i) e ∙ bit-shr i k (x / 2) ∙ ap (λ j. bit j x) s

-- Words with the same bits are equal.
pub bits_ext : (w a b : ℕ) → a < 2 ^ w → b < 2 ^ w → ((i : ℕ) → i < w → bit i a ≡ bit i b) → a ≡ b
unfolding bit
bits_ext zero a b ha hb h = omega arith
bits_ext (suc w) a b ha hb h =
    let half : a / 2 ≡ b / 2 =
      bits_ext w (a / 2) (b / 2) (omega (arith, pow-succ' 2 w)) (omega (arith, pow-succ' 2 w))
        (λ i p. h (suc i) (omega arith)) in
    omega (arith, h 0 (omega arith), half)

ext_fuel : (n a b : ℕ) → a ≤ n → b ≤ n → ((i : ℕ) → bit i a ≡ bit i b) → a ≡ b
unfolding bit
ext_fuel zero a b ha hb h = omega arith
ext_fuel (suc n) a b ha hb h =
    let half : a / 2 ≡ b / 2 =
      ext_fuel n (a / 2) (b / 2) (omega arith) (omega arith) (λ i. h (suc i)) in
    omega (arith, h 0, half)

-- Numbers with the same bits are equal.
pub bits_ext_all : (a b : ℕ) → ((i : ℕ) → bit i a ≡ bit i b) → a ≡ b
bits_ext_all a b h = ext_fuel (a + b) a b (omega arith) (omega arith) h

-- A number below `2 ^ w` is one with no bit from `w` on.
pub bit_above : (i w a : ℕ) → a < 2 ^ w → w ≤ i → bit i a ≡ 0
unfolding bit
bit_above i zero a h le = let e : a ≡ 0 = omega arith in ap (bit i) e ∙ bit-zero i
bit_above zero (suc w) a h le = absurd (omega arith)
bit_above (suc i) (suc w) a h le =
    bit_above i w (a / 2) (omega (arith, pow-succ' 2 w)) (omega arith)

pub lt_of_bits : (w a : ℕ) → ((i : ℕ) → w ≤ i → bit i a ≡ 0) → a < 2 ^ w
unfolding bit
lt_of_bits zero a h = omega (arith, bits_ext_all a 0 (λ i. h i (omega arith) ∙ sym (bit-zero i)))
lt_of_bits (suc w) a h =
    omega (arith, pow-succ' 2 w, lt_of_bits w (a / 2) (λ i le. h (suc i) (omega arith)))

pub bit-one : (i : ℕ) → bit i 1 ≡ (if i == 0 then 1 else 0)
unfolding bit
bit-one zero = refl
bit-one (suc i) = bit-zero i ∙ ground arith
