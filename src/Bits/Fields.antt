-- ===== src/Bits/Fields.antt =====
-- `|` of disjoint fields and `&` with a mask of low ones, as arithmetic.
use native.Mathlib.Nat.{pow-suc, pow-succ', one-le-pow, mul_assoc}
use perf_hound.Prelude.{
  ℕ, zero, suc, ◌+◌, ◌-◌, ◌*◌, ◌/◌, ◌%◌, ◌^◌, ◌<◌, ◌≡◌, refl, ap, ◌∙◌, arith, ltb, if◌then◌else◌,
}
use perf_hound.Bits.{bit, ◌|||◌, ◌&&&◌}
use perf_hound.Bits.Logic.{bit-zero, bit-le-one, bit-and, bit-or}
use perf_hound.Bits.Shift.{bit-mod, bit-mul_pow, bits_ext_all, bit_above, lt_of_bits}

-- A sum of a multiple of `2 ^ k` and a field of `k` bits, bit by bit.
bit-sum :
    (i k q r : ℕ) → r < 2 ^ k → bit i (q * 2 ^ k + r) ≡ (if ltb i k then bit i r else bit (i - k) q)
unfolding bit
bit-sum i zero q r h =
    let e : q * 1 + r ≡ q = omega arith in
    let s : q ≡ q = refl in
    let t : i ≡ i - 0 = omega arith in ap (bit i) e ∙ ap (λ j. bit j q) t ∙ ground arith
bit-sum zero (suc k) q r h =
    let e : q * 2 ^ suc k ≡ q * 2 ^ k * 2 =
      omega (arith, ap (λ (t : ℕ). q * t) (pow-suc 2 k), mul_assoc q (2 ^ k) 2) in
    rw e (ground arith)
bit-sum (suc i) (suc k) q r h =
    let e : q * 2 ^ suc k ≡ q * 2 ^ k * 2 =
      omega (arith, ap (λ (t : ℕ). q * t) (pow-suc 2 k), mul_assoc q (2 ^ k) 2) in
    let half : (q * 2 ^ suc k + r) / 2 ≡ q * 2 ^ k + r / 2 = omega arith in
    ap (bit i) half ∙ bit-sum i k q (r / 2) (omega (arith, pow-succ' 2 k)) ∙ ground arith

-- `(q << k) | r` is a sum when `r` has `k` bits.
pub or-fields : (k q r : ℕ) → r < 2 ^ k → (q * 2 ^ k) ||| r ≡ q * 2 ^ k + r
or-fields k q r h = bits_ext_all _ _ λ i.
    ground (arith, bit-or i (q * 2 ^ k) r, bit-mul_pow i k q, bit-sum i k q r h, bit_above i k r h)

-- The word of `k` low ones.
pub bit-ones : (i k : ℕ) → bit i (2 ^ k - 1) ≡ (if ltb i k then 1 else 0)
unfolding bit
bit-ones i zero = rw (bit-zero i) (ground arith)
bit-ones zero (suc k) = ground (arith, pow-succ' 2 k, one-le-pow k 2)
bit-ones (suc i) (suc k) =
    let half : (2 ^ suc k - 1) / 2 ≡ 2 ^ k - 1 = omega (arith, pow-succ' 2 k) in
    ap (bit i) half ∙ bit-ones i k ∙ ground arith

-- Masking with `k` low ones is the remainder by `2 ^ k`.
pub and-mask : (k a : ℕ) → a &&& (2 ^ k - 1) ≡ a % 2 ^ k
and-mask k a =
    bits_ext_all _ _
      λ i. ground (arith, bit-and i a (2 ^ k - 1), bit-mod i k a, bit-ones i k, bit-le-one i a)

pub or-lt : (w a b : ℕ) → a < 2 ^ w → b < 2 ^ w → a ||| b < 2 ^ w
or-lt w a b ha hb =
    lt_of_bits w _ λ i le. omega (arith, bit-or i a b, bit_above i w a ha le, bit_above i w b hb le)

pub and-lt : (w a b : ℕ) → b < 2 ^ w → a &&& b < 2 ^ w
and-lt w a b hb = lt_of_bits w _ λ i le. omega (arith, bit-and i a b, bit_above i w b hb le)
