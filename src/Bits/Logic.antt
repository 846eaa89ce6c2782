-- ===== src/Bits/Logic.antt =====
-- Bits of `&`, `|` and `~`.
use Prim.Native.Nat.{digits, bit_and-bitwise, bit_or-bitwise}
use native.Mathlib.Nat.{pow-succ'}
use perf_hound.Prelude.{
  ℕ, zero, suc, ◌+◌, ◌-◌, ◌*◌, ◌/◌, ◌%◌, ◌^◌, ◌≤◌, ◌<◌, min, max, ◌≡◌, refl, ap, ◌∙◌, arith,
}
use perf_hound.Bits.{bit, ◌|||◌, ◌&&&◌, not64}

pub bit-le-one : (i v : ℕ) → bit i v ≤ 1
unfolding bit
bit-le-one zero v = omega arith
bit-le-one (suc i) v = bit-le-one i (v / 2)

pub bit-zero : (i : ℕ) → bit i 0 ≡ 0
unfolding bit
bit-zero zero = refl
bit-zero (suc i) = bit-zero i

-- Bits of a number that is given by its lowest digit and the rest.
bit_lowest : (q r : ℕ) → r ≤ 1 → bit 0 (q * 2 + r) ≡ r
unfolding bit
bit_lowest q r h = omega arith

bit_higher : (i q r : ℕ) → r ≤ 1 → bit (suc i) (q * 2 + r) ≡ bit i q
unfolding bit
bit_higher i q r h = let e : (q * 2 + r) / 2 ≡ q = omega arith in rw e

-- The recursion on digits of the native operations, read at one digit.
module _ (z : ℕ → ℕ) (f : ℕ → ℕ → ℕ) (rest : (i b : ℕ) → bit i (z b) ≡ f 0 (bit i b))
    (small : (x y : ℕ) → x ≤ 1 → y ≤ 1 → f x y ≤ 1) where
  bit-digits : (i n a b : ℕ) → a ≤ n → bit i (digits z f n a b) ≡ f (bit i a) (bit i b)
  bit-digits i zero zero b h = rw (bit-zero i) (rest i b)
  bit-digits i zero (suc a) b h = absurd (omega arith)
  bit-digits i (suc n) zero b h = rw (bit-zero i) (rest i b)
  bit-digits zero (suc n) (suc a) b h =
      bit_lowest _ _ (small (suc a % 2) (b % 2) (omega arith) (omega arith)) ∙ (unfold bit in refl)
  bit-digits (suc i) (suc n) (suc a) b h =
      bit_higher i _ _ (small (suc a % 2) (b % 2) (omega arith) (omega arith))
      ∙ bit-digits i n (suc a / 2) (b / 2) (omega arith)
      ∙ (unfold bit in refl)

pub bit-and : (i a b : ℕ) → bit i (a &&& b) ≡ min (bit i a) (bit i b)
bit-and i a b =
    ap (bit i) (bit_and-bitwise a b)
    ∙ bit-digits (λ c. 0) min (λ j c. rw (bit-zero j) (omega arith)) (λ x y p q. omega arith) i a a
        b (omega arith)

pub bit-or : (i a b : ℕ) → bit i (a ||| b) ≡ max (bit i a) (bit i b)
bit-or i a b =
    ap (bit i) (bit_or-bitwise a b)
    ∙ bit-digits (λ c. c) max (λ j c. omega arith) (λ x y p q. omega arith) i a a b (omega arith)

-- `2 ^ w - 1 - v` flips each of `w` bits.
bit_flip : (w i v : ℕ) → i < w → v < 2 ^ w → bit i (2 ^ w - 1 - v) ≡ 1 - bit i v
unfolding bit
bit_flip zero i v h k = absurd (omega arith)
bit_flip (suc w) zero v h k = omega (arith, pow-succ' 2 w)
bit_flip (suc w) (suc i) v h k =
    let half : (2 ^ suc w - 1 - v) / 2 ≡ 2 ^ w - 1 - v / 2 = omega (arith, pow-succ' 2 w) in
    ap (bit i) half ∙ bit_flip w i (v / 2) (omega arith) (omega (arith, pow-succ' 2 w))

pub bit-not64 : (i v : ℕ) → i < 64 → v < 2 ^ 64 → bit i (not64 v) ≡ 1 - bit i v
unfolding not64
bit-not64 i v h k = bit_flip 64 i v h k
