-- ===== src/Kmod/Vectors.antt =====
-- `OV`, `ZV`, `BV` and `CV` of src/kmod/x86/enable_pmu_x86.c. C leaves a shift by 64 or more
-- undefined; the module shifts by less.
use native.Mathlib.Nat.{pow-le-pow_right}
use perf_hound.Prelude.{
  ℕ, ◌+◌, ◌-◌, ◌^◌, ◌≤◌, ◌<◌, ◌≡◌, ◌∙◌, ◌&&◌, arith, ltb, leb, if◌then◌else◌, ap, Bool-cases, inl,
  inr, false,
}
use perf_hound.Bits.{bit, not64, ◌<<<◌, ◌&&&◌}
use perf_hound.Bits.Logic.{bit-and, bit-not64, bit-le-one}
use perf_hound.Bits.Shift.{bit-shl}
use perf_hound.Bits.Fields.{bit-ones}

-- `n` ones from bit `k` on.
unfoldable pub ov : ℕ → ℕ → ℕ
ov n k = let v = if leb 64 n then 2 ^ 64 - 1 else (1 <<< n) - 1 in v <<< k

-- Ones but for `n` zeros from bit `k` on.
unfoldable pub zv : ℕ → ℕ → ℕ
zv n k = not64 (ov n k)

-- The low `n` bits of `v`, moved to bit `k`.
unfoldable pub bv : ℕ → ℕ → ℕ → ℕ
bv v n k = (v &&& ov n 0) <<< k

-- `v` with `n` bits from bit `k` on cleared.
unfoldable pub cv : ℕ → ℕ → ℕ → ℕ
cv v n k = v &&& zv n k

one-shl : (n : ℕ) → leb 64 n ≡ false → 1 <<< n ≡ 2 ^ n
one-shl n h =
    let narrow : n ≤ 63 = ground arith in
    let below : 2 ^ n ≤ 2 ^ 63 = pow-le-pow_right (omega arith) narrow in omega arith

ones_word :
    (n i : ℕ)
    → i < 64
    → bit i (if leb 64 n then 2 ^ 64 - 1 else (1 <<< n) - 1) ≡ (if ltb i n then 1 else 0)
ones_word n i h = elim (Bool-cases (leb 64 n)) [
  | inl wide ↦ rw wide (ground (arith, bit-ones i 64))
  | inr narrow ↦ rw narrow (ap (λ (t : ℕ). bit i (t - 1)) (one-shl n narrow) ∙ bit-ones i n)
]

pub bit-ov : (n k i : ℕ) → i < 64 → bit i (ov n k) ≡ (if leb k i && ltb i (n + k) then 1 else 0)
unfolding ov
bit-ov n k i h =
    bit-shl i k (if leb 64 n then 2 ^ 64 - 1 else (1 <<< n) - 1) h
    ∙ ground (arith, ones_word n (i - k))

pub ov-lt : (n k : ℕ) → ov n k < 2 ^ 64
unfolding ov
ov-lt n k = omega arith

pub bit-zv : (n k i : ℕ) → i < 64 → bit i (zv n k) ≡ (if leb k i && ltb i (n + k) then 0 else 1)
unfolding zv
bit-zv n k i h = ground (arith, bit-not64 i (ov n k) h (ov-lt n k), bit-ov n k i h)

pub bit-bv :
    (v n k i : ℕ)
    → i < 64
    → bit i (bv v n k) ≡ (if leb k i && ltb i (n + k) then bit (i - k) v else 0)
unfolding bv
bit-bv v n k i h =
    bit-shl i k (v &&& ov n 0) h
    ∙ ground (arith, bit-and (i - k) v (ov n 0), bit-ov n 0 (i - k), bit-le-one (i - k) v)

pub bit-cv :
    (v n k i : ℕ) → i < 64 → bit i (cv v n k) ≡ (if leb k i && ltb i (n + k) then 0 else bit i v)
unfolding cv
bit-cv v n k i h = ground (arith, bit-and i v (zv n k), bit-zv n k i h, bit-le-one i v)
