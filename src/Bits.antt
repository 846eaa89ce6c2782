-- ===== src/Bits.antt =====
-- Words as sequences of bits: the operators of C on unsigned words, and their laws one bit at a time.
pub mod Logic
pub mod Shift
pub mod Fields
use Prim.Native.Nat.{bit_or, bit_and}
use perf_hound.Prelude.{ℕ, zero, suc, ◌+◌, ◌-◌, ◌*◌, ◌/◌, ◌%◌, ◌^◌}

-- Bit `i` of a number, lowest first.
unfoldable pub bit : ℕ → ℕ → ℕ
bit zero v = v % 2
bit (suc i) v = bit i (v / 2)

abbrev pub u32 : ℕ → ℕ
u32 n = n % 2 ^ 32

abbrev pub u64 : ℕ → ℕ
u64 n = n % 2 ^ 64

-- `a | b`, `a & b` and `~a` on 64 bits.
infixl 67 ◌|||◌
infixl 68 ◌&&&◌
abbrev pub ◌|||◌ : ℕ → ℕ → ℕ
a ||| b = bit_or a b

abbrev pub ◌&&&◌ : ℕ → ℕ → ℕ
a &&& b = bit_and a b

unfoldable pub not64 : ℕ → ℕ
not64 a = 2 ^ 64 - 1 - a

-- `a << k` on 64 bits and `a >> k`.
infixl 75 ◌<<<◌ ◌>>>◌
abbrev pub ◌<<<◌ : ℕ → ℕ → ℕ
a <<< k = u64 (a * 2 ^ k)

abbrev pub ◌>>>◌ : ℕ → ℕ → ℕ
a >>> k = a / 2 ^ k
