-- ===== src/Event/Kept.antt =====
-- Words of the event parser in the kernel module's event filter.
use perf_hound.Prelude.{
  ℕ, ◌+◌, ◌/◌, ◌%◌, ◌^◌, ◌<◌, ◌≡◌, refl, sym, ap, ◌∙◌, arith, if◌then◌else◌, Bytes, inl, inr,
}
use perf_hound.Bits.{bit, not64, ◌&&&◌, ◌>>>◌}
use perf_hound.Bits.Shift.{bits_ext_all, bit-shr}
use perf_hound.Kmod.Counters.{filter_cfg}
use perf_hound.Kmod.Counters.General.{allowed, bit-and_not, filter_cfg_lem}
use perf_hound.Event.Result.{IsEventWord, parse_cfg-IsEventWord}
use perf_hound.Event.Parse.{parse_cfg}

bit-div : (k w : ℕ) → bit k w ≡ w / 2 ^ k % 2
unfolding bit
bit-div k w = ap (λ (j : ℕ). bit j w) {x = k} {y = 0 + k} (omega arith) ∙ sym (bit-shr 0 k w)

pub word-lt : (w : ℕ) → IsEventWord w → w < 2 ^ 32
word-lt w h =
    let r = h.in_range in
    let e = h.is_sum in
    let b0 = r.evt_lt in
    let b1 = r.umask_lt in
    let b2 = r.cmask_lt in
    let b3 = r.inv_lt in
    let b4 = r.edge_lt in
    let b5 = r.anythread_lt in let b6 = r.user_lt in let b7 = r.os_lt in omega arith

-- No word is 0 or the code that the probe gives to an unsupported event.
pub word-proper : (w : ℕ) → IsEventWord w → (0 < w) × (w < 0xFFFFFFFF)
word-proper w h =
    let r = h.in_range in
    let e = h.is_sum in
    let b0 = r.evt_lt in
    let b1 = r.umask_lt in
    let b2 = r.cmask_lt in
    let b3 = r.inv_lt in
    let b4 = r.edge_lt in
    let b5 = r.anythread_lt in let b6 = r.user_lt in let b7 = r.os_lt in (omega arith, omega arith)

word-clear : (w : ℕ) → IsEventWord w → (bit 19 w ≡ 0) × (bit 20 w ≡ 0)
word-clear w h =
    let r = h.in_range in
    let e = h.is_sum in
    let b0 = r.evt_lt in
    let b1 = r.umask_lt in
    let b2 = r.cmask_lt in
    let b3 = r.inv_lt in
    let b4 = r.edge_lt in
    let b5 = r.anythread_lt in
    let b6 = r.user_lt in
    let b7 = r.os_lt in (omega (arith, bit-div 19 w), omega (arith, bit-div 20 w))

word-unmasked : (w : ℕ) → IsEventWord w → w &&& not64 0x180000 ≡ w
word-unmasked w h =
    bits_ext_all _ _
      λ j. ground (arith, bit-and_not j w (omega (arith, word-lt w h)), word-clear w h)

zero-unmasked : 0 &&& not64 0x180000 ≡ 0
unfolding not64
zero-unmasked = refl

-- On every counter and for every string, the event filter of the kernel module keeps the answer of
-- the event parser as it is when the event that it names may be counted there, and makes it 0
-- otherwise.
pub filter_cfg-parse_cfg :
    (i : ℕ) (s : Bytes)
    → filter_cfg i (parse_cfg s)
      ≡ (if allowed i (parse_cfg s % 2 ^ 8) ((parse_cfg s >>> 8) % 2 ^ 8) then parse_cfg s else 0)
filter_cfg-parse_cfg i s = elim (parse_cfg-IsEventWord s) [
  | inl refused ↦ rw refused (filter_cfg_lem i 0 (omega arith) ∙ ground (arith, zero-unmasked))
  | inr word ↦
      filter_cfg_lem i (parse_cfg s) (omega (arith, word-lt (parse_cfg s) word))
      ∙ ground (arith, word-unmasked (parse_cfg s) word)
]
