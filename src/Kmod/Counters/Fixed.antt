-- ===== src/Kmod/Counters/Fixed.antt =====
-- What `pfcFfCntWrCfg` writes and `pfcFfCntRdCfg` reads: one four-bit field for each counter.
use perf_hound.Prelude.{
  ℕ, ◌+◌, ◌-◌, ◌*◌, ◌%◌, ◌^◌, ◌≤◌, ◌<◌, ◌≡◌, ◌∙◌, ◌&&◌, some, arith, ltb, leb, ap, ◌==◌,
  if◌then◌else◌,
}
use perf_hound.Bits.{bit, ◌&&&◌, ◌|||◌, ◌>>>◌}
use perf_hound.Bits.Logic.{bit-or}
use perf_hound.Bits.Shift.{bits_ext_all, bit-shr, bit-mod}
use perf_hound.Bits.Fields.{and-lt, and-mask, or-lt}
use perf_hound.Kmod
use perf_hound.Kmod.{Globals}
use perf_hound.Kmod.Vectors.{zv, bv, cv, bit-zv, bit-bv, bit-cv}
use perf_hound.Kmod.Msr.{MsrFile, rdmsr, wrmsr, reserved, blend, bit-blend, rd-wrmsr, zv-lt}
use perf_hound.Kmod.Counters.{ff_cnt_wr_cfg, ff_cnt_rd_cfg}

pub reserved-fixed_ctr_ctrl :
    (g : Globals) → g.pmc_gp ≤ 25 → reserved g Kmod.fixed_ctr_ctrl ≡ some (zv (4 * g.pmc_ff) 0)
unfolding reserved
reserved-fixed_ctr_ctrl g h = ground arith

-- The word that replaces field `i` of `old`.
abbrev placed : ℕ → ℕ → ℕ → ℕ
placed old i word = cv old 4 (4 * i) ||| bv (word &&& 0x7) 4 (4 * i)

placed-lt : (old i word : ℕ) → old < 2 ^ 64 → placed old i word < 2 ^ 64
unfolding cv bv
placed-lt old i word h = or-lt 64 _ _ (and-lt 64 old _ (zv-lt 4 (4 * i))) (omega arith)

bit-placed :
    (old i word k : ℕ)
    → k < 64
    → bit k (placed old i word)
      ≡ (if leb (4 * i) k && ltb k (4 + 4 * i) then bit (k - 4 * i) (word % 8) else bit k old)
bit-placed old i word k h = ground (
  arith,
  bit-or k (cv old 4 (4 * i)) (bv (word &&& 0x7) 4 (4 * i)),
  bit-cv old 4 (4 * i) k h,
  bit-bv (word &&& 0x7) 4 (4 * i) k h,
  ap (bit (k - 4 * i)) (and-mask 3 word),
)

-- A four-bit field, bit by bit.
pub bit-field :
    (x j b : ℕ) → bit b ((x >>> (4 * j)) &&& 0xF) ≡ (if ltb b 4 then bit (b + 4 * j) x else 0)
bit-field x j b = ground (
  arith,
  and-mask 4 (x >>> (4 * j)),
  ap (bit b) (and-mask 4 (x >>> (4 * j))),
  bit-mod b 4 (x >>> (4 * j)),
  bit-shr b (4 * j) x,
)

bit-below_8 : (b word : ℕ) → 4 ≤ b → bit b (word % 8) ≡ 0
bit-below_8 b word h = bit-mod b 3 word ∙ ground arith

module _ (m : MsrFile) (g : Globals) (few : g.pmc_gp ≤ 25) (few_ff : g.pmc_ff ≤ 3)
    (holds : m.Holds Kmod.fixed_ctr_ctrl) where
  open m use {State, rd, rd-lt}

  -- With at most 3 fixed and 25 general counters and a control register that holds what it is
  -- given, after a fixed counter is configured by a word, that counter reads back the low three
  -- bits of the word and every other fixed counter reads what it read before.
  pub ff_cnt_rd_cfg-ff_cnt_wr_cfg :
      (s : State) (i j word : ℕ)
      → i < g.pmc_ff
      → j < g.pmc_ff
      → ff_cnt_rd_cfg m g (ff_cnt_wr_cfg m g s i word) j
        ≡ (if j == i then word % 8 else ff_cnt_rd_cfg m g s j)
  unfolding ff_cnt_rd_cfg ff_cnt_wr_cfg rdmsr
  ff_cnt_rd_cfg-ff_cnt_wr_cfg s i j word hi hj = bits_ext_all _ _ λ b.
      let old = rd s Kmod.fixed_ctr_ctrl in
      let new = placed old i word in
      let after = rd (wrmsr m g s Kmod.fixed_ctr_ctrl new) Kmod.fixed_ctr_ctrl in
      let stored : after ≡ blend (zv (4 * g.pmc_ff) 0) new old =
        rd-wrmsr m g s Kmod.fixed_ctr_ctrl new _ holds (reserved-fixed_ctr_ctrl g few)
          (placed-lt old i word (rd-lt s _)) in
      ground (
        arith,
        bit-field after j b,
        bit-field old j b,
        ap (bit (b + 4 * j)) stored,
        bit-blend (zv (4 * g.pmc_ff) 0) new old (b + 4 * j) (zv-lt (4 * g.pmc_ff) 0),
        bit-zv (4 * g.pmc_ff) 0 (b + 4 * j),
        bit-placed old i word (b + 4 * j),
        bit-below_8 b word,
      )
