-- ===== src/Kmod/Counters/Enable.antt =====
-- What `pfcFfCntWrEnb` and `pfcGpCntWrEnb` do to IA32_PERF_GLOBAL_CTRL.
use perf_hound.Prelude.{
  ℕ, ◌+◌, ◌^◌, ◌≤◌, ◌<◌, ◌≡◌, ◌∙◌, ◌&&◌, ◌||◌, Bool, some, arith, ltb, leb, ap, ◌==◌, if◌then◌else◌,
  not, ◌-◌,
}
use perf_hound.Bits.{bit, ◌&&&◌, ◌|||◌, ◌<<<◌}
use perf_hound.Bits.Logic.{bit-and, bit-or, bit-le-one, bit-zero}
use perf_hound.Bits.Shift.{bit-shl, bits_ext, bit-one}
use perf_hound.Bits.Fields.{or-lt, and-lt}
use perf_hound.Kmod
use perf_hound.Kmod.{Globals}
use perf_hound.Kmod.Vectors.{zv, bit-zv}
use perf_hound.Kmod.Msr.{MsrFile, rdmsr, wrmsr, reserved, bit-blend, rd-wrmsr, zv-lt}
use perf_hound.Kmod.Counters.{flag, ff_cnt_wr_enb, gp_cnt_wr_enb}

-- The bits of IA32_PERF_GLOBAL_CTRL that `pfcWRMSR` lets through.
abbrev pub enable_bit : Globals → ℕ → Bool
enable_bit g i = ltb i g.pmc_gp || leb 32 i && ltb i (32 + g.pmc_ff)

abbrev pub ctrl_mask : Globals → ℕ
ctrl_mask g = zv g.pmc_ff 32 &&& zv g.pmc_gp 0

pub reserved-global_ctrl :
    (g : Globals) → g.pmc_gp ≤ 25 → reserved g Kmod.perf_global_ctrl ≡ some (ctrl_mask g)
unfolding reserved
reserved-global_ctrl g h = ground arith

pub bit-ctrl_mask :
    (g : Globals) (i : ℕ) → i < 64 → bit i (ctrl_mask g) ≡ (if enable_bit g i then 0 else 1)
bit-ctrl_mask g i h = ground (
  arith,
  bit-and i (zv g.pmc_ff 32) (zv g.pmc_gp 0),
  bit-zv g.pmc_ff 32 i h,
  bit-zv g.pmc_gp 0 i h,
)

bit-flag : (v j : ℕ) → bit j (flag v) ≡ (if j == 0 then flag v else 0)
bit-flag v j = ground (arith, bit-zero j, bit-one j)

bit-flag-shl : (v k i : ℕ) → i < 64 → bit i (flag v <<< k) ≡ (if i == k then flag v else 0)
bit-flag-shl v k i h = ground (arith, bit-shl i k (flag v) h, bit-flag v (i - k))

module _ (m : MsrFile) (g : Globals) (few : g.pmc_gp ≤ 25)
    (holds : m.Holds Kmod.perf_global_ctrl) where
  open m use {State, rd, rd-lt}

  -- Enabling writes `old | 1 << k`, so a bit is set where it was or where it is asked for.
  bit-enable :
      (s : State) (v k i : ℕ)
      → i < 64
      → bit i (
          rd
            (wrmsr m g s Kmod.perf_global_ctrl (rd s Kmod.perf_global_ctrl ||| (flag v <<< k)))
            Kmod.perf_global_ctrl)
        ≡ (if enable_bit g i && i == k && not (v == 0)
            then 1
            else bit i (rd s Kmod.perf_global_ctrl))
  bit-enable s v k i h =
      let old = rd s Kmod.perf_global_ctrl in
      let new = old ||| (flag v <<< k) in
      let new_lt : new < 2 ^ 64 = or-lt 64 old (flag v <<< k) (rd-lt s _) (omega arith) in
      ap (bit i) (
        rd-wrmsr m g s Kmod.perf_global_ctrl new (ctrl_mask g) holds (reserved-global_ctrl g few)
          new_lt)
      ∙ bit-blend (ctrl_mask g) new old i (and-lt 64 (zv g.pmc_ff 32) _ (zv-lt g.pmc_gp 0)) h
      ∙ ground (
        arith,
        bit-ctrl_mask g i h,
        bit-or i old (flag v <<< k),
        bit-flag-shl v k i h,
        bit-le-one i old,
      )

  -- The enable bit of fixed counter `i` is set when asked for; every other bit keeps its value, and
  -- with `v = 0` so does this one.
  pub bit-ff_cnt_wr_enb :
      (s : State) (i v j : ℕ)
      → i < g.pmc_ff
      → j < 64
      → bit j (rd (ff_cnt_wr_enb m g s i v) Kmod.perf_global_ctrl)
        ≡ (if j == 32 + i && not (v == 0) then 1 else bit j (rd s Kmod.perf_global_ctrl))
  unfolding ff_cnt_wr_enb rdmsr
  bit-ff_cnt_wr_enb s i v j hi hj = bit-enable s v (32 + i) j hj ∙ ground arith

  -- With at most 3 fixed and 25 general counters and a control register that holds what it is
  -- given, setting the enable flag of a general counter to a value other than 0 sets its bit in
  -- the control register and keeps every other bit, and setting it to 0 keeps every bit.
  pub bit-gp_cnt_wr_enb :
      (s : State) (i v j : ℕ)
      → i < g.pmc_gp
      → j < 64
      → bit j (rd (gp_cnt_wr_enb m g s i v) Kmod.perf_global_ctrl)
        ≡ (if j == i && not (v == 0) then 1 else bit j (rd s Kmod.perf_global_ctrl))
  unfolding gp_cnt_wr_enb rdmsr
  bit-gp_cnt_wr_enb s i v j hi hj = bit-enable s v (0 + i) j hj ∙ ground arith

  -- Disabling changes nothing.
  pub disable_is_identity :
      (s : State) (i : ℕ)
      → i < g.pmc_ff
      → rd (ff_cnt_wr_enb m g s i 0) Kmod.perf_global_ctrl ≡ rd s Kmod.perf_global_ctrl
  disable_is_identity s i hi =
      bits_ext 64 _ _ (rd-lt _ _) (rd-lt s _)
        (λ j hj. bit-ff_cnt_wr_enb s i 0 j hi hj ∙ ground arith)
