-- ===== src/Kmod/Msr.antt =====
-- `pfcRDMSR` and `pfcWRMSR` of src/kmod/x86/enable_pmu_x86.c, over the kernel's accesses to the
-- model-specific registers of the current CPU, which are a parameter.
use perf_hound.Prelude.{
  ℕ, ◌+◌, ◌*◌, ◌^◌, ◌<◌, ◌≡◌, ◌≢◌, ◌∙◌, ◌&&◌, ◌||◌, Bool, Option, none, some, arith, ltb, leb, ◌==◌,
  if◌then◌else◌, Option-cases, inl, inr, ap,
}
use perf_hound.Bits.{bit, u32, not64, ◌&&&◌, ◌|||◌, ◌>>>◌}
use perf_hound.Bits.Logic.{bit-and, bit-or, bit-not64, bit-le-one}
use perf_hound.Bits.Fields.{or-lt, and-lt}
use perf_hound.Kmod
use perf_hound.Kmod.{Globals}
use perf_hound.Kmod.Vectors.{ov, zv}

-- `native_read_msr` and `native_write_msr`, which takes the two halves of the word. A register of
-- which `Holds` is claimed keeps what is written to it until the next write to it; counters that
-- run and registers that the hardware interprets need not.
pub record MsrFile : Type 1 where
  pub State : Type 0
  pub rd : State → ℕ → ℕ
  pub wr : State → ℕ → ℕ → ℕ → State
  pub Holds : ℕ → Type 0
  pub rd-lt : (s : State) (a : ℕ) → rd s a < 2 ^ 64
  pub rd-wr_self :
      (s : State) (a lo hi : ℕ)
      → Holds a
      → lo < 2 ^ 32
      → hi < 2 ^ 32
      → rd (wr s a lo hi) a ≡ hi * 2 ^ 32 + lo
  pub rd-wr_ne : (s : State) (a b lo hi : ℕ) → Holds b → a ≢ b → rd (wr s a lo hi) b ≡ rd s b

-- `base <= addr && addr < base + n`.
abbrev pub within : ℕ → ℕ → ℕ → Bool
within base n addr = leb base addr && ltb addr (base + n)

-- The reserved bits of a register that may be written; `none` where `pfcWRMSR` returns early.
unfoldable pub reserved : Globals → ℕ → Option ℕ
reserved g addr =
    if within Kmod.a_pmc0 g.pmc_gp addr || within Kmod.perfctr0 g.pmc_gp addr
    then some (not64 g.pmc_gp_mask)
    else if addr == Kmod.perf_global_ctrl
    then some (zv g.pmc_ff 32 &&& zv g.pmc_gp 0)
    else if addr == Kmod.perf_global_status
    then none
    else if addr == Kmod.perf_global_ovf_ctrl
    then some (zv 3 61 &&& zv g.pmc_ff 32 &&& zv g.pmc_gp 0)
    else if addr == Kmod.fixed_ctr_ctrl
    then some (zv (4 * g.pmc_ff) 0)
    else if within Kmod.fixed_ctr0 g.pmc_ff addr
    then some (not64 g.pmc_ff_mask)
    else if within Kmod.perfevtsel0 g.pmc_gp addr
    then some 0xFFFFFFFF00000000
    else if addr == Kmod.therm_status
    then some 0xFFFFFFFF0780F000
    else if addr == Kmod.package_therm_status
    then some 0xFFFFFFFFFF80F000
    else if addr == Kmod.temperature_target
    then some 0xFFFFFFFFF00000FF
    else if addr == Kmod.core_perf_limit_reasons
    then some 0xFFFFFFFF1A90FFFF
    else if addr == Kmod.energy_perf_bias
    then some 0xFFFFFFFFFFFFFFF0
    else if addr == Kmod.perf_ctl
    then some 0xFFFFFFFFFFFF0000
    else if addr == Kmod.pebs_frontend
    then some 0xFFFFFFFFFFC000E8
    else none

-- The new bits where the mask is clear, the old ones where it is set.
unfoldable pub blend : ℕ → ℕ → ℕ → ℕ
blend mask new old = (not64 mask &&& new) ||| (mask &&& old)

module _ (m : MsrFile) where
  open m use {State, rd, wr, Holds, rd-lt, rd-wr_self, rd-wr_ne}

  unfoldable pub rdmsr : State → ℕ → ℕ
  rdmsr s addr = rd s addr

  unfoldable pub wrmsr : Globals → State → ℕ → ℕ → State
  unfolding rdmsr
  wrmsr g s addr new = elim (reserved g addr) [
    | none ↦ s
    | some mask ↦ let v = blend mask new (rdmsr s addr) in wr s addr (u32 v) (u32 (v >>> 32))
  ]

pub bit-blend :
    (mask new old i : ℕ)
    → mask < 2 ^ 64
    → i < 64
    → bit i (blend mask new old) ≡ (if bit i mask == 1 then bit i old else bit i new)
unfolding blend
bit-blend mask new old i hm hi = ground (
  arith,
  bit-or i (not64 mask &&& new) (mask &&& old),
  bit-and i (not64 mask) new,
  bit-and i mask old,
  bit-not64 i mask hi hm,
  bit-le-one i mask,
  bit-le-one i new,
  bit-le-one i old,
)

pub blend-lt : (mask new old : ℕ) → new < 2 ^ 64 → old < 2 ^ 64 → blend mask new old < 2 ^ 64
unfolding blend
blend-lt mask new old hn ho =
    or-lt 64 (not64 mask &&& new) (mask &&& old) (and-lt 64 (not64 mask) new hn)
      (and-lt 64 mask old ho)

pub not64-lt : (a : ℕ) → not64 a < 2 ^ 64
unfolding not64
not64-lt a = omega arith

pub zv-lt : (n k : ℕ) → zv n k < 2 ^ 64
unfolding zv
zv-lt n k = not64-lt (ov n k)

-- Every mask that is used is a word.
pub reserved-lt : (g : Globals) (addr mask : ℕ) → reserved g addr ≡ some mask → mask < 2 ^ 64
unfolding reserved
reserved-lt g addr mask h = ground (
  arith,
  not64-lt g.pmc_gp_mask,
  not64-lt g.pmc_ff_mask,
  and-lt 64 (zv g.pmc_ff 32) (zv g.pmc_gp 0) (zv-lt g.pmc_gp 0),
  and-lt 64 (zv 3 61 &&& zv g.pmc_ff 32) (zv g.pmc_gp 0) (zv-lt g.pmc_gp 0),
  zv-lt (4 * g.pmc_ff) 0,
)

module _ (m : MsrFile) where
  open m use {State, rd, wr, Holds, rd-lt, rd-wr_self, rd-wr_ne}

  -- What a permitted write leaves in the register.
  pub rd-wrmsr :
      (g : Globals) (s : State) (addr new mask : ℕ)
      → Holds addr
      → reserved g addr ≡ some mask
      → new < 2 ^ 64
      → rd (wrmsr m g s addr new) addr ≡ blend mask new (rd s addr)
  unfolding wrmsr
  rd-wrmsr g s addr new mask holds e hn =
      let v = blend mask new (rd s addr) in
      let fits : v < 2 ^ 64 = blend-lt mask new (rd s addr) hn (rd-lt s addr) in
      rw (e, wrmsr)
        (rd-wr_self s addr (u32 v) (u32 (v >>> 32)) holds (omega arith) (omega arith) ∙ omega arith)

  -- A write concerns its own register alone.
  pub rd-wrmsr_ne :
      (g : Globals) (s : State) (addr other new : ℕ)
      → Holds other
      → addr ≢ other
      → rd (wrmsr m g s addr new) other ≡ rd s other
  unfolding wrmsr
  rd-wrmsr_ne g s addr other new holds ne = elim (Option-cases (reserved g addr)) [
    | inl e ↦ rw (e, wrmsr)
    | inr (mask, e) ↦ rw (e, wrmsr) (rd-wr_ne s addr other _ _ holds ne)
  ]

  -- A write to a register that holds what it is given and for which the module has a mask of
  -- reserved bits keeps each reserved bit as the register had it and takes each other bit from the
  -- new word.
  pub bit-wrmsr :
      (g : Globals) (s : State) (addr new mask i : ℕ)
      → Holds addr
      → reserved g addr ≡ some mask
      → new < 2 ^ 64
      → i < 64
      → bit i (rd (wrmsr m g s addr new) addr)
        ≡ (if bit i mask == 1 then bit i (rd s addr) else bit i new)
  bit-wrmsr g s addr new mask i holds e hn hi =
      ap (bit i) (rd-wrmsr g s addr new mask holds e hn)
      ∙ bit-blend mask new (rd s addr) i (reserved-lt g addr mask e) hi
