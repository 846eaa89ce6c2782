-- ===== src/Kmod/Counters/General.antt =====
-- What `pfcGpCntWrCfg` leaves in IA32_PERFEVTSELx.
use perf_hound.Prelude.{
  ℕ, ◌+◌, ◌-◌, ◌%◌, ◌^◌, ◌≤◌, ◌<◌, ◌≡◌, ◌∙◌, ◌&&◌, ◌||◌, not, Bool, some, arith, ltb, leb, ap, ◌==◌,
  if◌then◌else◌, Bool-cases, inl, inr,
}
use perf_hound.Bits.{bit, not64, ◌&&&◌, ◌>>>◌}
use perf_hound.Bits.Logic.{bit-and, bit-le-one, bit-zero, bit-not64}
use perf_hound.Bits.Shift.{bit-mul_pow, bits_ext_all, bit-shr, bit-mod, bit_above}
use perf_hound.Bits.Fields.{and-lt, and-mask, bit-ones}
use perf_hound.Kmod
use perf_hound.Kmod.{Globals}
use perf_hound.Kmod.Msr.{MsrFile, rdmsr, reserved, bit-blend, rd-wrmsr, not64-lt}
use perf_hound.Kmod.Counters.{filter_cfg, gp_cnt_wr_cfg, gp_cnt_rd_cfg}

-- Where an event may be counted: l1d_pend_miss and two l1d stall events on counter 2 alone,
-- inst_retired.prec_dist on counter 1 alone.
abbrev pub allowed : ℕ → ℕ → ℕ → Bool
allowed i evt umask =
    not ((evt == 0x48 || evt == 0xA3 && (umask == 0x08 || umask == 0x0C)) && not (i == 2))
    && not (evt == 0xC0 && umask == 0x01 && not (i == 1))

-- Bits 19 (pin control) and 20 (APIC interrupt).
forbidden_bits : (j : ℕ) → bit j 0x180000 ≡ (if j == 19 || j == 20 then 1 else 0)
forbidden_bits j = bit-mul_pow j 19 3 ∙ ground (arith, bit-ones (j - 19) 2)

pub bit-and_not :
    (j word : ℕ)
    → word < 2 ^ 64
    → bit j (word &&& not64 0x180000) ≡ (if j == 19 || j == 20 then 0 else bit j word)
bit-and_not j word h = ground (
  arith,
  bit-and j word (not64 0x180000),
  bit-not64 j 0x180000,
  forbidden_bits j,
  bit_above j 64 word h,
  bit-le-one j word,
)

evt_num-eq : (word : ℕ) → word < 2 ^ 64 → word &&& not64 0x180000 &&& 0xFF ≡ word % 2 ^ 8
evt_num-eq word h =
    and-mask 8 (word &&& not64 0x180000)
    ∙ bits_ext_all _ _ λ j.
      ground (arith, bit-mod j 8 (word &&& not64 0x180000), bit-mod j 8 word, bit-and_not j word h)

umask-eq :
    (word : ℕ) → word < 2 ^ 64 → ((word &&& not64 0x180000) >>> 8) &&& 0xFF ≡ (word >>> 8) % 2 ^ 8
umask-eq word h =
    and-mask 8 ((word &&& not64 0x180000) >>> 8)
    ∙ bits_ext_all _ _ λ j. ground (
      arith,
      bit-mod j 8 ((word &&& not64 0x180000) >>> 8),
      bit-mod j 8 (word >>> 8),
      bit-shr j 8 (word &&& not64 0x180000),
      bit-shr j 8 word,
      bit-and_not (j + 8) word h,
    )

-- The filter, in terms of the event and the unit mask that the word names.
pub filter_cfg_lem :
    (i word : ℕ)
    → word < 2 ^ 64
    → filter_cfg i word
      ≡ (if allowed i (word % 2 ^ 8) ((word >>> 8) % 2 ^ 8) then word &&& not64 0x180000 else 0)
unfolding filter_cfg
filter_cfg_lem i word h = rw (evt_num-eq word h, umask-eq word h) (ground arith)

pub filter_cfg-lt : (i word : ℕ) → filter_cfg i word < 2 ^ 64
unfolding filter_cfg
filter_cfg-lt i word = ground (arith, and-lt 64 word (not64 0x180000) (not64-lt 0x180000))

bit-filter_cfg :
    (i word j : ℕ)
    → word < 2 ^ 64
    → bit j (filter_cfg i word) ≡ (
        if allowed i (word % 2 ^ 8) ((word >>> 8) % 2 ^ 8) && not (j == 19 || j == 20)
        then bit j word
        else 0)
bit-filter_cfg i word j h = elim (Bool-cases (allowed i (word % 2 ^ 8) ((word >>> 8) % 2 ^ 8))) [
  | inl ok ↦ rw (filter_cfg_lem i word h, ok) (ground (arith, bit-and_not j word h))
  | inr refused ↦ rw (filter_cfg_lem i word h, refused) (bit-zero j)
]

pub reserved-perfevtsel :
    (g : Globals) (i : ℕ)
    → g.pmc_gp ≤ 25
    → i < g.pmc_gp
    → reserved g (Kmod.perfevtsel0 + i) ≡ some 0xFFFFFFFF00000000
unfolding reserved
reserved-perfevtsel g i few h = ground arith

pub bit-high_mask : (j : ℕ) → bit j 0xFFFFFFFF00000000 ≡ (if leb 32 j && ltb j 64 then 1 else 0)
bit-high_mask j = bit-mul_pow j 32 0xFFFFFFFF ∙ ground (arith, bit-ones (j - 32) 32)

kept_half :
    (j new old : ℕ)
    → j < 64
    → (if bit j 0xFFFFFFFF00000000 == 1 then bit j old else bit j new)
      ≡ (if leb 32 j then bit j old else bit j new)
kept_half j new old h = ground (arith, bit-high_mask j)

module _ (m : MsrFile) (g : Globals) (few : g.pmc_gp ≤ 25) where
  open m use {State, rd, rd-lt, Holds}

  -- With at most 25 general counters, after general counter i, which exists and whose register
  -- holds what it is given, is configured by a 64-bit word, each bit of the upper half of its
  -- configuration is as before, and each bit of the lower half is that of the word if the event
  -- may be counted there and the bit is not 19 or 20, and 0 otherwise.
  pub bit-gp_cnt_rd_cfg-gp_cnt_wr_cfg :
      (s : State) (i word j : ℕ)
      → i < g.pmc_gp
      → Holds (Kmod.perfevtsel0 + i)
      → word < 2 ^ 64
      → j < 64
      → bit j (gp_cnt_rd_cfg m g (gp_cnt_wr_cfg m g s i word) i) ≡ (
          if leb 32 j
          then bit j (gp_cnt_rd_cfg m g s i)
          else if allowed i (word % 2 ^ 8) ((word >>> 8) % 2 ^ 8) && not (j == 19 || j == 20)
          then bit j word
          else 0)
  unfolding gp_cnt_rd_cfg gp_cnt_wr_cfg rdmsr
  bit-gp_cnt_rd_cfg-gp_cnt_wr_cfg s i word j hi holds hw hj =
      ap (bit j) (
        rd-wrmsr m g s (Kmod.perfevtsel0 + i) (filter_cfg i word) 0xFFFFFFFF00000000 holds
          (reserved-perfevtsel g i few hi) (filter_cfg-lt i word))
      ∙ bit-blend 0xFFFFFFFF00000000 (filter_cfg i word) (rd s (Kmod.perfevtsel0 + i)) j
          (omega arith) hj
      ∙ kept_half j (filter_cfg i word) (rd s (Kmod.perfevtsel0 + i)) hj
      ∙ ap (λ (t : ℕ). if leb 32 j then bit j (rd s (Kmod.perfevtsel0 + i)) else t)
          (bit-filter_cfg i word j hw)
