-- ===== src/Kmod/Startup/Cleared.antt =====
-- After `ph_pmu_init_counters` no counter is enabled or configured.
use perf_hound.Prelude.{
  ℕ, zero, suc, ◌+◌, ◌*◌, ◌≤◌, ◌<◌, ◌≡◌, ◌≢◌, ◌∙◌, refl, ap, arith, true, ◌==◌, Bool-cases, inl,
  inr, ◌⊎◌,
}
use perf_hound.Bits.{bit}
use perf_hound.Bits.Logic.{bit-zero}
use perf_hound.Bits.Shift.{bits_ext_all}
use perf_hound.Bits.Fields.{and-lt}
use perf_hound.Kmod
use perf_hound.Kmod.{Globals}
use perf_hound.Kmod.Vectors.{zv, bit-zv}
use perf_hound.Kmod.Msr.{MsrFile, rdmsr, wrmsr, bit-blend, rd-wrmsr, rd-wrmsr_ne, zv-lt}
use perf_hound.Kmod.Counters.{ff_cnt_rd_cfg, gp_cnt_rd_cfg}
use perf_hound.Kmod.Counters.Enable.{enable_bit, ctrl_mask, bit-ctrl_mask, reserved-global_ctrl}
use perf_hound.Kmod.Counters.Fixed.{reserved-fixed_ctr_ctrl, bit-field}
use perf_hound.Kmod.Counters.General.{reserved-perfevtsel, bit-high_mask}
use perf_hound.Kmod.Sysfs.Write.Rounds.{HoldsConfig}
use perf_hound.Kmod.Startup.{zero_fixed, zero_general, init_counters}

module _ (m : MsrFile) (g : Globals) (few : g.pmc_gp ≤ 25) (few_ff : g.pmc_ff ≤ 3)
    (few_hw : g.pmc_ff_hw ≤ 31) (holds : HoldsConfig m g) where
  open m use {State, rd, rd-lt, Holds}

  -- Zeroing the fixed counters touches no register above them.
  zero_fixed-keeps :
      (n i : ℕ) (s : State) (b : ℕ)
      → Holds b
      → (b < Kmod.fixed_ctr0) ⊎ (Kmod.fixed_ctr0 + 31 ≤ b)
      → i + n ≤ 31
      → rd (zero_fixed m g n i s) b ≡ rd s b
  unfolding zero_fixed
  zero_fixed-keeps zero i s b hb far h = refl
  zero_fixed-keeps (suc n) i s b hb far h =
      zero_fixed-keeps n (i + 1) (wrmsr m g s (Kmod.fixed_ctr0 + i) 0) b hb far (omega arith)
      ∙ rd-wrmsr_ne m g s (Kmod.fixed_ctr0 + i) b 0 hb (omega arith)

  -- Nor does zeroing the others touch a register above theirs.
  zero_general-keeps :
      (n i : ℕ) (s : State) (b : ℕ)
      → Holds b
      → Kmod.perfevtsel0 + 25 ≤ b
      → i + n ≤ 25
      → rd (zero_general m g n i s) b ≡ rd s b
  unfolding zero_general
  zero_general-keeps zero i s b hb far h = refl
  zero_general-keeps (suc n) i s b hb far h =
      zero_general-keeps n (i + 1) _ b hb far (omega arith)
      ∙ rd-wrmsr_ne m g _ (Kmod.perfctr0 + i) b 0 hb (omega arith)
      ∙ rd-wrmsr_ne m g s (Kmod.perfevtsel0 + i) b 0 hb (omega arith)

  abbrev Zeroed : State → ℕ → Type 0
  Zeroed s k = (j : ℕ) → j < 32 → bit j (rd s (Kmod.perfevtsel0 + k)) ≡ 0

  Zeroed-wrmsr :
      (s : State) (k : ℕ) → k < g.pmc_gp → Zeroed (wrmsr m g s (Kmod.perfevtsel0 + k) 0) k
  Zeroed-wrmsr s k hk j hj =
      ap (bit j) (
        rd-wrmsr m g s (Kmod.perfevtsel0 + k) 0 0xFFFFFFFF00000000 (holds.evtsel k hk)
          (reserved-perfevtsel g k few hk) (omega arith))
      ∙ bit-blend 0xFFFFFFFF00000000 0 (rd s (Kmod.perfevtsel0 + k)) j (omega arith) (omega arith)
      ∙ ground (arith, bit-high_mask j, bit-zero j)

  Zeroed-round :
      (s : State) (i k : ℕ)
      → k < g.pmc_gp
      → i < g.pmc_gp
      → (k < i → Zeroed s k)
      → k < suc i
      → Zeroed (wrmsr m g (wrmsr m g s (Kmod.perfevtsel0 + i) 0) (Kmod.perfctr0 + i) 0) k
  Zeroed-round s i k hk hi before le j hj =
      ap (bit j) (rd-wrmsr_ne m g _ (Kmod.perfctr0 + i) _ 0 (holds.evtsel k hk) (omega arith))
      ∙ (elim (Bool-cases (k == i)) [
        | inl same ↦ let e : i ≡ k = ground arith in rw e (Zeroed-wrmsr s k hk j hj)
        | inr other ↦
            ap (bit j)
              (rd-wrmsr_ne m g s (Kmod.perfevtsel0 + i) _ 0 (holds.evtsel k hk) (ground arith))
            ∙ before (ground arith) j hj
      ])

  zero_general-Zeroed :
      (n i : ℕ) (s : State)
      → i + n ≤ g.pmc_gp
      → ((k : ℕ) → k < i → Zeroed s k)
      → (k : ℕ) → k < i + n
      → Zeroed (zero_general m g n i s) k
  unfolding zero_general
  zero_general-Zeroed zero i s h before k hk = before k (omega arith)
  zero_general-Zeroed (suc n) i s h before k hk =
      zero_general-Zeroed n (i + 1) _ (omega arith)
        (λ l hl. Zeroed-round s i l (omega arith) (omega arith) (before l) (omega arith)) k
        (omega arith)

  -- The state behind the two loops, and what the loops keep of it.
  abbrev first : State → State
  first s = wrmsr m g (wrmsr m g s Kmod.perf_global_ctrl 0) Kmod.fixed_ctr_ctrl 0

  kept :
      (s : State) (b : ℕ)
      → Holds b
      → Kmod.fixed_ctr0 + 31 ≤ b
      → b ≢ Kmod.perf_global_ovf_ctrl
      → rd (init_counters m g s) b ≡ rd (first s) b
  unfolding init_counters
  kept s b hb far ne =
      rd-wrmsr_ne m g _ Kmod.perf_global_ovf_ctrl b _ hb (omega arith)
      ∙ zero_general-keeps g.pmc_gp 0 _ b hb (omega arith) (omega arith)
      ∙ zero_fixed-keeps g.pmc_ff_hw 0 (first s) b hb (inr far) (omega arith)

  first_enable :
      (s : State) (j : ℕ)
      → j < 64
      → enable_bit g j ≡ true
      → bit j (rd (first s) Kmod.perf_global_ctrl) ≡ 0
  first_enable s j hj on =
      let old = rd s Kmod.perf_global_ctrl in
      ap (bit j) (rd-wrmsr_ne m g _ Kmod.fixed_ctr_ctrl _ 0 holds.global (omega arith))
      ∙ ap (bit j) (
          rd-wrmsr m g s Kmod.perf_global_ctrl 0 (ctrl_mask g) holds.global
            (reserved-global_ctrl g few) (omega arith))
      ∙ bit-blend (ctrl_mask g) 0 old j (and-lt 64 (zv g.pmc_ff 32) _ (zv-lt g.pmc_gp 0)) hj
      ∙ ground (arith, bit-ctrl_mask g j hj, bit-zero j)

  first_ctrl : (s : State) (j : ℕ) → j < 4 * g.pmc_ff → bit j (rd (first s) Kmod.fixed_ctr_ctrl) ≡ 0
  first_ctrl s j hj =
      let t = wrmsr m g s Kmod.perf_global_ctrl 0 in
      ap (bit j) (
        rd-wrmsr m g t Kmod.fixed_ctr_ctrl 0 (zv (4 * g.pmc_ff) 0) holds.ctrl
          (reserved-fixed_ctr_ctrl g few) (omega arith))
      ∙ bit-blend (zv (4 * g.pmc_ff) 0) 0 (rd t Kmod.fixed_ctr_ctrl) j (zv-lt _ 0) (omega arith)
      ∙ ground (arith, bit-zv (4 * g.pmc_ff) 0 j, bit-zero j)

  -- With at most 25 general counters, three fixed ones at most and registers that hold what they
  -- are given, the start-up of the counters leaves every enable bit clear, every fixed counter
  -- with configuration 0 and the lower half of every event selection 0.
  pub init_counters_lem :
      (s : State)
      → let t = init_counters m g s in
        ((j : ℕ) → j < 64 → enable_bit g j ≡ true → bit j (rd t Kmod.perf_global_ctrl) ≡ 0)
        × ((k : ℕ) → k < g.pmc_ff → ff_cnt_rd_cfg m g t k ≡ 0)
        × ((k j : ℕ) → k < g.pmc_gp → j < 32 → bit j (gp_cnt_rd_cfg m g t k) ≡ 0)
  unfolding ff_cnt_rd_cfg gp_cnt_rd_cfg rdmsr init_counters
  init_counters_lem s = (
    λ j hj on.
        ap (bit j) (kept s _ holds.global (omega arith) (omega arith)) ∙ first_enable s j hj on,
    λ k hk. bits_ext_all _ 0 λ b. ground (
      arith,
      bit-zero b,
      bit-field (rd (init_counters m g s) Kmod.fixed_ctr_ctrl) k b,
      ap (bit (b + 4 * k)) (kept s _ holds.ctrl (omega arith) (omega arith)),
      first_ctrl s (b + 4 * k),
    ),
    λ k j hk hj.
        ap (bit j)
          (rd-wrmsr_ne m g _ Kmod.perf_global_ovf_ctrl _ _ (holds.evtsel k hk) (omega arith))
        ∙ zero_general-Zeroed g.pmc_gp 0 (zero_fixed m g g.pmc_ff_hw 0 (first s)) (omega arith)
            (λ l hl. absurd (omega arith)) k (omega arith) j hj,
  )
