-- ===== src/Kmod/Sysfs/Write/Rounds.antt =====
-- One round of `pfcCfgWr`, as seen by the reader of each counter's configuration.
use perf_hound.Prelude.{
  ℕ, ◌+◌, ◌*◌, ◌%◌, ◌≤◌, ◌<◌, ◌≡◌, ap, arith, ◌==◌, if◌then◌else◌, Bool-cases, inl, inr,
}
use perf_hound.Bits.{◌&&&◌, ◌>>>◌}
use perf_hound.Kmod
use perf_hound.Kmod.{Globals}
use perf_hound.Kmod.Msr.{MsrFile, rdmsr, blend, rd-wrmsr, rd-wrmsr_ne}
use perf_hound.Kmod.Counters.{
  filter_cfg, ff_cnt_wr_enb, ff_cnt_wr_cfg, ff_cnt_rd_cfg, gp_cnt_wr_enb, gp_cnt_wr_cfg,
  gp_cnt_rd_cfg,
}
use perf_hound.Kmod.Counters.Fixed.{ff_cnt_rd_cfg-ff_cnt_wr_cfg}
use perf_hound.Kmod.Counters.General.{filter_cfg-lt, reserved-perfevtsel}
use perf_hound.Kmod.Sysfs.{ff_configure, gp_configure}

-- What a configuration word makes of the register of general-purpose counter `k`.
abbrev pub gp_merge : ℕ → ℕ → ℕ → ℕ
gp_merge k word old = blend 0xFFFFFFFF00000000 (filter_cfg k word) old

-- The registers that a configuration goes through keep what is written to them.
pub record HoldsConfig (m : MsrFile) (g : Globals) : Type 0 where
  pub ctrl : m.Holds Kmod.fixed_ctr_ctrl
  pub global : m.Holds Kmod.perf_global_ctrl
  pub evtsel : (i : ℕ) → i < g.pmc_gp → m.Holds (Kmod.perfevtsel0 + i)

module _ (m : MsrFile) (g : Globals) (few : g.pmc_gp ≤ 25) (few_ff : g.pmc_ff ≤ 3)
    (holds : HoldsConfig m g) where
  open m use {State, rd}

  ff_view_enb :
      (s : State) (i v k : ℕ)
      → ff_cnt_rd_cfg m g (ff_cnt_wr_enb m g s i v) k ≡ ff_cnt_rd_cfg m g s k
  unfolding ff_cnt_rd_cfg ff_cnt_wr_enb rdmsr
  ff_view_enb s i v k =
      ap (λ (t : ℕ). (t >>> (4 * k)) &&& 0xF) (rd-wrmsr_ne m g s _ _ _ holds.ctrl (omega arith))

  ff_view_gp_enb :
      (s : State) (i v k : ℕ)
      → ff_cnt_rd_cfg m g (gp_cnt_wr_enb m g s i v) k ≡ ff_cnt_rd_cfg m g s k
  unfolding ff_cnt_rd_cfg gp_cnt_wr_enb rdmsr
  ff_view_gp_enb s i v k =
      ap (λ (t : ℕ). (t >>> (4 * k)) &&& 0xF) (rd-wrmsr_ne m g s _ _ _ holds.ctrl (omega arith))

  ff_view_gp_cfg :
      (s : State) (i word k : ℕ)
      → i < g.pmc_gp
      → ff_cnt_rd_cfg m g (gp_cnt_wr_cfg m g s i word) k ≡ ff_cnt_rd_cfg m g s k
  unfolding ff_cnt_rd_cfg gp_cnt_wr_cfg rdmsr
  ff_view_gp_cfg s i word k hi =
      ap (λ (t : ℕ). (t >>> (4 * k)) &&& 0xF) (rd-wrmsr_ne m g s _ _ _ holds.ctrl (omega arith))

  gp_view_enb :
      (s : State) (i v k : ℕ)
      → k < g.pmc_gp
      → gp_cnt_rd_cfg m g (gp_cnt_wr_enb m g s i v) k ≡ gp_cnt_rd_cfg m g s k
  unfolding gp_cnt_rd_cfg gp_cnt_wr_enb rdmsr
  gp_view_enb s i v k hk = rd-wrmsr_ne m g s _ _ _ (holds.evtsel k hk) (omega arith)

  gp_view_ff_enb :
      (s : State) (i v k : ℕ)
      → k < g.pmc_gp
      → gp_cnt_rd_cfg m g (ff_cnt_wr_enb m g s i v) k ≡ gp_cnt_rd_cfg m g s k
  unfolding gp_cnt_rd_cfg ff_cnt_wr_enb rdmsr
  gp_view_ff_enb s i v k hk = rd-wrmsr_ne m g s _ _ _ (holds.evtsel k hk) (omega arith)

  gp_view_ff_cfg :
      (s : State) (i word k : ℕ)
      → k < g.pmc_gp
      → gp_cnt_rd_cfg m g (ff_cnt_wr_cfg m g s i word) k ≡ gp_cnt_rd_cfg m g s k
  unfolding gp_cnt_rd_cfg ff_cnt_wr_cfg rdmsr
  gp_view_ff_cfg s i word k hk = rd-wrmsr_ne m g s _ _ _ (holds.evtsel k hk) (omega arith)

  gp_view_cfg :
      (s : State) (i word k : ℕ)
      → i < g.pmc_gp
      → k < g.pmc_gp
      → gp_cnt_rd_cfg m g (gp_cnt_wr_cfg m g s i word) k
        ≡ (if k == i then gp_merge k word (gp_cnt_rd_cfg m g s k) else gp_cnt_rd_cfg m g s k)
  unfolding gp_cnt_rd_cfg gp_cnt_wr_cfg rdmsr
  gp_view_cfg s i word k hi hk = elim (Bool-cases (k == i)) [
    | inl same ↦
        let e : i ≡ k = ground arith in
        rw (same, e)
          (rd-wrmsr m g s (Kmod.perfevtsel0 + k) (filter_cfg k word) 0xFFFFFFFF00000000
            (holds.evtsel k hk) (reserved-perfevtsel g k few hk) (filter_cfg-lt k word))
    | inr other ↦ rw other (rd-wrmsr_ne m g s _ _ _ (holds.evtsel k hk) (ground arith))
  ]

  -- A round for fixed counter `i` sets its three low configuration bits and no other field.
  pub ff_configure_lem :
      (s : State) (i word k : ℕ)
      → i < g.pmc_ff
      → k < g.pmc_ff
      → ff_cnt_rd_cfg m g (ff_configure m g s i word) k
        ≡ (if k == i then word % 8 else ff_cnt_rd_cfg m g s k)
  unfolding ff_configure
  ff_configure_lem s i word k hi hk =
      let u = ff_cnt_wr_enb m g s i 0 in
      let t = ff_cnt_wr_cfg m g u i word in
      ground (
        arith,
        ff_view_enb t i 1 k,
        ff_cnt_rd_cfg-ff_cnt_wr_cfg m g few few_ff holds.ctrl u i k word hi hk,
        ff_view_enb s i 0 k,
      )

  pub gp_configure_lem :
      (s : State) (i word k : ℕ)
      → i < g.pmc_gp
      → k < g.pmc_gp
      → gp_cnt_rd_cfg m g (gp_configure m g s i word) k
        ≡ (if k == i then gp_merge k word (gp_cnt_rd_cfg m g s k) else gp_cnt_rd_cfg m g s k)
  unfolding gp_configure
  gp_configure_lem s i word k hi hk =
      let u = gp_cnt_wr_enb m g s i 0 in
      let t = gp_cnt_wr_cfg m g u i word in
      ground (arith, gp_view_enb t i 1 k hk, gp_view_cfg u i word k hi hk, gp_view_enb s i 0 k hk)

  pub ff_configure-keeps :
      (s : State) (i word k : ℕ)
      → k < g.pmc_gp
      → gp_cnt_rd_cfg m g (ff_configure m g s i word) k ≡ gp_cnt_rd_cfg m g s k
  unfolding ff_configure
  ff_configure-keeps s i word k hk =
      let u = ff_cnt_wr_enb m g s i 0 in
      let t = ff_cnt_wr_cfg m g u i word in
      ground
        (arith, gp_view_ff_enb t i 1 k hk, gp_view_ff_cfg u i word k hk, gp_view_ff_enb s i 0 k hk)

  pub gp_configure-keeps :
      (s : State) (i word k : ℕ)
      → i < g.pmc_gp
      → ff_cnt_rd_cfg m g (gp_configure m g s i word) k ≡ ff_cnt_rd_cfg m g s k
  unfolding gp_configure
  gp_configure-keeps s i word k hi =
      let u = gp_cnt_wr_enb m g s i 0 in
      let t = gp_cnt_wr_cfg m g u i word in
      ground (arith, ff_view_gp_enb t i 1 k, ff_view_gp_cfg u i word k hi, ff_view_gp_enb s i 0 k)
