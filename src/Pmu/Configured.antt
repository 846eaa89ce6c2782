-- ===== src/Pmu/Configured.antt =====
-- What the configurations that the probe writes are in the registers.
use perf_hound.Prelude.{
  ℕ, ◌+◌, ◌-◌, ◌*◌, ◌/◌, ◌%◌, ◌^◌, ◌≤◌, ◌<◌, ◌≡◌, refl, ap, ◌∙◌, arith, List, length, length-map,
  get_elem?, get_elem?-lt, get_or-map, map, some, get_or, inl, inr, if◌then◌else◌, Bytes, true,
  false, ltb,
}
use perf_hound.Prelude.Run.{done, ◌>>=◌}
use perf_hound.Bits.{◌>>>◌}
use perf_hound.Kmod.{Globals}
use perf_hound.Kmod.Msr.{MsrFile}
use perf_hound.Kmod.Counters.{filter_cfg, gp_cnt_rd_cfg}
use perf_hound.Kmod.Counters.General.{allowed}
use perf_hound.Kmod.Sysfs.{Reply, reasonable, ff_rounds, gp_rounds, clamp_range}
use perf_hound.Kmod.Sysfs.Range.{IsProbeAbi, reasonable_lem, selected}
use perf_hound.Kmod.Sysfs.Write.{cfg_wr_lem, cfg_wr-bytes, word_for}
use perf_hound.Kmod.Sysfs.Write.Rounds.{HoldsConfig, gp_merge}
use perf_hound.Event.Parse.{parse_cfg}
use perf_hound.Event.Kept.{filter_cfg-parse_cfg, word-lt}
use perf_hound.Event.Result.{parse_cfg-IsEventWord}
use perf_hound.Kmod.Msr.{blend, bit-blend}
use perf_hound.Kmod.Counters.General.{bit-high_mask}
use perf_hound.Bits.Shift.{bit-mod, bits_ext_all, bit_above}
use perf_hound.Pmu.{Answer, answer, wr_cfgs}

low-blend : (new old : ℕ) → new < 2 ^ 32 → blend 0xFFFFFFFF00000000 new old % 2 ^ 32 ≡ new
low-blend new old h = bits_ext_all _ _ λ j. ground (
  arith,
  bit-mod j 32 (blend 0xFFFFFFFF00000000 new old),
  bit-blend 0xFFFFFFFF00000000 new old j (omega arith),
  bit-high_mask j,
  bit_above j 32 new h,
)

parse_cfg-lt : (name : Bytes) → parse_cfg name < 2 ^ 32
parse_cfg-lt name = elim (parse_cfg-IsEventWord name) [
  | inl refused ↦ omega arith
  | inr word ↦ word-lt (parse_cfg name) word
]

-- The lower half of a register that is configured with a parsed name.
low-parsed :
    (i : ℕ) (name : Bytes) (old : ℕ)
    → gp_merge i (parse_cfg name) old % 2 ^ 32 ≡ (
        if allowed i (parse_cfg name % 2 ^ 8) ((parse_cfg name >>> 8) % 2 ^ 8)
        then parse_cfg name
        else 0)
low-parsed i name old =
    low-blend (filter_cfg i (parse_cfg name)) old
      (ground (arith, filter_cfg-parse_cfg i name, parse_cfg-lt name))
    ∙ filter_cfg-parse_cfg i name

module _ (m : MsrFile) (g : Globals) (abi : IsProbeAbi g) (holds : HoldsConfig m g) where
  open m use {State}

  at_word :
      (s : State) (cfg : List ℕ) (i : ℕ)
      → (if selected (3 * 8) (8 * length cfg) (3 + i)
          then gp_merge i (word_for cfg (3 * 8) (3 + i)) (gp_cnt_rd_cfg m g s i)
          else gp_cnt_rd_cfg m g s i)
        ≡ (if ltb i (length cfg)
            then gp_merge i (get_or cfg i 0) (gp_cnt_rd_cfg m g s i)
            else gp_cnt_rd_cfg m g s i)
  at_word s cfg i =
      let chosen : selected (3 * 8) (8 * length cfg) (3 + i) ≡ ltb i (length cfg) = ground arith in
      let place : 3 + i - 3 * 8 / 8 ≡ i = omega arith in rw (chosen, place) refl

  all_rounds :
      (n : ℕ)
      → n ≤ g.pmc_gp
      → ((ff_rounds g (3 * 8) (8 * n)).1 + (gp_rounds g (3 * 8) (8 * n)).1) * 8 ≡ 8 * n
  unfolding ff_rounds gp_rounds clamp_range
  all_rounds n few = ground (arith, abi.start_ff, abi.end_ff, abi.start_gp, abi.end_gp)

  answered :
      (s t : State) (bytes n : ℕ)
      → bytes ≡ 8 * n
      → done (answer m g n s (Reply.moved bytes t)) ≡ done (Answer.ok, t)
  unfolding answer
  answered s t bytes n e =
      let enough : ltb bytes (8 * n) ≡ false = ground (arith, e) in rw enough refl

  -- `_ph_config_event`: word `i` goes to general counter `i`.
  pub wr_cfgs_lem :
      (s : State) (cfg : List ℕ)
      → length cfg ≤ g.pmc_gp
      → (t : State) × (wr_cfgs m g 3 (length cfg) cfg s ≡ done (Answer.ok, t))
        × ((i : ℕ)
            → i < g.pmc_gp
            → gp_cnt_rd_cfg m g t i ≡ (
                if ltb i (length cfg)
                then gp_merge i (get_or cfg i 0) (gp_cnt_rd_cfg m g s i)
                else gp_cnt_rd_cfg m g s i))
  unfolding wr_cfgs answer
  wr_cfgs_lem s cfg few =
      let n = length cfg in
      let fine : reasonable (3 * 8) (8 * n) ≡ true =
        (reasonable_lem (3 * 8) (8 * n)).1 (omega arith, omega arith, omega arith) in
      let (t, bytes, runs, ff, gp) =
        cfg_wr_lem m g abi holds s cfg (3 * 8) (8 * n) fine (omega arith) in
      let whole : bytes ≡ 8 * n =
        cfg_wr-bytes m g abi holds s t cfg (3 * 8) (8 * n) bytes fine runs ∙ all_rounds n few in
      (
        t,
        ap (λ r. r >>= λ x. done (answer m g n s x)) runs ∙ answered s t bytes n whole,
        λ i hi. gp i hi ∙ at_word s cfg i,
      )

  -- On a layout of three fixed and at most 22 general counters whose configuration registers hold
  -- what they are given, writing the words of at most as many event names as there are general
  -- counters answers that all is well, and then the lower half of the configuration of general
  -- counter i is the word that the parser makes of name i if that event may be counted there, and
  -- 0 otherwise.
  pub names-configured :
      (s : State) (names : List Bytes)
      → length names ≤ g.pmc_gp
      → (t : State) × (wr_cfgs m g 3 (length (map parse_cfg names)) (map parse_cfg names) s
          ≡ done (Answer.ok, t))
        × ((i : ℕ) (name : Bytes)
            → get_elem? names i ≡ some name
            → gp_cnt_rd_cfg m g t i % 2 ^ 32 ≡ (
                if allowed i (parse_cfg name % 2 ^ 8) ((parse_cfg name >>> 8) % 2 ^ 8)
                then parse_cfg name
                else 0))
  names-configured s names few =
      let size = length-map parse_cfg names in
      let (t, runs, gp) = wr_cfgs_lem s (map parse_cfg names) (omega arith) in
      (
        t,
        runs,
        λ i name here.
            let lt : i < length names = get_elem?-lt names i name here in
            let inside : ltb i (length (map parse_cfg names)) ≡ true = ground arith in
            ap (λ (x : ℕ). x % 2 ^ 32)
              (gp i (omega arith) ∙ rw (inside, get_or-map parse_cfg names i 0 name here) refl)
            ∙ low-parsed i name (gp_cnt_rd_cfg m g s i),
      )
