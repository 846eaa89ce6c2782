-- ===== src/Kmod/Sysfs/Read.antt =====
-- The reading handlers: which value stands at which place of the answer, also after a write.
use perf_hound.Prelude.{
  ℕ, ◌+◌, ◌-◌, ◌/◌, ◌%◌, ◌≤◌, ◌<◌, ◌≡◌, subst, List, true, arith, ltb, if◌then◌else◌, length,
}
use perf_hound.Prelude.Run.{done}
use perf_hound.Kmod.{Globals}
use perf_hound.Kmod.Msr.{MsrFile}
use perf_hound.Kmod.Counters.{ff_cnt_rd_cfg, ff_cnt_rd_val, gp_cnt_rd_cfg, gp_cnt_rd_val}
use perf_hound.Kmod.Sysfs.{reasonable, moved, cfg_rd, cfg_wr, msk_rd, cnt_rd}
use perf_hound.Kmod.Sysfs.Range.{IsProbeAbi, selected, WordAt, sysfs_word, read_words_lem}
use perf_hound.Kmod.Sysfs.Write.{word_for, cfg_wr_lem}
use perf_hound.Kmod.Sysfs.Write.Rounds.{HoldsConfig, gp_merge}

module _ (m : MsrFile) (g : Globals) (abi : IsProbeAbi g) where
  open m use {State}

  -- On a layout of three fixed and at most 22 general counters, in the answers of the
  -- configuration, mask and value readers to a reasonable request the word of each selected
  -- counter stands at its distance from the first counter of the request.
  pub readers_lem :
      (s : State) (off len k : ℕ)
      → reasonable off len ≡ true
      → selected off len k ≡ true
      → k < 3 + g.pmc_gp
      → let p = k - off / 8 in
        WordAt (cfg_rd m g s off len) p (sysfs_word (ff_cnt_rd_cfg m g s) (gp_cnt_rd_cfg m g s) k)
        × WordAt (msk_rd g off len) p (sysfs_word (λ _. g.pmc_ff_mask) (λ _. g.pmc_gp_mask) k)
        × WordAt (cnt_rd m g s off len) p (sysfs_word (ff_cnt_rd_val m g s) (gp_cnt_rd_val m g s) k)
  unfolding cfg_rd msk_rd cnt_rd
  readers_lem s off len k ok chosen in_range = (
    read_words_lem g abi off len _ _ k ok chosen in_range,
    read_words_lem g abi off len _ _ k ok chosen in_range,
    read_words_lem g abi off len _ _ k ok chosen in_range,
  )

  -- On a layout of three fixed and at most 22 general counters whose configuration registers hold
  -- what they are given, a configuration request with both numbers multiples of 8 and its words in
  -- the buffer succeeds, and reading the same range back gives, for each selected counter, the low
  -- three bits of its word if it is fixed, and otherwise the upper half of its old register with
  -- the lower half of its filtered word.
  pub cfg_rd-cfg_wr :
      (s : State) (buf : List ℕ) (off len : ℕ)
      → HoldsConfig m g
      → reasonable off len ≡ true
      → len / 8 ≤ length buf
      → (t : State) × (bytes : ℕ) × (cfg_wr m g s buf off len ≡ done (moved bytes t))
        × ((k : ℕ)
            → selected off len k ≡ true
            → k < 3 + g.pmc_gp
            → WordAt (cfg_rd m g t off len) (k - off / 8) (
                if ltb k 3
                then word_for buf off k % 8
                else gp_merge (k - 3) (word_for buf off k) (gp_cnt_rd_cfg m g s (k - 3))))
  cfg_rd-cfg_wr s buf off len holds ok enough =
      let (t, bytes, runs, ff, gp) = cfg_wr_lem m g abi holds s buf off len ok enough in
      (
        t,
        bytes,
        runs,
        λ k chosen in_range.
            subst (λ (v : ℕ). WordAt (cfg_rd m g t off len) (k - off / 8) v)
              (ground (arith, ff k, gp (k - 3))) (readers_lem t off len k ok chosen in_range).0,
      )
