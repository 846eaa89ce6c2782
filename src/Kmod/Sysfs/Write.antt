-- ===== src/Kmod/Sysfs/Write.antt =====
-- `pfcCfgWr` as a whole: which configurations a request changes, and what a reader sees afterwards.
pub mod Loop
pub mod Rounds
use perf_hound.Prelude.{
  ℕ, ◌+◌, ◌-◌, ◌*◌, ◌/◌, ◌%◌, ◌≤◌, ◌<◌, ◌≡◌, ◌∙◌, refl, sym, ap, List, true, arith, ltb, leb, ◌==◌,
  if◌then◌else◌, length, get_or, ◌&&◌, Bool,
}
use perf_hound.Prelude.Run.{Run, done, done_inj, bind-done, ◌>>=◌}
use perf_hound.Kmod.{Globals}
use perf_hound.Kmod.Msr.{MsrFile}
use perf_hound.Kmod.Counters.{ff_cnt_rd_cfg, gp_cnt_rd_cfg}
use perf_hound.Kmod.Sysfs.{
  reasonable, ff_rounds, gp_rounds, store_each, write_words, ff_configure, gp_configure, cfg_wr,
  cfg_rd, moved, Reply,
}
use perf_hound.Kmod.Sysfs.Range.{IsProbeAbi, selected, rounds_fit, ff_rounds_lem, gp_rounds_lem}
use Loop.{store_each_lem, store_each_keeps}
use Rounds.{
  HoldsConfig, gp_merge, ff_configure_lem, gp_configure_lem, ff_configure-keeps, gp_configure-keeps,
}

-- The word of the buffer that belongs to counter `k`.
abbrev pub word_for : List ℕ → ℕ → ℕ → ℕ
word_for buf off k = get_or buf (k - off / 8) 0

module _ (m : MsrFile) (g : Globals) (abi : IsProbeAbi g) (holds : HoldsConfig m g) where
  open m use {State}

  few : g.pmc_gp ≤ 25
  few = omega (arith, abi.gp)

  few_ff : g.pmc_ff ≤ 3
  few_ff = omega (arith, abi.ff)

  ff_loop :
      (s : State) (buf : List ℕ) (off len : ℕ)
      → len / 8 ≤ length buf
      → let n = (ff_rounds g off len).1 in
        let i = (ff_rounds g off len).0 in
        (t : State) × (store_each buf (ff_configure m g) n i 0 s ≡ done t)
        × ((k : ℕ)
            → k < 3
            → ff_cnt_rd_cfg m g t k
              ≡ (if selected off len k then word_for buf off k % 8 else ff_cnt_rd_cfg m g s k))
        × ((k : ℕ) → k < g.pmc_gp → gp_cnt_rd_cfg m g t k ≡ gp_cnt_rd_cfg m g s k)
  ff_loop s buf off len enough =
      let (i, n) = ff_rounds g off len in
      let bound : i + n ≤ g.pmc_ff = omega (arith, rounds_fit g abi off len, abi.ff) in
      let fits : 0 + n ≤ length buf = omega (arith, rounds_fit g abi off len) in
      let (t, runs, views) =
        store_each_lem buf (ff_configure m g) g.pmc_ff (ff_cnt_rd_cfg m g) (λ k w old. w % 8)
          (ff_configure_lem m g few few_ff holds) n i 0 s bound fits in
      (
        t,
        runs,
        λ k hk. ground (arith, views k (omega (arith, abi.ff)), ff_rounds_lem g abi off len k),
        λ k hk.
            store_each_keeps buf (ff_configure m g) g.pmc_ff (λ x. gp_cnt_rd_cfg m g x k)
              (λ x p w _. ff_configure-keeps m g few few_ff holds x p w k hk) n i 0 s t bound fits
              runs,
      )

  gp_loop :
      (s : State) (buf : List ℕ) (off len : ℕ)
      → len / 8 ≤ length buf
      → let n = (gp_rounds g off len).1 in
        let i = (gp_rounds g off len).0 in
        (t : State) × (store_each buf (gp_configure m g) n i (ff_rounds g off len).1 s ≡ done t)
        × ((k : ℕ)
            → k < g.pmc_gp
            → gp_cnt_rd_cfg m g t k ≡ (
                if selected off len (3 + k)
                then gp_merge k (word_for buf off (3 + k)) (gp_cnt_rd_cfg m g s k)
                else gp_cnt_rd_cfg m g s k))
        × ((k : ℕ) → ff_cnt_rd_cfg m g t k ≡ ff_cnt_rd_cfg m g s k)
  gp_loop s buf off len enough =
      let (i, n) = gp_rounds g off len in
      let j = (ff_rounds g off len).1 in
      let bound : i + n ≤ g.pmc_gp = omega (arith, rounds_fit g abi off len) in
      let fits : j + n ≤ length buf = omega (arith, rounds_fit g abi off len) in
      let (t, runs, views) =
        store_each_lem buf (gp_configure m g) g.pmc_gp (gp_cnt_rd_cfg m g) gp_merge
          (gp_configure_lem m g few few_ff holds) n i j s bound fits in
      (
        t,
        runs,
        λ k hk. views k hk ∙ ground (arith, gp_rounds_lem g abi off len k),
        λ k.
            store_each_keeps buf (gp_configure m g) g.pmc_gp (λ x. ff_cnt_rd_cfg m g x k)
              (λ x p w. gp_configure-keeps m g few few_ff holds x p w k) n i j s t bound fits runs,
      )

  -- On a layout of three fixed and at most 22 general counters whose configuration registers hold
  -- what they are given, a reasonable configuration request with its words in the buffer succeeds,
  -- configures each selected counter by its own word, and leaves the configuration of every other
  -- counter as it was.
  pub cfg_wr_lem :
      (s : State) (buf : List ℕ) (off len : ℕ)
      → reasonable off len ≡ true
      → len / 8 ≤ length buf
      → (t : State) × (bytes : ℕ) × (cfg_wr m g s buf off len ≡ done (moved bytes t))
        × ((k : ℕ)
            → k < 3
            → ff_cnt_rd_cfg m g t k
              ≡ (if selected off len k then word_for buf off k % 8 else ff_cnt_rd_cfg m g s k))
        × ((k : ℕ)
            → k < g.pmc_gp
            → gp_cnt_rd_cfg m g t k ≡ (
                if selected off len (3 + k)
                then gp_merge k (word_for buf off (3 + k)) (gp_cnt_rd_cfg m g s k)
                else gp_cnt_rd_cfg m g s k))
  unfolding cfg_wr
  cfg_wr_lem s buf off len ok enough =
      let (i, n) = ff_rounds g off len in
      let (j, l) = gp_rounds g off len in
      let (t, ff_runs, ff_views, gp_kept) = ff_loop s buf off len enough in
      let (u, gp_runs, gp_views, ff_kept) = gp_loop t buf off len enough in
      (
        u,
        (n + l) * 8,
        rw (ok, ff_runs) (rw gp_runs),
        λ k hk. ff_kept k ∙ ff_views k hk,
        λ k hk. ground (arith, gp_views k hk, gp_kept k hk),
      )

  bytes_of : Reply State → ℕ
  bytes_of Reply.refused = 0
  bytes_of (Reply.moved bytes t) = bytes

  two_loops :
      (x : Run State) (k : State → Run State) (b bytes : ℕ) (t : State)
      → (x >>= λ u. k u >>= λ v. done (moved b v)) ≡ done (moved bytes t)
      → bytes ≡ b
  unfolding bytes_of
  two_loops x k b bytes t e =
      let (u, first, rest) = bind-done x (λ u. k u >>= λ v. done (moved b v)) e in
      let (v, second, end) = bind-done (k u) (λ v. done (moved b v)) rest in
      sym (ap bytes_of (done_inj end))

  -- The answer to a reasonable configuration request tells the rounds of both loops, in bytes.
  pub cfg_wr-bytes :
      (s t : State) (buf : List ℕ) (off len bytes : ℕ)
      → reasonable off len ≡ true
      → cfg_wr m g s buf off len ≡ done (moved bytes t)
      → bytes ≡ ((ff_rounds g off len).1 + (gp_rounds g off len).1) * 8
  unfolding cfg_wr
  cfg_wr-bytes s t buf off len bytes ok runs =
      let (i, n) = ff_rounds g off len in
      let (j, l) = gp_rounds g off len in
      two_loops (store_each buf (ff_configure m g) n i 0 s)
        (λ u. store_each buf (gp_configure m g) l j n u) ((n + l) * 8) bytes t (rw ok at runs)
