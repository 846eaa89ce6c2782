-- ===== src/Kmod/Sysfs.antt =====
-- The sysfs attributes `config`, `masks` and `counts` of src/kmod/x86/enable_pmu_x86.c.
-- An offset is the bit pattern of a `loff_t`; sysfs calls a handler with offset and length inside
-- the 200 bytes of the attribute, so the casts of `off>>3` and `len>>3` to `int` cut nothing off.
pub mod Range
pub mod Write
pub mod Read
use perf_hound.Prelude.{
  ℕ, zero, suc, ◌+◌, ◌-◌, ◌*◌, ◌^◌, ◌&&◌, ◌||◌, not, Bool, Option, none, some, List, [], ◌∷◌, ◌++◌,
  ltb, leb, ◌==◌, if◌then◌else◌, length, get_elem?,
}
use perf_hound.Prelude.Run.{Run, done, ◌>>=◌, access}
use perf_hound.Bits.{◌&&&◌, ◌|||◌, ◌>>>◌}
use perf_hound.Kmod
use perf_hound.Kmod.{Globals}
use perf_hound.Kmod.Msr.{MsrFile}
use perf_hound.Kmod.Counters.{
  ff_cnt_wr_enb, ff_cnt_wr_cfg, ff_cnt_rd_cfg, ff_cnt_wr_val, ff_cnt_rd_val, gp_cnt_wr_enb,
  gp_cnt_wr_cfg, gp_cnt_rd_cfg, gp_cnt_wr_val, gp_cnt_rd_val,
}

-- `none` is the answer 0: no overlap.
unfoldable pub clamp_range : ℕ → ℕ → ℕ → ℕ → Option (ℕ × ℕ)
clamp_range off len start end =
    if leb (off + len) start || leb end off || leb len 0
    then none
    else some (if ltb off start then start else off, if ltb end (off + len) then end else off + len)

unfoldable pub is_aligned : ℕ → ℕ → ℕ → Bool
is_aligned off len mask = (off ||| len) &&& mask == 0

-- "Check access is reasonable": `len<0` cannot be, a `size_t` has no sign.
unfoldable pub reasonable : ℕ → ℕ → Bool
unfolding is_aligned
reasonable off len = is_aligned off len 0x7 && not (leb (2 ^ 63) off)

-- The loop bounds of a handler: the first counter of its kind and the number of rounds.
abbrev rounds : ℕ → Option (ℕ × ℕ) → ℕ × ℕ
rounds base none = (0, 0)
rounds base (some (start, end)) = (start - base, end - start)

unfoldable pub ff_rounds : Globals → ℕ → ℕ → ℕ × ℕ
unfolding clamp_range
ff_rounds g off len =
    rounds g.pmc_start_ff (clamp_range (off >>> 3) (len >>> 3) g.pmc_start_ff g.pmc_end_ff)

unfoldable pub gp_rounds : Globals → ℕ → ℕ → ℕ × ℕ
unfolding clamp_range
gp_rounds g off len =
    rounds g.pmc_start_gp (clamp_range (off >>> 3) (len >>> 3) g.pmc_start_gp g.pmc_end_gp)

-- The answer -1, or the number of bytes moved.
pub data Reply {ℓ} (A : Type ℓ) : Type ℓ where
  refused : Reply A
  moved : ℕ → A → Reply A

-- `for(i=pmcStart;i<pmcEnd;i++,j++) buf64[j] = f(i)`, with the rounds left and `i`.
pub fill {ℓ} : {A : Type ℓ} → (ℕ → A) → ℕ → ℕ → List A
fill f zero i = []
fill f (suc n) i = f i ∷ fill f n (i + 1)

-- `for(i=pmcStart;i<pmcEnd;i++,j++) f(i, buf64[j])`.
pub store_each {ℓ} : {S : Type ℓ} → List ℕ → (S → ℕ → ℕ → S) → ℕ → ℕ → ℕ → S → Run S
store_each buf f zero i j s = done s
store_each buf f (suc n) i j s = do
  word ← access (get_elem? buf j)
  store_each buf f n (i + 1) (j + 1) (f s i word)

-- What the reading handlers share: both loops fill the buffer from its start.
pub read_words : Globals → (ℕ → ℕ) → (ℕ → ℕ) → ℕ → ℕ → Reply (List ℕ)
read_words g ff gp off len =
    if not (reasonable off len)
    then refused
    else let (ff_start, ff_count) = ff_rounds g off len in
      let (gp_start, gp_count) = gp_rounds g off len in
      let words = fill ff ff_count ff_start ++ fill gp gp_count gp_start in
      moved (length words * 8) words

-- What the writing handlers share: the second loop goes on in the buffer where the first ended.
pub write_words {ℓ} :
    {S : Type ℓ} → Globals → (S → ℕ → ℕ → S) → (S → ℕ → ℕ → S) → S → List ℕ → ℕ → ℕ → Run (Reply S)
write_words g ff gp s buf off len =
    if not (reasonable off len)
    then done refused
    else let (ff_start, ff_count) = ff_rounds g off len in
      let (gp_start, gp_count) = gp_rounds g off len in
      (do
        t ← store_each buf ff ff_count ff_start 0 s
        u ← store_each buf gp gp_count gp_start ff_count t
        done (moved ((ff_count + gp_count) * 8) u))

unfoldable pub msk_rd : Globals → ℕ → ℕ → Reply (List ℕ)
unfolding read_words
msk_rd g off len = read_words g (λ _. g.pmc_ff_mask) (λ _. g.pmc_gp_mask) off len

module _ (m : MsrFile) (g : Globals) where
  open m use {State}

  unfoldable pub cfg_rd : State → ℕ → ℕ → Reply (List ℕ)
  unfolding read_words
  cfg_rd s off len = read_words g (ff_cnt_rd_cfg m g s) (gp_cnt_rd_cfg m g s) off len

  -- One round of `pfcCfgWr` for a fixed counter.
  unfoldable pub ff_configure : State → ℕ → ℕ → State
  ff_configure s i word =
      let t = ff_cnt_wr_cfg m g (ff_cnt_wr_enb m g s i 0) i word in
      if ff_cnt_rd_cfg m g t i &&& 0x2 == 0 then t else ff_cnt_wr_enb m g t i 1

  -- One round of `pfcCfgWr` for a general-purpose counter.
  unfoldable pub gp_configure : State → ℕ → ℕ → State
  gp_configure s i word =
      let t = gp_cnt_wr_cfg m g (gp_cnt_wr_enb m g s i 0) i word in
      if gp_cnt_rd_cfg m g t i &&& 0x00400000 == 0 then t else gp_cnt_wr_enb m g t i 1

  unfoldable pub cfg_wr : State → List ℕ → ℕ → ℕ → Run (Reply State)
  unfolding write_words
  cfg_wr s buf off len = write_words g ff_configure gp_configure s buf off len

  unfoldable pub cnt_rd : State → ℕ → ℕ → Reply (List ℕ)
  unfolding read_words
  cnt_rd s off len = read_words g (ff_cnt_rd_val m g s) (gp_cnt_rd_val m g s) off len

  unfoldable pub cnt_wr : State → List ℕ → ℕ → ℕ → Run (Reply State)
  unfolding write_words
  cnt_wr s buf off len = write_words g (ff_cnt_wr_val m g) (gp_cnt_wr_val m g) s buf off len
