-- ===== src/Pmu/Client/Ready.antt =====
-- What `ph_pmu_init` answers, told by the processor.
use perf_hound.Prelude.{
  ℕ, ◌+◌, ◌-◌, ◌/◌, ◌%◌, ◌^◌, ◌≡◌, ◌↔◌, min, ◌∙◌, sym, ap, arith, true, ◌&&◌, ◌==◌, leb,
  if◌then◌else◌, take, Bool-cases, inl, inr,
}
use perf_hound.Bits.{bit, ◌&&&◌, ◌>>>◌}
use perf_hound.Bits.Logic.{bit-and, bit-zero, bit-le-one}
use perf_hound.Bits.Shift.{bits_ext_all, bit-mul_pow, bit-one}
use perf_hound.Bits.Fields.{and-mask}
use perf_hound.Kmod.Startup.{Leaves, discover}
use perf_hound.Kmod.Sysfs.{reasonable, msk_rd, ff_rounds, gp_rounds, clamp_range}
use perf_hound.Kmod.Sysfs.Range.{read_words-bytes, reasonable_lem}
use perf_hound.Pmu.{Answer}
use perf_hound.Pmu.Client.{
  Os, cr4_pce_rd, not_set, whole_masks, open_files, some_closed, check_files, pmu_init,
}

bit-0x100 : (i : ℕ) → bit i 0x100 ≡ (if i == 8 then 1 else 0)
bit-0x100 i = bit-mul_pow i 8 1 ∙ ground (arith, bit-one (i - 8))

bit-and_0x100 : (v i : ℕ) → bit i (v &&& 0x100) ≡ (if i == 8 then bit 8 v else 0)
bit-and_0x100 v i = bit-and i v 0x100 ∙ grind (arith, bit-0x100 i, bit-le-one i v)

and_0x100-zero : (v : ℕ) → (v &&& 0x100 ≡ 0) ↔ (bit 8 v ≡ 0)
and_0x100-zero v = (
  λ e. sym (bit-and_0x100 v 8) ∙ ap (bit 8) e ∙ bit-zero 8,
  λ e. bits_ext_all _ 0 λ i. ground (arith, bit-and_0x100 v i, bit-zero i),
)

not_set_lem : (cr4 : ℕ) → not_set (take 1 (cr4_pce_rd cr4)) ≡ (bit 8 cr4 == 0)
unfolding not_set cr4_pce_rd
not_set_lem cr4 = elim (Bool-cases (cr4 &&& 0x100 == 0)) [
  | inl off ↦ rw off (ground (arith, and_0x100-zero cr4))
  | inr on ↦ rw on (ground (arith, and_0x100-zero cr4))
]

-- The bytes of the masks that the first 56 of the file have.
rounds_lem :
    (l : Leaves) (cap : ℕ)
    → let g = discover l cap in
      ((ff_rounds g 0 56).1 + (gp_rounds g 0 56).1)
      ≡ min 3 (l.leaf_a_d % 32) + min 4 (l.leaf_a_a / 2 ^ 8 % 256)
unfolding ff_rounds gp_rounds clamp_range discover
rounds_lem l cap = ground (arith, and-mask 5 l.leaf_a_d, and-mask 8 (l.leaf_a_a >>> 8))

-- 56 bytes of masks are answered if there are three fixed counters and four others at least.
masks_lem :
    (l : Leaves) (cap : ℕ)
    → whole_masks (msk_rd (discover l cap) 0 56)
      ≡ (leb 3 (l.leaf_a_d % 32) && leb 4 (l.leaf_a_a / 2 ^ 8 % 256))
unfolding whole_masks msk_rd
masks_lem l cap =
    let g = discover l cap in
    let ok : reasonable 0 56 ≡ true = ground (arith, reasonable_lem 0 56) in
    let (words, e) = read_words-bytes g (λ _. g.pmc_ff_mask) (λ _. g.pmc_gp_mask) 0 56 ok in
    rw (e, rounds_lem l cap) (ground arith)

-- If the module works with what `ph_pmu_init_cpuid` found on the processor, `ph_pmu_init` answers,
-- in this order, that a file does not open, that the CPU's control register 4 has bit 8 clear,
-- that the masks cannot be read, which is so with less than three fixed or less than four general
-- counters, or else that all is well.
pub pmu_init_lem :
    (o : Os) (l : Leaves) (cap cr4 : ℕ) (t : o.Table)
    → (pmu_init o (discover l cap) cr4 t).0 ≡ (
        if some_closed (open_files o t).0
        then Answer.open_sysfile
        else if bit 8 cr4 == 0
        then Answer.cr4_pce_not_set
        else if leb 3 (l.leaf_a_d % 32) && leb 4 (l.leaf_a_a / 2 ^ 8 % 256)
        then Answer.ok
        else Answer.reading_masks)
unfolding pmu_init check_files
pmu_init_lem o l cap cr4 t = rw (not_set_lem cr4, masks_lem l cap) (ground arith)
