-- ===== src/Pmu/Client/Loaded.antt =====
-- `ph_pmu_init` on a machine on which the kernel module has been loaded.
use perf_hound.Prelude.{
  ℕ, ◌/◌, ◌%◌, ◌^◌, ◌≡◌, ◌∙◌, refl, sym, ap, subst, arith, true, Bool-cases, inl, inr, some, All,
  All-get_elem?, get_elem?, ◌&&◌, leb, if◌then◌else◌, Option-cases,
}
use perf_hound.Bits.{bit}
use perf_hound.Kmod.{Globals}
use perf_hound.Kmod.Msr.{MsrFile}
use perf_hound.Kmod.Startup.{Leaves, discover, init_cpuid, init_counters}
use perf_hound.Kmod.Load.{
  Kernel, IsRdpmcOn, enable_userspace_rdpmc, make_files, begin_module, module_init,
}
use perf_hound.Kmod.Load.Clean.{module_init-refused, module_init-accepted}
use perf_hound.Pmu.{Answer}
use perf_hound.Pmu.Client.{Os, some_closed, open_files, pmu_init}
use perf_hound.Pmu.Client.Ready.{pmu_init_lem}

module _ (m : MsrFile) (k : Kernel m) (on : IsRdpmcOn m k) where
  open k use {World, cr4s, on_each_cpu}

  make_files-cr4s : (w : World) → cr4s (make_files m k w).1 ≡ cr4s w
  unfolding make_files
  make_files-cr4s w =
      on.chmod-cr4s _ _ _
      ∙ on.chmod-cr4s _ _ _
      ∙ on.chmod-cr4s _ _ _
      ∙ on.chmod-cr4s _ _ _
      ∙ on.create-cr4s w

  begin_module-cr4s :
      (g : Globals) (w : World)
      → (begin_module m k g w).0 ≡ true
      → All (λ v. bit 8 v ≡ 1) (cr4s (begin_module m k g w).1)
  unfolding begin_module
  begin_module-cr4s g w loaded =
      let v = on_each_cpu (init_counters m g) (enable_userspace_rdpmc m k w) in
      elim (Bool-cases (make_files m k v).0) [
        | inl bad ↦ absurd (ground (arith, bad))
        | inr good ↦ rw good (
            subst (All (λ v. bit 8 v ≡ 1)) (sym (make_files-cr4s v ∙ on.on_each-cr4s _ _))
              (on.set w))
      ]

  module_init-cr4s :
      (l : Leaves) (cap : ℕ) (w : World)
      → (module_init m k l cap w).0 ≡ true
      → All (λ v. bit 8 v ≡ 1) (cr4s (module_init m k l cap w).1)
  module_init-cr4s l cap w loaded = elim (Option-cases (init_cpuid l cap)) [
    | inl e ↦ absurd (let f = ap (λ r. r.0) (module_init-refused m k l cap w e) in cc)
    | inr (g, e) ↦
        let f = module_init-accepted m k l cap g w e in
        rw f (begin_module-cr4s g _ (sym (ap (λ r. r.0) f) ∙ loaded))
  ]

  -- When the program that switches user-space reading of the counters on does so, then behind a
  -- successful loading of the module, `ph_pmu_init` on any CPU answers that a file does not open
  -- if one does not, otherwise that all is well if the processor has three fixed and four general
  -- counters at least, and otherwise that the masks cannot be read.
  pub pmu_init-loaded :
      (o : Os) (l : Leaves) (cap : ℕ) (w : World) (t : o.Table) (i cr4 : ℕ)
      → (module_init m k l cap w).0 ≡ true
      → get_elem? (cr4s (module_init m k l cap w).1) i ≡ some cr4
      → (pmu_init o (discover l cap) cr4 t).0 ≡ (
          if some_closed (open_files o t).0
          then Answer.open_sysfile
          else if leb 3 (l.leaf_a_d % 32) && leb 4 (l.leaf_a_a / 2 ^ 8 % 256)
          then Answer.ok
          else Answer.reading_masks)
  pmu_init-loaded o l cap w t i cr4 loaded here =
      let set : bit 8 cr4 ≡ 1 =
        All-get_elem? (λ v. bit 8 v ≡ 1) (cr4s (module_init m k l cap w).1) i
          (module_init-cr4s l cap w loaded) here in
      pmu_init_lem o l cap cr4 t ∙ rw set refl
