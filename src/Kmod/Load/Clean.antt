-- ===== src/Kmod/Load/Clean.antt =====
-- Loading the module does all of it or leaves no files, and starts every CPU with clear counters.
use perf_hound.Prelude.{
  ℕ, ◌≡◌, ◌∙◌, ◌≤◌, ◌<◌, refl, sym, ap, subst, arith, Bool, Bool-cases, true, false, inl, inr, none,
  some, List, [], ◌∷◌, map, All, ◌||◌, ltb, ◌==◌, Option-cases, if◌then◌else◌, some_inj,
}
use perf_hound.Bits.{bit, ◌&&&◌, ◌>>>◌}
use perf_hound.Bits.Fields.{and-mask}
use perf_hound.Kmod
use perf_hound.Kmod.{Globals}
use perf_hound.Kmod.Msr.{MsrFile}
use perf_hound.Kmod.Counters.{ff_cnt_rd_cfg, gp_cnt_rd_cfg}
use perf_hound.Kmod.Counters.Enable.{enable_bit}
use perf_hound.Kmod.Sysfs.Write.Rounds.{HoldsConfig}
use perf_hound.Kmod.Startup.{Leaves, arch_version, discover, init_cpuid, init_counters}
use perf_hound.Kmod.Startup.Cpuid.{discover-WithinLimits}
use perf_hound.Kmod.Startup.Cleared.{init_counters_lem}
use perf_hound.Kmod.Load.{
  Kernel, IsLawful, run_shell, clear_watchdog_conflicts, enable_userspace_rdpmc, module_exit,
  make_files, begin_module, module_init,
}

-- On this CPU every enable bit is clear, every fixed counter has configuration 0 and every event
-- selection has its lower half 0.
abbrev pub IsCleared : (m : MsrFile) → Globals → m.State → Type 0
IsCleared m g t =
    ((j : ℕ) → j < 64 → enable_bit g j ≡ true → bit j (m.rd t Kmod.perf_global_ctrl) ≡ 0)
    × ((k : ℕ) → k < g.pmc_ff → ff_cnt_rd_cfg m g t k ≡ 0)
    × ((k j : ℕ) → k < g.pmc_gp → j < 32 → bit j (gp_cnt_rd_cfg m g t k) ≡ 0)

map-All :
    {A B : Type 0} (P : B → Type 0) (f : A → B)
    → ((a : A) → P (f a))
    → (xs : List A) → All P (map f xs)
map-All P f h [] = tt
map-All P f h (x ∷ xs) = (h x, map-All P f h xs)

-- What passes three guards.
guarded :
    {A : Type 0} (a b c : Bool) (x y : A)
    → (if a then none else if b then none else if c then none else some x) ≡ some y
    → y ≡ x
guarded true b c x y e = absurd (cc)
guarded false true c x y e = absurd (cc)
guarded false false true x y e = absurd (cc)
guarded false false false x y e = sym (some_inj e)

pub init_cpuid-discover :
    (l : Leaves) (cap : ℕ) (g : Globals) → init_cpuid l cap ≡ some g → g ≡ discover l cap
unfolding init_cpuid
init_cpuid-discover l cap g e =
    guarded (ltb l.leaf0_a 0xA) ((l.leaf1_c >>> 15) &&& 1 == 0)
      (ltb (arch_version l) 3 || ltb 6 (arch_version l)) (discover l cap) g e

discover-few_hw : (l : Leaves) (cap : ℕ) → (discover l cap).pmc_ff_hw ≤ 31
unfolding discover
discover-few_hw l cap = omega (arith, and-mask 5 l.leaf_a_d)

pub module_init-refused :
    (m : MsrFile) (k : Kernel m) (l : Leaves) (cap : ℕ) (w : k.World)
    → init_cpuid l cap ≡ none
    → module_init m k l cap w ≡ (false, clear_watchdog_conflicts m k w)
unfolding module_init
module_init-refused m k l cap w e = rw (e, module_init) refl

pub module_init-accepted :
    (m : MsrFile) (k : Kernel m) (l : Leaves) (cap : ℕ) (g : Globals) (w : k.World)
    → init_cpuid l cap ≡ some g
    → module_init m k l cap w ≡ begin_module m k g (clear_watchdog_conflicts m k w)
unfolding module_init
module_init-accepted m k l cap g w e = rw (e, module_init) refl

module _ (m : MsrFile) (k : Kernel m) (law : IsLawful m k) where
  open k use {World, cpus, has_group, on_each_cpu}

  on_each-IsCleared :
      (l : Leaves) (cap : ℕ) (w : World)
      → let g = discover l cap in
        HoldsConfig m g → All (IsCleared m g) (cpus (on_each_cpu (init_counters m g) w))
  on_each-IsCleared l cap w holds =
      let g = discover l cap in
      let lim = discover-WithinLimits l cap in
      subst (All (IsCleared m g)) (sym (law.on_each-cpus (init_counters m g) w)) (
        map-All (IsCleared m g) (init_counters m g)
          (init_counters_lem m g lim.few_gp lim.few_ff (discover-few_hw l cap) holds) (cpus w))

  make_files-cpus : (w : World) → cpus (make_files m k w).1 ≡ cpus w
  unfolding make_files
  make_files-cpus w =
      law.chmod-cpus _ _ _
      ∙ law.chmod-cpus _ _ _
      ∙ law.chmod-cpus _ _ _
      ∙ law.chmod-cpus _ _ _
      ∙ law.create-cpus w

  make_files-group :
      (w : World) → (make_files m k w).0 ≡ false → has_group (make_files m k w).1 ≡ true
  unfolding make_files
  make_files-group w e =
      law.chmod-group _ _ _
      ∙ law.chmod-group _ _ _
      ∙ law.chmod-group _ _ _
      ∙ law.chmod-group _ _ _
      ∙ law.create-group w (ground arith)

  clear-group : (w : World) → has_group (clear_watchdog_conflicts m k w) ≡ has_group w
  unfolding clear_watchdog_conflicts run_shell
  clear-group w = law.helper-group _ _ _ ∙ law.helper-group _ _ _ ∙ law.helper-group _ _ w

  begin_module_lem :
      (l : Leaves) (cap : ℕ) (w : World)
      → HoldsConfig m (discover l cap)
      → let (loaded, u) = begin_module m k (discover l cap) w in
        (has_group u ≡ loaded) × All (IsCleared m (discover l cap)) (cpus u)
  unfolding begin_module module_exit
  begin_module_lem l cap w holds =
      let g = discover l cap in
      let v = on_each_cpu (init_counters m g) (enable_userspace_rdpmc m k w) in
      elim (Bool-cases (make_files m k v).0) [
        | inl bad ↦ rw bad (
          law.remove-group _,
          subst (All (IsCleared m g)) (sym (law.remove-cpus _)) (on_each-IsCleared l cap _ holds),
        )
        | inr good ↦ rw good (
          make_files-group v good,
          subst (All (IsCleared m g)) (sym (make_files-cpus v)) (on_each-IsCleared l cap _ holds),
        )
      ]

  -- When the files of the module are not there yet, then behind its loading, whatever that
  -- answers, they are there exactly if it succeeded; it succeeds only on a processor that the
  -- module accepts, and on such a processor, whose registers hold what they are given, behind it,
  -- even if it failed, every CPU has its enable bits and the configurations of its counters clear.
  pub module_init_lem :
      (l : Leaves) (cap : ℕ) (w : World)
      → HoldsConfig m (discover l cap)
      → has_group w ≡ false
      → let (loaded, u) = module_init m k l cap w in
        (has_group u ≡ loaded)
        × (loaded ≡ true → init_cpuid l cap ≡ some (discover l cap))
        × (init_cpuid l cap ≡ some (discover l cap) → All (IsCleared m (discover l cap)) (cpus u))
  module_init_lem l cap w holds fresh = elim (Option-cases (init_cpuid l cap)) [
    | inl e ↦
        rw (e, module_init-refused m k l cap w e)
          (clear-group w ∙ fresh, λ on. absurd (cc), λ on. absurd (cc))
    | inr (g, e) ↦
        let same : g ≡ discover l cap = init_cpuid-discover l cap g e in
        let found : init_cpuid l cap ≡ some (discover l cap) = e ∙ ap some same in
        let (files, clear) = begin_module_lem l cap (clear_watchdog_conflicts m k w) holds in
        rw (found, module_init-accepted m k l cap (discover l cap) w found)
          (files, λ on. refl, λ on. clear)
  ]
