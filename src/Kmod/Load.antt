-- ===== src/Kmod/Load.antt =====
-- `ph_enable_pmu_init` and `ph_enable_pmu_exit` of src/kmod/x86/enable_pmu_x86.c, the loading and
-- unloading of the module, with their helpers. The lines that only print are left out.
pub mod Clean
use perf_hound.Prelude.{
  ℕ, ◌≡◌, Bool, true, false, ◌||◌, not, Option, none, some, List, [], ◌∷◌, map, if◌then◌else◌,
  Bytes, codes, All,
}
use perf_hound.Bits.{bit}
use perf_hound.Kmod.{Globals}
use perf_hound.Kmod.Msr.{MsrFile}
use perf_hound.Kmod.Startup.{Leaves, init_cpuid, init_counters}

-- What the module takes from the kernel, with the registers and the control register 4 of each CPU: a function run on each CPU, a program of user space run
-- to its end, and the files of sysfs, which are made and removed as a group and given a mode one by
-- one. A Bool tells an answer other than 0.
pub record Kernel (m : MsrFile) : Type 1 where
  pub World : Type 0
  pub cpus : World → List m.State
  pub cr4s : World → List ℕ
  pub has_group : World → Bool
  pub on_each_cpu : (m.State → m.State) → World → World
  pub call_usermodehelper : List Bytes → List Bytes → World → Bool × World
  pub create_group : World → Bool × World
  pub chmod_file : Bytes → ℕ → World → Bool × World
  pub remove_group : World → World

-- What the module relies on: only `on_each_cpu` and programs of user space touch the registers that
-- it writes, and the files are there from their making, if that succeeds, to their removal.
pub record IsLawful (m : MsrFile) (k : Kernel m) : Type 0 where
  pub on_each-cpus :
      (f : m.State → m.State) (w : k.World) → k.cpus (k.on_each_cpu f w) ≡ map f (k.cpus w)
  pub on_each-group :
      (f : m.State → m.State) (w : k.World) → k.has_group (k.on_each_cpu f w) ≡ k.has_group w
  pub helper-group :
      (argv envp : List Bytes) (w : k.World)
      → k.has_group (k.call_usermodehelper argv envp w).1 ≡ k.has_group w
  pub create-cpus : (w : k.World) → k.cpus (k.create_group w).1 ≡ k.cpus w
  pub create-group :
      (w : k.World) → (k.create_group w).0 ≡ false → k.has_group (k.create_group w).1 ≡ true
  pub chmod-cpus :
      (name : Bytes) (mode : ℕ) (w : k.World) → k.cpus (k.chmod_file name mode w).1 ≡ k.cpus w
  pub chmod-group :
      (name : Bytes) (mode : ℕ) (w : k.World)
      → k.has_group (k.chmod_file name mode w).1 ≡ k.has_group w
  pub remove-cpus : (w : k.World) → k.cpus (k.remove_group w) ≡ k.cpus w
  pub remove-group : (w : k.World) → k.has_group (k.remove_group w) ≡ false

module _ (m : MsrFile) (k : Kernel m) where
  open k use {World, on_each_cpu, call_usermodehelper, create_group, chmod_file, remove_group}

  unfoldable pub run_shell : Bytes → World → Bool × World
  run_shell cmd w =
      call_usermodehelper (codes "/bin/sh" ∷ codes "-c" ∷ cmd ∷ [])
        (codes "HOME=/" ∷ codes "PATH=/sbin:/bin:/usr/sbin:/usr/bin" ∷ []) w

  unfoldable pub clear_watchdog_conflicts : World → World
  clear_watchdog_conflicts w =
      let w1 = (run_shell (codes "echo 0 > /proc/sys/kernel/nmi_watchdog 2>/dev/null") w).1 in
      let w2 = (run_shell (codes "modprobe -r iTCO_wdt 2>/dev/null") w1).1 in
      (run_shell (codes "modprobe -r iTCO_vendor_support 2>/dev/null") w2).1

  unfoldable pub enable_userspace_rdpmc : World → World
  enable_userspace_rdpmc w =
      (run_shell (codes "echo 2 > /sys/bus/event_source/devices/cpu/rdpmc 2>/dev/null") w).1

  unfoldable pub module_exit : Globals → World → World
  module_exit g w = remove_group (on_each_cpu (init_counters m g) w)

  -- What the line for `rdpmc` relies on: the program sets bit 8 of the control register 4 of every
  -- CPU, and the calls behind it keep that register.
  pub record IsRdpmcOn : Type 0 where
    pub set : (w : World) → All (λ v. bit 8 v ≡ 1) (k.cr4s (enable_userspace_rdpmc w))
    pub on_each-cr4s : (f : m.State → m.State) (w : World) → k.cr4s (on_each_cpu f w) ≡ k.cr4s w
    pub create-cr4s : (w : World) → k.cr4s (create_group w).1 ≡ k.cr4s w
    pub chmod-cr4s :
        (name : Bytes) (mode : ℕ) (w : World) → k.cr4s (chmod_file name mode w).1 ≡ k.cr4s w

  -- The five calls whose answers are joined in `ret`; the modes are 0666 and 0444.
  unfoldable pub make_files : World → Bool × World
  make_files w =
      let (r, w1) = create_group w in
      let (r1, w2) = chmod_file (codes "config") 0x1B6 w1 in
      let (r2, w3) = chmod_file (codes "masks") 0x124 w2 in
      let (r3, w4) = chmod_file (codes "counts") 0x1B6 w3 in
      let (r4, w5) = chmod_file (codes "cr4.pce") 0x124 w4 in (r || r1 || r2 || r3 || r4, w5)

  -- The part behind `ph_pmu_init_cpuid`, on what that found.
  unfoldable pub begin_module : Globals → World → Bool × World
  unfolding make_files module_exit
  begin_module g w =
      let (failed, u) = make_files (on_each_cpu (init_counters m g) (enable_userspace_rdpmc w)) in
      if failed then (false, module_exit g u) else (true, u)

  -- Whether the module is loaded, which is the answer 0, and the world behind that.
  unfoldable pub module_init : Leaves → ℕ → World → Bool × World
  unfolding clear_watchdog_conflicts begin_module
  module_init l cap w =
      let u = clear_watchdog_conflicts w in
      elim (init_cpuid l cap) [ none ↦ (false, u) | some g ↦ begin_module g u ]
