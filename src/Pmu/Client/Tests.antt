-- ===== src/Pmu/Client/Tests.antt =====
-- Loading and opening on the processor of Kmod/Demo with two CPUs, and a process whose table is a
-- list of descriptors.
use perf_hound.Prelude.{
  ℕ, ◌+◌, ◌^◌, ◌%◌, ◌/◌, ◌≡◌, ◌∙◌, refl, arith, Bool, true, false, not, ◌&&◌, ◌||◌, ◌==◌, leb, ltb,
  some_inj, ap, sym, Option, none, some, List, [], ◌∷◌, map, Bytes, if◌then◌else◌, All,
}
use perf_hound.Bits.{bit}
use perf_hound.Kmod.Demo.{memory, skylake, garbage}
use perf_hound.Kmod.Startup.{discover, init_cpuid}
use perf_hound.Kmod.Sysfs.Write.Rounds.{HoldsConfig}
use perf_hound.Kmod.Load.{
  Kernel, IsLawful, IsRdpmcOn, run_shell, module_init, enable_userspace_rdpmc,
}
use perf_hound.Kmod.Load.Clean.{IsCleared, module_init_lem}
use perf_hound.Pmu.{Answer}
use perf_hound.Pmu.Client.{Os, pmu_fini, pmu_init, open_files, some_closed, is_none}
use perf_hound.Pmu.Client.Closing.{pmu_fini-pmu_init}
use perf_hound.Pmu.Client.Ready.{pmu_init_lem}
use perf_hound.Pmu.Client.Loaded.{pmu_init-loaded}

record Machine : Type 0 where
  pub registers : List (ℕ → ℕ)
  pub cr4 : List ℕ
  pub files : Bool

abbrev kernel : Kernel memory
kernel = record {
  World = Machine;
  cpus = λ w. w.registers;
  cr4s = λ w. w.cr4;
  has_group = λ w. w.files;
  on_each_cpu = λ f w. record w { registers = map f w.registers };
  call_usermodehelper = λ argv envp w. (false, record w { cr4 = 0x1007F0 ∷ 0x1007F0 ∷ [] });
  create_group = λ w. (false, record w { files = true });
  chmod_file = λ name mode w. (false, w);
  remove_group = λ w. record w { files = false };
}

abbrev lawful : IsLawful memory kernel
lawful = record {
  on_each-cpus = λ f w. refl;
  on_each-group = λ f w. refl;
  helper-group = λ argv envp w. refl;
  create-cpus = λ w. refl;
  create-group = λ w e. refl;
  chmod-cpus = λ name mode w. refl;
  chmod-group = λ name mode w. refl;
  remove-cpus = λ w. refl;
  remove-group = λ w. refl;
}

abbrev off : Machine
off = record { registers = garbage ∷ garbage ∷ []; cr4 = 0 ∷ 0 ∷ []; files = false }

abbrev holds : HoldsConfig memory (discover skylake 0x2000)
holds = record { ctrl = tt; global = tt; evtsel = λ i h. tt }

module_init_lem_example :
    ((module_init memory kernel skylake 0x2000 off).1.files
      ≡ (module_init memory kernel skylake 0x2000 off).0)
    × ((module_init memory kernel skylake 0x2000 off).0 ≡ true
        → init_cpuid skylake 0x2000 ≡ some (discover skylake 0x2000))
    × (init_cpuid skylake 0x2000 ≡ some (discover skylake 0x2000)
        → All
            (IsCleared memory (discover skylake 0x2000))
            ((module_init memory kernel skylake 0x2000 off).1.registers))
module_init_lem_example = module_init_lem memory kernel lawful skylake 0x2000 off holds refl

rdpmc_on : IsRdpmcOn memory kernel
unfolding enable_userspace_rdpmc run_shell bit
rdpmc_on = record {
  set = λ w. (refl, (refl, tt));
  on_each-cr4s = λ f w. refl;
  create-cr4s = λ w. refl;
  chmod-cr4s = λ name mode w. refl;
}

-- The descriptors below `next` in use.
record Table : Type 0 where
  pub next : ℕ
  pub used : ℕ → Bool

abbrev table_is_open : Table → ℕ → Bool
table_is_open t f = ltb f t.next && t.used f

abbrev table_open : Bytes → Table → Option ℕ × Table
table_open path t = (some t.next, record { next = t.next + 1; used = λ f. f == t.next || t.used f })

abbrev table_close : ℕ → Table → Table
table_close fd t = record t { used = λ f. t.used f && not (f == fd) }

table_opened :
    (path : Bytes) (t u : Table) (fd f : ℕ)
    → table_open path t ≡ (some fd, u)
    → (table_is_open t fd ≡ false) × (table_is_open u f ≡ f == fd || table_is_open t f)
table_opened path t u fd f e =
    let same : t.next ≡ fd = some_inj (ap (λ r. r.0) e) in
    (rw same (ground arith), ap (λ r. table_is_open r.1 f) (sym e) ∙ rw (sym same) (ground arith))

table_not_opened :
    (path : Bytes) (t u : Table) (f : ℕ)
    → table_open path t ≡ (none, u)
    → table_is_open u f ≡ table_is_open t f
table_not_opened path t u f e = absurd (let g = ap (λ r. r.0) e in cc)

table_closed :
    (t : Table) (fd f : ℕ) → table_is_open (table_close fd t) f ≡ table_is_open t f && not (f == fd)
table_closed t fd f = ground arith

abbrev system : Os
system = record {
  Table = Table;
  open_file = table_open;
  close_file = table_close;
  is_open = table_is_open;
  opened = table_opened;
  not_opened = λ path t u f e. table_not_opened path t u f e;
  closed = table_closed;
}

abbrev streams : Table
streams = record { next = 3; used = λ f. true }

pmu_fini-pmu_init_example :
    let r = pmu_init system (discover skylake 0x2000) 0x1007F0 streams in
    (table_is_open (pmu_fini system r.1.0 r.1.1).1 4 ≡ table_is_open streams 4)
    × (r.0 ≡ Answer.open_sysfile → table_is_open r.1.1 4 ≡ table_is_open streams 4)
pmu_fini-pmu_init_example = pmu_fini-pmu_init system (discover skylake 0x2000) 0x1007F0 streams 4

pmu_init_lem_example : (pmu_init system (discover skylake 0x2000) 0x6F0 streams).0 ≡ (
    if some_closed (open_files system streams).0
    then Answer.open_sysfile
    else if bit 8 0x6F0 == 0
    then Answer.cr4_pce_not_set
    else if leb 3 (0x603 % 32) && leb 4 (0x07300404 / 2 ^ 8 % 256)
    then Answer.ok
    else Answer.reading_masks)
pmu_init_lem_example = pmu_init_lem system skylake 0x2000 0x6F0 streams

module_loads : (module_init memory kernel skylake 0x2000 off).0 ≡ true
unfolding module_init init_cpuid
module_loads = refl

pmu_init-loaded_example : (pmu_init system (discover skylake 0x2000) 0x1007F0 streams).0 ≡ (
    if some_closed (open_files system streams).0
    then Answer.open_sysfile
    else if leb 3 (0x603 % 32) && leb 4 (0x07300404 / 2 ^ 8 % 256)
    then Answer.ok
    else Answer.reading_masks)
unfolding module_init init_cpuid enable_userspace_rdpmc run_shell
pmu_init-loaded_example =
    pmu_init-loaded memory kernel rdpmc_on system skylake 0x2000 off streams 1 0x1007F0 module_loads
      refl

answers_ok : (pmu_init system (discover skylake 0x2000) 0x1007F0 streams).0 ≡ Answer.ok
unfolding module_init init_cpuid enable_userspace_rdpmc run_shell open_files some_closed is_none
answers_ok =
    pmu_init-loaded memory kernel rdpmc_on system skylake 0x2000 off streams 1 0x1007F0 module_loads
      refl
