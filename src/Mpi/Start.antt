-- ===== src/Mpi/Start.antt =====
-- `phmpi_init` of src/probe/ph_mpi.c with `ph_mpi_rank_init` of src/probe/mpi_op.c: what all ranks
-- do to the file system, and what each rank begins with.
pub mod Ranks
pub mod Whole
use perf_hound.Prelude.{
  ℕ, zero, suc, Bool, not, ◌&&◌, List, [], ◌∷◌, Bytes, codes, Option, none, some, if◌then◌else◌,
}
use perf_hound.Prelude.Run.{Run, done, exited, fault, ◌>>=◌}
use perf_hound.Probe.{Machine, Mode, Rec, State}
use perf_hound.Probe.Paths.{Os}
use perf_hound.Probe.Paths.Directory.{mkdir_path}
use perf_hound.Probe.Paths.Names.{Names, no_names, mkname, mkfile, mkhost}
use perf_hound.Probe.Setup.{Process, wtrankmap}
use perf_hound.Probe.Setup.Begin.{begun_state}
use perf_hound.Mpi.{phmpi_set_tag}

-- `ph_mpi_rank_init`, given the size, the rank, the processor and the host.
unfoldable pub rank_init : ℕ → ℕ → ℕ → Bytes → Process → Process
rank_init np in_ cpu host p = record p {
  rank = in_;
  nrank = np;
  cpu = cpu;
  head = 0;
  iorank = in_;
  host = host;
}

module _ (os : Os) where
  -- Each rank makes the names of its run, between the two barriers.
  unfoldable pub name_rank : ℕ × Names → Run Names
  name_rank (zero, n) = done n
  name_rank (suc e, n) = exited 1

  unfoldable pub name_ranks : ℕ → Bytes → List Process → os.State → Run (List Names)
  name_ranks fuel root [] s = done []
  name_ranks fuel root (p ∷ ps) s = do
    r ← mkname os fuel root p no_names s
    n ← name_rank r
    ns ← name_ranks fuel root ps s
    done (n ∷ ns)

  -- The directories of the hosts, in the order of the ring.
  unfoldable pub next_host : ℕ × os.State → Run os.State
  next_host (zero, s) = done s
  next_host (suc e, s) = exited 1

  unfoldable pub host_ranks : List Names → os.State → Run os.State
  host_ranks [] s = done s
  host_ranks (n ∷ ns) s = do t ← next_host (mkhost os n s); host_ranks ns t

  -- Rank 0 makes the root, and later the files; an error of any rank ends the program.
  unfoldable pub make_run : List Names → os.State → Run (List Names × os.State)
  make_run [] s = fault
  make_run (n ∷ ns) s = do
    f ← mkfile os n s
    t ← next_host f
    u ← host_ranks (n ∷ ns) t
    done (n ∷ ns, u)

  unfoldable pub make_trees : ℕ → Bytes → List Process → os.State → Run (List Names × os.State)
  make_trees fuel root ps s = do
    m ← mkdir_path os root s
    t ← next_host m
    ns ← name_ranks fuel root ps t
    make_run ns t

module _ (h : Machine) (o : Mode) where
  -- What a rank begins with, given whether its directories and files and the counters can be had,
  -- and the memory of the buffer. Its line in the rank map is written in the ring.
  unfoldable pub phmpi_init :
      ℕ
      → Process
      → (tree_ok pmu_ok : Bool) → Option (ℕ → Rec h)
      → (info : Bytes) → h.Pmu
      → Run (State h)
  phmpi_init bufsize p tree_ok pmu_ok none info pmu = exited 1
  phmpi_init bufsize p tree_ok pmu_ok (some memory) info pmu =
      if not (tree_ok && pmu_ok)
      then exited 1
      else (let tag = phmpi_set_tag h o p.rank in
          done (
            (tag 0 4 (codes "PH Wt End") (
              (tag 0 3 (codes "PH Wt Start") (
                (tag 0 2 (codes "PH End") (
                  (tag 0 1 (codes "PH Start") (
                    (tag 0 0 (codes "PHGroup") (
                      wtrankmap h o p
                        (begun_state h o bufsize memory info pmu))).1)).1)).1)).1)).1))
