-- ===== src/Mpi/Tests.antt =====
-- Runs of the MPI library's readings on the machine of Probe/Demo.
use perf_hound.Prelude.{ℕ, ◌+◌, ◌≤◌, ◌≡◌, ◌↔◌, refl, arith, [], ◌∷◌, List, codes, true}
use perf_hound.Prelude.Run.{Run, done, fault}
use perf_hound.Probe.{Mode, State}
use perf_hound.Probe.Buffer.Put.{IsBuffer}
use perf_hound.Probe.Demo.{machine, fresh, blank, process}
use perf_hound.Mpi.{phmpi_fastread, phmpi_read}
use perf_hound.Probe.Number.{decimal, print_digits}
use perf_hound.Probe.Paths.Disk.{Disk, disk, disk-IsLawful, exists, same, text_at}
use perf_hound.Probe.Paths.Directory.{mkdir_path, make, walk, walk_path, expanded}
use perf_hound.Probe.Paths.Names.{
  Names, names_of, run_name, named, mkname, find_run, mkfile, in_project, in_run, make_files,
  or_stop, mkhost,
}
use perf_hound.Probe.Setup.{Process}
use perf_hound.Mpi.Start.{
  rank_init, make_trees, make_run, name_ranks, name_rank, host_ranks, next_host,
}
use perf_hound.Mpi.Start.Ranks.{IsBegun, make_trees-IsBegun}
use perf_hound.Mpi.Start.Whole.{phmpi_whole, phmpi_whole-safe}
use perf_hound.Mpi.Reading.{fastread-faults}
use perf_hound.Mpi.Steps
use perf_hound.Mpi.Steps.{phmpi_read_lem}
use perf_hound.Mpi.Ring.{Stage, Ring, update, started, Step, Reached}
use perf_hound.Mpi.Ring.Order.{down, made-in_order, making-alone}
use perf_hound.Mpi.Ring.Progress.{Advances, ring-Advances}

abbrev brimful : State machine
brimful = record fresh { irec = 4 }

brimful-IsBuffer : IsBuffer machine Mode.ev brimful
brimful-IsBuffer = record {
  size = refl;
  nrec_ge = omega arith;
  nrec_lt = omega arith;
  wide = (refl, (refl, (refl, (refl, tt))));
  fits = omega arith;
}

fastread-faults_example : (phmpi_fastread machine Mode.ev 1 2 9 brimful ≡ fault) ↔ (4 ≤ 4)
fastread-faults_example = fastread-faults machine Mode.ev 1 2 9 brimful brimful-IsBuffer

phmpi_read_lem_example :
    (t : State machine) × (phmpi_read machine Mode.ev 1 2 9 brimful ≡ done t)
    × IsBuffer machine Mode.ev t
    × (t.irec + 2 ≤ t.buf_nrec)
    × Steps.Step machine Mode.ev 1 2 9 brimful t
phmpi_read_lem_example =
    phmpi_read_lem machine Mode.ev 1 2 9 brimful brimful-IsBuffer (omega arith) (omega arith)

-- Rank 0 of two has made its directory, and rank 1 has its message.
abbrev second : Ring
second = record {
  stage = update (update (started.stage) 0 Stage.closing) 1 Stage.making;
  sent = [];
  made = 0 ∷ [];
}

second-Reached : Reached 2 second
unfolding update
second-Reached =
    Reached.next (Reached.next Reached.start (Step.make 0 (omega arith) refl))
      (Step.receive 1 [] [] (omega arith) (omega arith) refl refl)

made-in_order_example : (k : ℕ) × (k ≤ 2) × (second.made ≡ down k)
made-in_order_example = made-in_order 2 second (omega arith) second-Reached

ring-Advances_example : Advances 2 second
ring-Advances_example = ring-Advances 2 second (omega arith) second-Reached

making-alone_example : ◌≡◌ {A = ℕ} 1 1
unfolding update
making-alone_example =
    making-alone 2 second 1 1 (omega arith) second-Reached (omega arith) (omega arith) refl refl

-- Two ranks on one host begin a run on an empty file system.
abbrev two : List Process
two = rank_init 2 0 3 (codes "node") process ∷ rank_init 2 1 4 (codes "node") process ∷ []

abbrev trees : Run (List Names × Disk)
trees = make_trees disk 2 (codes "/d") two []

abbrev left : Disk
left = elim trees [ done r ↦ r.1 | _ ↦ [] ]

abbrev their_names : List Names
their_names =
    names_of (codes "/d") 1 (rank_init 2 0 3 (codes "node") process)
    ∷ names_of (codes "/d") 1 (rank_init 2 1 4 (codes "node") process)
    ∷ []

trees_so : trees ≡ done (their_names, left)
unfolding make_trees make_run name_ranks name_rank host_ranks next_host rank_init mkdir_path
    walk_path expanded walk make named mkname find_run mkfile in_project in_run make_files or_stop
    mkhost exists same text_at run_name names_of decimal print_digits
trees_so = refl

make_trees-IsBegun_example :
    (n : Names) × (ms : List Names) × (their_names ≡ n ∷ ms)
    × IsBegun disk disk-IsLawful [] left n ms
make_trees-IsBegun_example =
    make_trees-IsBegun disk disk-IsLawful 2 (codes "/d") (rank_init 2 0 3 (codes "node") process)
      (rank_init 2 1 4 (codes "node") process ∷ []) [] left their_names trees_so

phmpi_whole-safe_example :
    (t : State machine) × (phmpi_whole machine Mode.ev 64 process
        (λ j. blank)
        []
        tt
        true
        (record { gid = 1; pid = 1; uval = 5 } ∷ [])
      ≡ done t)
phmpi_whole-safe_example =
    phmpi_whole-safe machine Mode.ev 64 process (λ j. blank) [] tt true
      (record { gid = 1; pid = 1; uval = 5 } ∷ []) (omega arith) (omega arith) (λ j. refl) refl
