-- ===== src/Probe/Paths/Tests.antt =====
-- The directories and files of small runs.
use perf_hound.Prelude.{ℕ, ◌≤◌, ◌≡◌, refl, arith, true, false, [], ◌∷◌, Bytes, codes, All}
use perf_hound.Prelude.Run.{Run, done}
use perf_hound.Probe.Demo.{process}
use perf_hound.Probe.Number.{decimal, print_digits}
use perf_hound.Probe.Paths.Disk.{Disk, disk, disk-IsLawful, exists, same, text_at}
use perf_hound.Probe.Paths.Directory.{
  mkdir_path, mkdir_path-stations, stations, make, walk, walk_path, expanded,
}
use perf_hound.Probe.Paths.Names.{
  Names, names_of, run_name, make_tree, root_made, named, mkname, find_run, mkfile, in_project,
  in_run, make_files, or_stop, mkhost, files_made, host_made,
}
use perf_hound.Probe.Paths.Names.Search.{IsFirst, find_run-IsFirst}
use perf_hound.Probe.Paths.Names.Fresh.{IsFresh, make_tree-IsFresh}
use perf_hound.Probe.Paths.Stamp.{Time, IsTime, put_all, timestr, stamp_file, putstamp, padded}

-- Two runs are there already.
abbrev used : Disk
used = (codes "/d", []) ∷ (codes "/d/run_1", []) ∷ (codes "/d/run_2", []) ∷ []

free_3 : disk.exists used (run_name (codes "/d") 3) ≡ false
unfolding exists same run_name decimal print_digits
free_3 = refl

find_run-IsFirst_example :
    (n : ℕ) × (find_run disk 3 (codes "/d") 0 used ≡ done n)
    × IsFirst disk (codes "/d") used 0 n
    × (n ≤ 3)
find_run-IsFirst_example =
    find_run-IsFirst disk (codes "/d") used 3 0 3 (omega arith) (omega arith) free_3

abbrev made : Disk
made = (codes "/h/b", []) ∷ (codes "/h", []) ∷ []

made_so : mkdir_path disk (codes "~/b") [] ≡ done (0, made)
unfolding mkdir_path walk_path expanded walk make exists same
made_so = refl

home_so : expanded disk.home disk.user_dir (codes "~/b") ≡ 47 ∷ codes "h/b"
unfolding expanded
home_so = refl

mkdir_path-stations_example :
    All (λ q. disk.exists made q ≡ true) (stations (codes "/") (codes "h/b"))
    × ((q : Bytes) → disk.exists [] q ≡ true → disk.exists made q ≡ true)
mkdir_path-stations_example =
    mkdir_path-stations disk disk-IsLawful (codes "~/b") 47 (codes "h/b") [] made home_so made_so

abbrev tree : Run (Names × Disk)
tree = make_tree disk 3 (codes "/d") process used

-- What the call leaves.
abbrev left : Disk
left = elim tree [ done r ↦ r.1 | _ ↦ [] ]

tree_so : tree ≡ done (names_of (codes "/d") 3 process, left)
unfolding make_tree root_made mkdir_path walk_path expanded walk make named mkname find_run mkfile
    in_project in_run make_files or_stop mkhost files_made host_made exists same text_at run_name
    names_of decimal print_digits
tree_so = refl

make_tree-IsFresh_example : IsFresh disk disk-IsLawful used left (names_of (codes "/d") 3 process)
make_tree-IsFresh_example =
    make_tree-IsFresh disk disk-IsLawful 3 (codes "/d") process used left
      (names_of (codes "/d") 3 process) tree_so

abbrev noon : Time
noon = record { year = 2026; mon = 1; mday = 2; hour = 12; min = 0; sec = 30 }

noon-IsTime : IsTime noon
noon-IsTime = record {
  year_lt = omega arith;
  mon_lt = omega arith;
  mday_lt = omega arith;
  hour_lt = omega arith;
  min_lt = omega arith;
  sec_lt = omega arith;
}

-- Two runs have ended.
abbrev stamped : Disk
stamped = elim (put_all disk (codes "/d") (noon ∷ noon ∷ []) used) [ done d ↦ d | _ ↦ [] ]

stamped_so : put_all disk (codes "/d") (noon ∷ noon ∷ []) used ≡ done stamped
unfolding put_all putstamp text_at same timestr padded decimal print_digits
stamped_so = refl

nothing_stamped : disk.size used (stamp_file (codes "/d")) ≡ 0
unfolding text_at same
nothing_stamped = refl
