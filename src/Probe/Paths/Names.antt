-- ===== src/Probe/Paths/Names.antt =====
-- `ph_io_mkname`, `ph_io_mkfile` and `ph_io_mkhost`: the paths of a run, and its directories and
-- files.
pub mod Search
pub mod Fresh
use perf_hound.Prelude.{
  ℕ, zero, suc, ◌+◌, ◌⊎◌, inl, inr, Bool, not, [], ◌∷◌, ◌++◌, Bytes, codes, Option, none, some,
  ◌==◌, if◌then◌else◌,
}
use perf_hound.Prelude.Run.{Run, done, exited, no_fuel, ◌>>=◌}
use perf_hound.Probe.Number.{decimal}
use perf_hound.Probe.Row.{newline}
use perf_hound.Probe.Setup.{Process, print_int}
use perf_hound.Probe.Setup.Begin.{info_begun}
use perf_hound.Probe.Paths.{eexist, Os}
use perf_hound.Probe.Paths.Directory.{mkdir_path}

-- `ph_path_t` with `runid`.
pub record Names : Type 0 where
  pub runid : ℕ
  pub proj_dir : Bytes
  pub run_dir : Bytes
  pub host_dir : Bytes
  pub runinfo : Bytes
  pub ctag : Bytes
  pub etag : Bytes
  pub rankmap : Bytes
  pub rec : Bytes

-- As the program begins.
abbrev pub no_names : Names
no_names = record {
  runid = 0;
  proj_dir = [];
  run_dir = [];
  host_dir = [];
  runinfo = [];
  ctag = [];
  etag = [];
  rankmap = [];
  rec = [];
}

-- "%s/run_%d".
unfoldable pub run_name : Bytes → ℕ → Bytes
run_name proj n = proj ++ codes "/run_" ++ print_int n

unfoldable pub names_of : Bytes → ℕ → Process → Names
names_of proj n p =
    let run_dir = run_name proj n in
    let host_dir = run_dir ++ codes "/" ++ p.host in
    record {
      runid = n;
      proj_dir = proj;
      run_dir = run_dir;
      host_dir = host_dir;
      runinfo = proj ++ codes "/run_info.csv";
      ctag = run_dir ++ codes "/ctag.csv";
      etag = run_dir ++ codes "/etag.csv";
      rankmap = run_dir ++ codes "/rankmap.csv";
      rec =
          host_dir
          ++ codes "/r"
          ++ print_int p.rank
          ++ codes "c"
          ++ print_int p.cpu
          ++ codes ".csv";
    }

-- The answer -1.
abbrev pub minus_one : ℕ
minus_one = 0xFFFFFFFF

module _ (os : Os) where
  -- `while (1)` with `nrun`.
  unfoldable pub find_run : ℕ → Bytes → ℕ → os.State → Run ℕ
  find_run zero proj nrun s = no_fuel
  find_run (suc fuel) proj nrun s =
      let later = find_run fuel proj (nrun + 1) s in
      if os.exists s (run_name proj (nrun + 1)) then later else done (nrun + 1)

  -- The answer, which is 0 or an `errno`, and the names, which an error does not change, given the
  -- answer of `realpath`.
  unfoldable pub named : ℕ → Process → Names → os.State → ℕ ⊎ Bytes → Run (ℕ × Names)
  named fuel p names s (inl e) = done (e, names)
  named fuel p names s (inr proj) = do n ← find_run fuel proj 0 s; done (0, names_of proj n p)

  unfoldable pub mkname : ℕ → Bytes → Process → Names → os.State → Run (ℕ × Names)
  mkname fuel root p names s = named fuel p names s (os.realpath s root)

  -- A file that does not open ends the making.
  unfoldable pub or_stop : os.State → Option os.State → (os.State → ℕ × os.State) → ℕ × os.State
  or_stop s none further = (minus_one, s)
  or_stop s (some t) further = further t

  -- The four files of a run.
  unfoldable pub make_files : Names → os.State → ℕ × os.State
  make_files n s =
      or_stop s (os.add s n.runinfo (if os.size s n.runinfo == 0 then info_begun [] else [])) (λ t.
        or_stop t (os.put t n.ctag (codes "gid,pid,description" ++ newline ∷ [])) (λ u.
          or_stop u (os.put u n.etag (codes "id,name,code" ++ newline ∷ [])) (λ v.
            or_stop v
              (os.put v n.rankmap (codes "rank,hostname,cpu,hosthead,iorank" ++ newline ∷ []))
              (λ w. (0, w)))))

  -- Behind `mkdir` of the run's directory, and behind `ph_io_mkdir` of the project's.
  unfoldable pub in_run : Names → ℕ × os.State → ℕ × os.State
  in_run n (zero, s) = make_files n s
  in_run n (suc e, s) = (minus_one, s)

  unfoldable pub in_project : Names → ℕ × os.State → ℕ × os.State
  in_project n (zero, s) = in_run n (os.mkdir s n.run_dir)
  in_project n (suc e, s) = (suc e, s)

  unfoldable pub mkfile : Names → os.State → Run (ℕ × os.State)
  mkfile n s = do m ← mkdir_path os n.proj_dir s; done (in_project n m)

  -- EEXIST is only not reported.
  unfoldable pub mkhost : Names → os.State → ℕ × os.State
  mkhost n s =
      if os.exists s n.host_dir
      then (0, s)
      else (let r = os.mkdir s n.host_dir in
          (if r.0 == 0 then 0 else (if r.0 == eexist then minus_one else r.0), r.1))

  -- Behind `ph_io_mkhost`, `ph_io_mkfile` and the making of the root in `ph_init`: an error of
  -- `ph_io_mkname` is passed over, any other one ends the program.
  unfoldable pub host_made : Names → ℕ × os.State → Run (Names × os.State)
  host_made n (zero, s) = done (n, s)
  host_made n (suc e, s) = exited 1

  unfoldable pub files_made : Names → ℕ × os.State → Run (Names × os.State)
  files_made n (zero, s) = host_made n (mkhost n s)
  files_made n (suc e, s) = exited 1

  unfoldable pub root_made : ℕ → Bytes → Process → ℕ × os.State → Run (Names × os.State)
  root_made fuel root p (suc e, s) = exited 1
  root_made fuel root p (zero, s) = do
    r ← mkname fuel root p no_names s
    f ← mkfile (r.1) s
    files_made (r.1) f

  -- The directories and files in `ph_init`, from the data root on.
  unfoldable pub make_tree : ℕ → Bytes → Process → os.State → Run (Names × os.State)
  make_tree fuel root p s = mkdir_path os root s >>= root_made fuel root p
