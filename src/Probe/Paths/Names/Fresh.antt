-- ===== src/Probe/Paths/Names/Fresh.antt =====
-- A run gets a directory of its own.
use perf_hound.Prelude.{
  ℕ, zero, suc, ◌<◌, ◌≡◌, ◌⊎◌, inl, inr, refl, sym, ap, subst, ◌∙◌, arith, true, false, ◌∷◌, Bytes,
  Bool-cases, Option, none, some,
}
use perf_hound.Prelude.Run.{done, bind-done, done_inj}
use perf_hound.Probe.Setup.{Process}
use perf_hound.Probe.Paths.{Os, IsLawful}
use perf_hound.Probe.Paths.Directory.{
  expanded, walk_path, mkdir_path, mkdir_path-stations, mkdir_path-expanded, List-cases,
}
use perf_hound.Probe.Paths.Names.{
  Names, no_names, named, run_name, names_of, find_run, mkname, or_stop, make_files, in_run,
  in_project, host_made, files_made, root_made, mkfile, mkhost, make_tree,
}
use perf_hound.Probe.Paths.Names.Search.{IsFirst, find_run_done-IsFirst}

module _ (os : Os) (law : IsLawful os) where
  -- Everything that exists in one state exists in another one.
  abbrev pub Keeps : os.State → os.State → Type 0
  Keeps s t = (q : Bytes) → os.exists s q ≡ true → os.exists t q ≡ true

  or_stop-Keeps :
      (s : os.State) (o : Option os.State) (further : os.State → ℕ × os.State)
      → ((t : os.State) → o ≡ some t → Keeps s t)
      → ((t : os.State) → Keeps t ((further t).1))
      → Keeps s ((or_stop os s o further).1)
  unfolding or_stop
  or_stop-Keeps s none further first_one next_one = λ q old. old
  or_stop-Keeps s (some t) further first_one next_one =
      λ q old. next_one t q (first_one t refl q old)

  make_files-Keeps : (n : Names) (s : os.State) → Keeps s ((make_files os n s).1)
  unfolding make_files
  make_files-Keeps n s =
      or_stop-Keeps s _ _ (λ t e q old. law.add-keeps s t _ _ q e old)
        (λ t.
          or_stop-Keeps t _ _ (λ u e q old. law.put-keeps t u _ _ q e old)
            (λ u.
              or_stop-Keeps u _ _ (λ v e q old. law.put-keeps u v _ _ q e old)
                (λ v.
                  or_stop-Keeps v _ _ (λ w e q old. law.put-keeps v w _ _ q e old)
                    (λ w q old. old))))

  pub mkhost-exists :
      (n : Names) (s : os.State)
      → (mkhost os n s).0 ≡ 0
      → os.exists ((mkhost os n s).1) n.host_dir ≡ true
  unfolding mkhost
  mkhost-exists n s e = elim (Bool-cases (os.exists s n.host_dir)) [
    | inl there ↦ rw there there
    | inr new ↦ rw new (law.mkdir_made s n.host_dir (ground (arith, rw new at e)))
  ]

  pub mkhost-Keeps : (n : Names) (s : os.State) → Keeps s ((mkhost os n s).1)
  unfolding mkhost
  mkhost-Keeps n s q old = elim (Bool-cases (os.exists s n.host_dir)) [
    | inl there ↦ rw there old
    | inr new ↦ rw new (law.mkdir-keeps s n.host_dir q old)
  ]

  -- What `ph_io_mkfile` has made when it answers 0, from the state in which it began.
  pub not_before :
      (s t : os.State) (q : Bytes) → Keeps s t → os.exists t q ≡ false → os.exists s q ≡ false
  not_before s t q kept new = elim (Bool-cases (os.exists s q)) [
    | inr e ↦ e
    | inl e ↦ absurd (ground (arith, new, kept q e))
  ]

  pub walk_Keeps :
      (path : Bytes) (s : os.State) (m : ℕ × os.State)
      → mkdir_path os path s ≡ done m
      → m.0 ≡ 0
      → Keeps s (m.1)
  walk_Keeps path s m walked ok =
      let (c, rest, full) = mkdir_path-expanded os law path s m walked in
      (mkdir_path-stations os law path c rest s (m.1) full
        (walked ∙ ap (λ (k : ℕ). done (k, m.1)) ok)).1

  in_run-made :
      (n : Names) (r : ℕ × os.State) (t : os.State)
      → in_run os n r ≡ (0, t)
      → (r.0 ≡ 0) × Keeps (r.1) t
  unfolding in_run
  in_run-made n (zero, s) t e = (
    refl,
    λ q old. subst (λ u. os.exists u q ≡ true) (ap (λ x. x.1) e) (make_files-Keeps n s q old),
  )
  in_run-made n (suc k, s) t e = absurd (ground (arith, ap (λ x. x.0) e))

  in_project-made :
      (n : Names) (m : ℕ × os.State) (t : os.State)
      → in_project os n m ≡ (0, t)
      → (m.0 ≡ 0) × ((os.mkdir (m.1) n.run_dir).0 ≡ 0) × Keeps ((os.mkdir (m.1) n.run_dir).1) t
  unfolding in_project
  in_project-made n (zero, s) t e =
      let (ok, kept) = in_run-made n (os.mkdir s n.run_dir) t e in (refl, ok, kept)
  in_project-made n (suc k, s) t e = absurd (ground (arith, ap (λ x. x.0) e))

  -- What `mkdir` succeeds on was not there.
  mkdir_new : (s : os.State) (p : Bytes) → (os.mkdir s p).0 ≡ 0 → os.exists s p ≡ false
  mkdir_new s p e = elim (Bool-cases (os.exists s p)) [
    | inr new ↦ new
    | inl old ↦ absurd (ground (arith, e, law.mkdir_old s p old))
  ]

  -- What `ph_io_mkfile` has made when it answers 0, from the state in which it began.
  pub mkfile-made :
      (n : Names) (s t : os.State)
      → mkfile os n s ≡ done (0, t)
      → (os.exists s n.run_dir ≡ false) × (os.exists t n.run_dir ≡ true) × Keeps s t
  unfolding mkfile
  mkfile-made n s t made =
      let (m, walked, ended) = bind-done (mkdir_path os n.proj_dir s) _ made in
      let (ok, made_run, kept) = in_project-made n m t (done_inj ended) in
      let old = walk_Keeps n.proj_dir s m walked ok in
      (
        not_before s (m.1) n.run_dir old (mkdir_new (m.1) n.run_dir made_run),
        kept n.run_dir (law.mkdir_made (m.1) n.run_dir made_run),
        λ q there. kept q (law.mkdir-keeps (m.1) n.run_dir q (old q there)),
      )

  host_made-done :
      {s : os.State} (n m : Names) (g : ℕ × os.State) (t : os.State)
      → host_made os n g ≡ done (m, t)
      → (g.0 ≡ 0 → os.exists (g.1) n.host_dir ≡ true)
      → Keeps s (g.1)
      → (n ≡ m) × (os.exists t n.host_dir ≡ true) × Keeps s t
  unfolding host_made
  host_made-done n m (suc e, u) t made there kept = absurd (ground (arith, made))
  host_made-done n m (zero, u) t made there kept =
      let pair = done_inj made in
      let same : u ≡ t = ap (λ x. x.1) pair in
      (
        ap (λ x. x.0) pair,
        subst (λ v. os.exists v n.host_dir ≡ true) same (there refl),
        λ q old. subst (λ v. os.exists v q ≡ true) same (kept q old),
      )

  -- A run that began: its directory is new, its host's directory is there, the runs with smaller
  -- numbers are there, and so is all that was.
  pub record IsFresh (s t : os.State) (n : Names) : Type 0 where
    pub new_run : os.exists s n.run_dir ≡ false
    pub run_made : os.exists t n.run_dir ≡ true
    pub host_there : os.exists t n.host_dir ≡ true
    pub earlier : (k : ℕ) → 0 < k → k < n.runid → os.exists t (run_name n.proj_dir k) ≡ true
    pub kept : Keeps s t

  files_made-done :
      (n m : Names) (f : ℕ × os.State) (t : os.State)
      → files_made os n f ≡ done (m, t)
      → (f.0 ≡ 0) × (n ≡ m) × (os.exists t n.host_dir ≡ true) × Keeps (f.1) t
  unfolding files_made
  files_made-done n m (suc e, s) t made = absurd (ground (arith, made))
  files_made-done n m (zero, s) t made =
      let (same, there, kept) =
        host_made-done n m (mkhost os n s) t made (mkhost-exists n s) (mkhost-Keeps n s) in
      (refl, same, there, kept)

  -- The names that `ph_io_mkname` leaves.
  named-done :
      (fuel : ℕ) (p : Process) (s : os.State) (real : ℕ ⊎ Bytes) (r : ℕ × Names)
      → named os fuel p no_names s real ≡ done r
      → (r.1 ≡ no_names)
        ⊎ ((proj : Bytes) × (k : ℕ) × (r.1 ≡ names_of proj k p) × IsFirst os proj s 0 k)
  unfolding named
  named-done fuel p s (inl e) r named_so = inl (sym (ap (λ x. x.1) (done_inj named_so)))
  named-done fuel p s (inr proj) r named_so =
      let (k, found, ended) = bind-done (find_run os fuel proj 0 s) _ named_so in
      inr (
        proj,
        k,
        sym (ap (λ x. x.1) (done_inj ended)),
        find_run_done-IsFirst os proj s fuel 0 k found,
      )

  -- Without a project directory no file is made.
  pub mkfile-some :
      (n : Names) (s : os.State) (f : ℕ × os.State)
      → mkfile os n s ≡ done f
      → (c : ℕ) × (rest : Bytes) × (n.proj_dir ≡ c ∷ rest)
  unfolding mkfile mkdir_path walk_path expanded
  mkfile-some n s f made = elim (List-cases n.proj_dir) [
    | inl none_given ↦ absurd (ground (arith, rw none_given at made))
    | inr given ↦ given
  ]

  earlier_runs :
      (p : Process) (s : os.State) (r : Names) (c : ℕ) (rest : Bytes) (k : ℕ)
      → r.proj_dir ≡ c ∷ rest
      → 0 < k
      → (r ≡ no_names)
        ⊎ ((proj : Bytes) × (j : ℕ) × (r ≡ names_of proj j p) × IsFirst os proj s 0 j)
      → k < r.runid
      → os.exists s (run_name r.proj_dir k) ≡ true
  unfolding names_of
  earlier_runs p s r c rest k given pos (inl e) lt =
      absurd (ground (arith, ap (λ n. n.proj_dir) (sym e) ∙ given))
  earlier_runs p s r c rest k given pos (inr (proj, j, e, first_free)) lt =
      subst (λ n. k < n.runid → os.exists s (run_name n.proj_dir k) ≡ true) (sym e)
        (λ below. first_free.before k pos below) lt

  root_made-IsFresh :
      (fuel : ℕ) (root : Bytes) (p : Process) (s t : os.State) (n : Names) (m : ℕ × os.State)
      → root_made os fuel root p m ≡ done (n, t)
      → (m.0 ≡ 0 → Keeps s (m.1))
      → IsFresh s t n
  unfolding root_made mkname
  root_made-IsFresh fuel root p s t n (suc e, u) made old = absurd (ground (arith, made))
  root_made-IsFresh fuel root p s t n (zero, u) made old =
      let (r, named_so, ended) =
        bind-done (named os fuel p no_names u (os.realpath u root)) _ made in
      let (f, files, ended') = bind-done (mkfile os (r.1) u) _ ended in
      let (c, rest, given) = mkfile-some (r.1) u f files in
      let (ok, same, host, kept) = files_made-done (r.1) n f t ended' in
      let (new, run, kept_files) =
        mkfile-made (r.1) u (f.1) (files ∙ ap (λ (k : ℕ). done (k, f.1)) ok) in
      subst (IsFresh s t) same (record {
        new_run = not_before s u (r.1).run_dir (old refl) new;
        run_made = kept _ run;
        host_there = host;
        earlier = λ k pos lt. kept _ (
            kept_files _ (
              earlier_runs p u (r.1) c rest k given pos
                (named-done fuel p u (os.realpath u root) r named_so) lt));
        kept = λ q there. kept q (kept_files q (old refl q there));
      })

  -- On a file system that keeps its laws, when the directories and files of a run are made, the
  -- directory of the run was not there before and is there afterwards, with that of the host; the
  -- directories of the runs with smaller numbers are there too; and whatever existed still does.
  pub make_tree-IsFresh :
      (fuel : ℕ) (root : Bytes) (p : Process) (s t : os.State) (n : Names)
      → make_tree os fuel root p s ≡ done (n, t)
      → IsFresh s t n
  unfolding make_tree
  make_tree-IsFresh fuel root p s t n made =
      let (m, walked, ended) = bind-done (mkdir_path os root s) _ made in
      root_made-IsFresh fuel root p s t n m ended (walk_Keeps root s m walked)
