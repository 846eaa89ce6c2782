-- ===== src/Mpi/Start/Ranks.antt =====
-- All ranks work in one new directory of the run.
use perf_hound.Prelude.{
  ℕ, zero, suc, ◌≡◌, ◌⊎◌, inl, inr, refl, sym, ap, ap₂, subst, ◌∙◌, arith, true, false, List, [],
  ◌∷◌, Bytes, All,
}
use perf_hound.Prelude.Run.{done, bind-done, done_inj}
use perf_hound.Probe.Paths.{Os, IsLawful}
use perf_hound.Probe.Paths.Directory.{mkdir_path}
use perf_hound.Probe.Paths.Names.{
  Names, no_names, named, names_of, mkname, find_run, mkfile, mkhost,
}
use perf_hound.Probe.Paths.Names.Fresh.{
  Keeps, mkfile-made, mkhost-exists, mkhost-Keeps, not_before, walk_Keeps,
}
use perf_hound.Probe.Setup.{Process}
use perf_hound.Mpi.Start.{name_rank, name_ranks, next_host, host_ranks, make_run, make_trees}

module _ (os : Os) (law : IsLawful os) where
  next_host-done :
      (r : ℕ × os.State) (t : os.State) → next_host os r ≡ done t → (r.0 ≡ 0) × (r.1 ≡ t)
  unfolding next_host
  next_host-done (zero, s) t e = (refl, done_inj e)
  next_host-done (suc k, s) t e = absurd (ground (arith, e))

  -- The hosts' directories exist when the ring has ended.
  host_ranks-exists :
      (ns : List Names) (s t : os.State)
      → host_ranks os ns s ≡ done t
      → All (λ n. os.exists t n.host_dir ≡ true) ns × Keeps os law s t
  unfolding host_ranks
  host_ranks-exists [] s t e = (tt, λ q old. subst (λ u. os.exists u q ≡ true) (done_inj e) old)
  host_ranks-exists (n ∷ ns) s t e =
      let (u, made, later) = bind-done (next_host os (mkhost os n s)) _ e in
      let (ok, same) = next_host-done (mkhost os n s) u made in
      let (rest, kept) = host_ranks-exists ns u t later in
      (
        (
          kept _ (subst (λ v. os.exists v n.host_dir ≡ true) same (mkhost-exists os law n s ok)),
          rest,
        ),
        λ q old. kept q (subst (λ v. os.exists v q ≡ true) same (mkhost-Keeps os law n s q old)),
      )

  name_rank-done : (r : ℕ × Names) (n : Names) → name_rank os r ≡ done n → (r.0 ≡ 0) × (r.1 ≡ n)
  unfolding name_rank
  name_rank-done (zero, m) n e = (refl, done_inj e)
  name_rank-done (suc k, m) n e = absurd (ground (arith, e))

  -- Two ranks that make their names in one state agree on the directory of the run.
  named-agree :
      (fuel : ℕ) (p q : Process) (s : os.State) (real : ℕ ⊎ Bytes) (r w : ℕ × Names)
      → named os fuel p no_names s real ≡ done r
      → named os fuel q no_names s real ≡ done w
      → r.1.run_dir ≡ w.1.run_dir
  unfolding named names_of
  named-agree fuel p q s (inl e) r w a b = ap (λ x. x.1.run_dir) (sym (done_inj a) ∙ done_inj b)
  named-agree fuel p q s (inr proj) r w a b =
      let (n, found, ended) = bind-done (find_run os fuel proj 0 s) _ a in
      let (m, found', ended') = bind-done (find_run os fuel proj 0 s) _ b in
      let same : n ≡ m = done_inj (sym found ∙ found') in
      ap (λ x. x.1.run_dir) (sym (done_inj ended))
      ∙ ap (λ (k : ℕ). (names_of proj k p).run_dir) same
      ∙ ap (λ x. x.1.run_dir) (done_inj ended')

  name_ranks-agree :
      (fuel : ℕ) (root : Bytes) (p : Process) (ps : List Process) (s : os.State) (r : ℕ × Names)
      (ns : List Names)
      → mkname os fuel root p no_names s ≡ done r
      → name_ranks os fuel root ps s ≡ done ns
      → All (λ n. n.run_dir ≡ r.1.run_dir) ns
  unfolding name_ranks mkname
  name_ranks-agree fuel root p [] s r [] a e = tt
  name_ranks-agree fuel root p [] s r (n ∷ ns) a e = absurd (ground (arith, done_inj e))
  name_ranks-agree fuel root p (q ∷ ps) s r ns a e =
      let (w, b, e1) = bind-done (named os fuel q no_names s (os.realpath s root)) _ e in
      let (n, ok, e2) = bind-done (name_rank os w) _ e1 in
      let (later, rest, e3) = bind-done (name_ranks os fuel root ps s) _ e2 in
      subst (All (λ m. m.run_dir ≡ r.1.run_dir)) (done_inj e3) (
        ap (λ m. m.run_dir) (sym ((name_rank-done w n ok).1))
            ∙ sym (named-agree fuel p q s (os.realpath s root) r w a b),
        name_ranks-agree fuel root p ps s r later a rest,
      )

  -- The ranks of a run that began: they all have one directory of the run, which was not there
  -- before and is there now, as the directory of the host of each is; and whatever existed is kept.
  pub record IsBegun (s t : os.State) (n : Names) (ns : List Names) : Type 0 where
    pub new_run : os.exists s n.run_dir ≡ false
    pub run_made : os.exists t n.run_dir ≡ true
    pub together : All (λ m. m.run_dir ≡ n.run_dir) ns
    pub hosts_there : All (λ m. os.exists t m.host_dir ≡ true) (n ∷ ns)
    pub kept : Keeps os law s t

  -- From the state in which rank 0 has made the root.
  make_run-IsBegun :
      (n : Names) (ns ms : List Names) (s t : os.State)
      → All (λ m. m.run_dir ≡ n.run_dir) ns
      → make_run os (n ∷ ns) s ≡ done (ms, t)
      → (ms ≡ n ∷ ns) × IsBegun s t n ns
  unfolding make_run
  make_run-IsBegun n ns ms s t agree e =
      let (f, files, e1) = bind-done (mkfile os n s) _ e in
      let (u, ok, e2) = bind-done (next_host os f) _ e1 in
      let (v, hosts, e3) = bind-done (host_ranks os (n ∷ ns) u) _ e2 in
      let (code, same) = next_host-done f u ok in
      let (new, run, kept) =
        mkfile-made os law n s u
          (files ∙ ap done (ap₂ (λ (k : ℕ) (x : os.State). (k, x)) code same)) in
      let (all_there, kept_hosts) = host_ranks-exists (n ∷ ns) u v hosts in
      let last : v ≡ t = ap (λ x. x.1) (done_inj e3) in
      (
        sym (ap (λ x. x.0) (done_inj e3)),
        subst (λ x. IsBegun s x n ns) last
            (record {
              new_run = new;
              run_made = kept_hosts n.run_dir run;
              together = agree;
              hosts_there = all_there;
              kept = λ q there. kept_hosts q (kept q there);
            }),
      )

  -- On a file system that keeps its laws, when all ranks of a program have begun their run, they
  -- have one directory of the run, which was not there before and is there afterwards, as the
  -- directory of the host of each is; and whatever existed still does.
  pub make_trees-IsBegun :
      (fuel : ℕ) (root : Bytes) (p : Process) (ps : List Process) (s t : os.State) (ns : List Names)
      → make_trees os fuel root (p ∷ ps) s ≡ done (ns, t)
      → (n : Names) × (ms : List Names) × (ns ≡ n ∷ ms) × IsBegun s t n ms
  unfolding make_trees name_ranks
  make_trees-IsBegun fuel root p ps s t ns e =
      let (m, walked, e1) = bind-done (mkdir_path os root s) _ e in
      let (u, ok, e2) = bind-done (next_host os m) _ e1 in
      let (all_names, names_so, e3) = bind-done (name_ranks os fuel root (p ∷ ps) u) _ e2 in
      let (r, first_so, e4) = bind-done (mkname os fuel root p no_names u) _ names_so in
      let (n, n_ok, e5) = bind-done (name_rank os r) _ e4 in
      let (ms, rest_so, e6) = bind-done (name_ranks os fuel root ps u) _ e5 in
      let (code, same) = next_host-done m u ok in
      let agree =
        subst (λ x. All (λ k. k.run_dir ≡ x.run_dir) ms) ((name_rank-done r n n_ok).1)
          (name_ranks-agree fuel root p ps u r ms first_so rest_so) in
      let (whole, begun) =
        make_run-IsBegun n ms ns u t agree (ap (λ x. make_run os x u) (done_inj e6) ∙ e3) in
      let old : Keeps os law s u =
        subst (Keeps os law s) same (walk_Keeps os law root s m walked code) in
      (
        n,
        ms,
        whole,
        record {
          new_run = not_before os law s u n.run_dir old begun.new_run;
          run_made = begun.run_made;
          together = begun.together;
          hosts_there = begun.hosts_there;
          kept = λ q there. begun.kept q (old q there);
        },
      )
