-- ===== src/Pmu/Client/Closing.antt =====
-- The descriptors of `ph_pmu_init` and `ph_pmu_fini` in the table of the process.
use perf_hound.Prelude.{
  ℕ, ◌≡◌, refl, true, false, Bool, not, ◌&&◌, ◌||◌, Option, none, some, ◌==◌, Bytes, arith,
}
use perf_hound.Kmod.{Globals}
use perf_hound.Pmu.{Answer}
use perf_hound.Pmu.Client.{Os, close_if, pmu_fini, open_files, check_files, pmu_init}

held : Option ℕ → ℕ → Bool
held none f = false
held (some fd) f = f == fd

module _ (o : Os) where
  open o use {Table, open_file, close_file, is_open, opened, not_opened, closed}

  same_fd : (t : Table) (fd f : ℕ) → f == fd ≡ true → is_open t fd ≡ false → is_open t f ≡ false
  same_fd t fd f on free = let e : f ≡ fd = ground arith in rw e free

  open_lem :
      (path : Bytes) (t u : Table) (r : Option ℕ) (f : ℕ)
      → open_file path t ≡ (r, u)
      → (is_open u f ≡ held r f || is_open t f) × (held r f ≡ true → is_open t f ≡ false)
  unfolding held
  open_lem path t u none f e = (not_opened path t u f e, λ on. cc)
  open_lem path t u (some fd) f e =
      let (free, more) = opened path t u fd f e in (more, λ on. same_fd t fd f on free)

  close_if_lem :
      (r : Option ℕ) (t : Table) (f : ℕ)
      → is_open (close_if o r t) f ≡ is_open t f && not (held r f)
  unfolding held close_if
  close_if_lem none t f = ground arith
  close_if_lem (some fd) t f = closed t fd f

  -- Four calls of `open` undone by four of `close`, in the order of the calls or with the last
  -- first.
  four_undone :
      (p q r s : Bytes) (t t1 t2 t3 t4 : Table) (a b c d : Option ℕ) (f : ℕ)
      → open_file p t ≡ (a, t1)
      → open_file q t1 ≡ (b, t2)
      → open_file r t2 ≡ (c, t3)
      → open_file s t3 ≡ (d, t4)
      → (is_open (close_if o d (close_if o c (close_if o b (close_if o a t4)))) f ≡ is_open t f)
        × (is_open (close_if o c (close_if o b (close_if o a (close_if o d t4)))) f ≡ is_open t f)
  four_undone p q r s t t1 t2 t3 t4 a b c d f ea eb ec ed =
      let (a1, a2) = open_lem p t t1 a f ea in
      let (b1, b2) = open_lem q t1 t2 b f eb in
      let (c1, c2) = open_lem r t2 t3 c f ec in
      let (d1, d2) = open_lem s t3 t4 d f ed in
      (
        rw (close_if_lem d, close_if_lem c, close_if_lem b, close_if_lem a) (ground arith),
        rw (close_if_lem c, close_if_lem b, close_if_lem a, close_if_lem d) (ground arith),
      )

  closed_again :
      (t : Table) (f : ℕ)
      → let (d, u) = open_files o t in
        (is_open
            (close_if o d.cr4_fd
              (close_if o d.cnt_fd (close_if o d.msk_fd (close_if o d.cfg_fd u))))
            f
          ≡ is_open t f)
        × (is_open
              (close_if o d.cnt_fd
                (close_if o d.msk_fd (close_if o d.cfg_fd (close_if o d.cr4_fd u))))
              f
            ≡ is_open t f)
  unfolding open_files
  closed_again t f = four_undone _ _ _ _ t _ _ _ _ _ _ _ _ f refl refl refl refl

  -- After `ph_pmu_init` and `ph_pmu_fini`, whatever the first answers, the process has the
  -- descriptors in use that it had before; if `ph_pmu_init` answers that a file does not open, it
  -- has them already then.
  pub pmu_fini-pmu_init :
      (g : Globals) (cr4 : ℕ) (t : Table) (f : ℕ)
      → let (a, (d, u)) = pmu_init o g cr4 t in
        let (e, v) = pmu_fini o d u in
        (is_open v f ≡ is_open t f) × (a ≡ Answer.open_sysfile → is_open u f ≡ is_open t f)
  unfolding pmu_init pmu_fini check_files close_if
  pmu_fini-pmu_init g cr4 t f = ground (arith, closed_again t f)
