-- ===== src/Probe/Paths/Names/Search.antt =====
-- The number of a run is the first one that is not Taken.
use perf_hound.Prelude.{
  ℕ, zero, suc, ◌+◌, ◌≤◌, ◌<◌, ◌≡◌, refl, arith, true, false, Bool-cases, inl, inr, Bytes, lt-or,
  subst, sym, ◌∙◌, ◌≢◌,
}
use perf_hound.Prelude.Run.{done, done_inj}
use perf_hound.Probe.Paths.{Os}
use perf_hound.Probe.Paths.Names.{run_name, find_run}

true_or_false : true ≡ false → ⊥
true_or_false e = ground (arith, e)

module _ (os : Os) (proj : Bytes) (s : os.State) where
  abbrev Taken : ℕ → Type 0
  Taken k = os.exists s (run_name proj k) ≡ true

  -- The first number that is not Taken, from the one behind `low` on.
  pub record IsFirst (low n : ℕ) : Type 0 where
    pub above : low < n
    pub open_ : os.exists s (run_name proj n) ≡ false
    pub before : (k : ℕ) → low < k → k < n → Taken k

  find_later :
      (fuel low : ℕ)
      → Taken (low + 1)
      → find_run os (suc fuel) proj low s ≡ find_run os fuel proj (low + 1) s
  unfolding find_run
  find_later fuel low used = rw (find_run, used) refl

  below : (low n : ℕ) → Taken (low + 1) → IsFirst (low + 1) n → IsFirst low n
  below low n used f = record {
    above = omega (arith, f.above);
    open_ = f.open_;
    before = λ k a b. elim (lt-or (low + 1) k) [
      | inl beyond ↦ f.before k beyond b
      | inr first_one ↦ subst Taken {x = low + 1} {y = k} (omega arith) used
    ];
  }

  -- When some run number from 1 on is not taken, the search for a number ends within as many
  -- rounds, with the first number that is not taken.
  pub find_run-IsFirst :
      (fuel low m : ℕ)
      → low < m
      → m ≤ low + fuel
      → os.exists s (run_name proj m) ≡ false
      → (n : ℕ) × (find_run os fuel proj low s ≡ done n) × IsFirst low n × (n ≤ m)
  unfolding find_run
  find_run-IsFirst zero low m lt le open_m = absurd (omega arith)
  find_run-IsFirst (suc fuel) low m lt le open_m =
      elim (Bool-cases (os.exists s (run_name proj (low + 1)))) [
        | inr free ↦ (
          low + 1,
          rw free refl,
          record { above = omega arith; open_ = free; before = λ k a b. absurd (omega arith) },
          omega arith,
        )
        | inl used ↦
            (let here : low + 1 ≢ m = λ e. absurd (
                true_or_false (
                  sym used
                  ∙ subst (λ (k : ℕ). os.exists s (run_name proj k) ≡ false) (sym e) open_m)) in
              let (n, e, f, le') =
                find_run-IsFirst fuel (low + 1) m (ground (arith, here)) (omega arith) open_m in
              (n, find_later fuel low used ∙ e, below low n used f, le'))
      ]

  -- What an answer is.
  pub find_run_done-IsFirst :
      (fuel low n : ℕ) → find_run os fuel proj low s ≡ done n → IsFirst low n
  unfolding find_run
  find_run_done-IsFirst zero low n e = absurd (ground (arith, e))
  find_run_done-IsFirst (suc fuel) low n e =
      elim (Bool-cases (os.exists s (run_name proj (low + 1)))) [
        | inr free ↦
            subst (IsFirst low) (done_inj (rw free at e))
              (record { above = omega arith; open_ = free; before = λ k a b. absurd (omega arith) })
        | inl used ↦ below low n used (find_run_done-IsFirst fuel (low + 1) n (rw used at e))
      ]
