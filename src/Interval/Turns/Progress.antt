-- ===== src/Interval/Turns/Progress.antt =====
-- The ranks never block before all files are appended, unless one has returned with an error.
use perf_hound.Prelude.{lt-or, ℕ, zero, suc, ◌+◌, ◌≤◌, ◌<◌, ◌≡◌, ◌⊎◌, refl, subst, arith, inl, inr}
use perf_hound.Interval.Spread.{nf_of}
use perf_hound.Interval.Turns.{
  Turn, opening, waiting, holding, appended, stopped_own, stopped_all, Turns, Step, open_own, first,
  receive, append, pass, Reached,
}
use perf_hound.Interval.Turns.Order.{Inv, Reached-Inv}

-- A rank has appended all its files, and waits for nothing.
abbrev pub IsOver : (ℕ → ℕ) → Turns → ℕ → Type 0
IsOver nf r i = (r.turn i ≡ opening) × (r.rounds i ≡ nf i)

-- A rank has returned with an error, and all before it have appended all their files.
abbrev pub HasStopped : (ℕ → ℕ) → Turns → ℕ → Type 0
HasStopped nf r j =
    ((r.turn j ≡ stopped_own) ⊎ (r.turn j ≡ stopped_all)) × ((i : ℕ) → i < j → IsOver nf r i)

pub Advances : ℕ → (ℕ → ℕ) → Turns → Type 0
Advances np nf r =
    ((t : Turns) × Step np nf r t)
    ⊎ ((j : ℕ) × (j < np) × HasStopped nf r j)
    ⊎ ((i : ℕ) → i < np → IsOver nf r i)

Turn-cases :
    (t : Turn)
    → (t ≡ opening)
      ⊎ (t ≡ waiting)
      ⊎ (t ≡ holding)
      ⊎ (t ≡ appended)
      ⊎ ((t ≡ stopped_own) ⊎ (t ≡ stopped_all))
Turn-cases opening = inl refl
Turn-cases waiting = inr (inl refl)
Turn-cases holding = inr (inr (inl refl))
Turn-cases appended = inr (inr (inr (inl refl)))
Turn-cases stopped_own = inr (inr (inr (inr (inl refl))))
Turn-cases stopped_all = inr (inr (inr (inr (inr refl))))

module _ (np : ℕ) (nf : ℕ → ℕ) (fewer : (i : ℕ) → i + 1 < np → nf (i + 1) ≤ nf i) where
  StepsFrom : Turns → Type 0
  StepsFrom r = (t : Turns) × Step np nf r t

  Stops : Turns → Type 0
  Stops r = (j : ℕ) × (j < np) × HasStopped nf r j

  receives :
      (r : Turns) (j : ℕ)
      → Inv np nf r
      → j + 1 < np
      → IsOver nf r j
      → r.turn (j + 1) ≡ waiting
      → StepsFrom r
  unfolding StepsFrom
  receives r j v lt over w =
      let link = v.link j lt in
      let less = fewer j lt in
      let own = v.own (j + 1) lt in
      (
        _,
        receive (j + 1) (omega arith) lt w
            (ground (arith, link.flags_are, link.nextjob_is, own.rounds_le, over.1, less, w)),
      )

  -- A rank in front of its `MPI_Recv`, when the one before it is over.
  waits :
      (r : Turns) (k : ℕ)
      → Inv np nf r
      → k < np
      → ((i : ℕ) → i < k → IsOver nf r i)
      → r.turn k ≡ waiting
      → StepsFrom r
  unfolding StepsFrom
  waits r zero v lt before w = (_, first w)
  waits r (suc j) v lt before w =
      subst (λ (m : ℕ). m < np → r.turn m ≡ waiting → StepsFrom r) {x = j + 1} {y = suc j}
        (omega arith) (λ lt' w'. receives r j v lt' (before j (omega arith)) w') lt w

  -- A rank in front of a round.
  opens :
      (r : Turns) (k : ℕ) → Inv np nf r → k < np → r.turn k ≡ opening → StepsFrom r ⊎ IsOver nf r k
  unfolding StepsFrom
  opens r k v lt w = elim (lt-or (r.rounds k) (nf k)) [
    | inl more ↦ inl (_, open_own k lt w more)
    | inr all ↦ inr (w, ground (arith, (v.own k lt).rounds_le))
  ]

  one :
      (r : Turns) (k : ℕ)
      → Inv np nf r
      → k < np
      → ((i : ℕ) → i < k → IsOver nf r i)
      → StepsFrom r ⊎ Stops r ⊎ IsOver nf r k
  unfolding StepsFrom Stops
  one r k v lt before = elim (Turn-cases (r.turn k)) [
    | inl w ↦ elim (opens r k v lt w) [ inl step ↦ inl step | inr over ↦ inr (inr over) ]
    | inr (inl w) ↦ inl (waits r k v lt before w)
    | inr (inr (inl w)) ↦ inl (_, append k lt w)
    | inr (inr (inr (inl w))) ↦ inl (_, pass k lt w)
    | inr (inr (inr (inr w))) ↦ inr (inl (k, lt, (w, before)))
  ]

  upto :
      (r : Turns) (k : ℕ)
      → Inv np nf r
      → k ≤ np
      → StepsFrom r ⊎ Stops r ⊎ ((i : ℕ) → i < k → IsOver nf r i)
  upto r zero v le = inr (inr (λ i none. absurd (omega arith)))
  upto r (suc k) v le = elim (upto r k v (omega arith)) [
    | inl step ↦ inl step
    | inr (inl stop) ↦ inr (inl stop)
    | inr (inr before) ↦ elim (one r k v le before) [
      | inl step ↦ inl step
      | inr (inl stop) ↦ inr (inl stop)
      | inr (inr over) ↦ inr (
          inr (λ i lt. elim (lt-or i k) [
            | inl earlier ↦ before i earlier
            | inr last ↦ subst (IsOver nf r) {x = k} {y = i} (omega arith) over
          ]))
    ]
  ]

  -- In every state that is reached, with no rank having more files than the one before it, some
  -- rank can make a step, or a rank has returned with an error and those before it are over, or all
  -- are over.
  turns-Advances : (r : Turns) → Reached np nf r → Advances np nf r
  unfolding Advances StepsFrom Stops
  turns-Advances r reached = upto r np (Reached-Inv np nf reached) (omega arith)

nf_of-fewer : (fcount np i : ℕ) → nf_of fcount np (i + 1) ≤ nf_of fcount np i
unfolding nf_of
nf_of-fewer fcount np i = ground arith

-- With the record files spread as the interval tool does it, in every state that the ranks reach
-- in their turns at all.csv, some rank can make a step, or a rank has returned because a file does
-- not open, and the ranks before it have appended all their files, or all ranks have.
pub files-Advances :
    (fcount np : ℕ) (r : Turns) → Reached np (nf_of fcount np) r → Advances np (nf_of fcount np) r
files-Advances fcount np r reached =
    turns-Advances np (nf_of fcount np) (λ i lt. nf_of-fewer fcount np i) r reached
