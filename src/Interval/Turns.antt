-- ===== src/Interval/Turns.antt =====
-- How the ranks of `calc_interval` take turns to append to all.csv: a rank that has appended a file
-- sends a flag to the next one, which waits for one flag for each of its files. A rank that cannot
-- open a file to write returns, and sends no more flags.
pub mod Order
pub mod Progress
use perf_hound.Prelude.{
  ℕ, zero, suc, ◌+◌, ◌-◌, ◌≤◌, ◌<◌, ◌≡◌, ◌≢◌, Bool, true, false, ◌&&◌, not, ◌==◌, if◌then◌else◌,
}

-- Where a rank is in its loop: in front of a round, in front of its `MPI_Recv`, about to append, or
-- behind that; or it has returned because its own file or all.csv does not open.
pub data Turn : Type 0 where
  opening waiting holding appended stopped_own stopped_all : Turn

-- For each rank: its turn, the rounds that it has ended, the files that it has appended, the flags
-- on the way to it, and its `nextjob`.
pub record Turns : Type 0 where
  pub turn : ℕ → Turn
  pub rounds : ℕ → ℕ
  pub shown : ℕ → ℕ
  pub flags : ℕ → ℕ
  pub nextjob : ℕ → ℕ

unfoldable pub update {ℓ} : {A : Type ℓ} → (ℕ → A) → ℕ → A → ℕ → A
update f i v j = if j == i then v else f j

-- With `nf i` files for rank `i`, after the exchange of the numbers of files.
abbrev pub begun : (ℕ → ℕ) → Turns
begun nf = record {
  turn = λ i. opening;
  rounds = λ i. 0;
  shown = λ i. 0;
  flags = λ i. 0;
  nextjob = λ i. nf (i + 1);
}

-- Whether rank `i` of `np` sends a flag.
abbrev pub passes : ℕ → Turns → ℕ → Bool
passes np r i = not (i + 1 == np) && not (r.nextjob i == 0)

module _ (np : ℕ) (nf : ℕ → ℕ) where
  -- A rank opens and writes its own file. Rank 0 goes on by itself, the others receive a flag; then
  -- a rank opens all.csv and appends; then it sends.
  pub data Step (r : Turns) : Turns → Type 0 where
    open_own :
        (i : ℕ)
        → i < np
        → r.turn i ≡ opening
        → r.rounds i < nf i
        → Step r (record r { turn = update r.turn i waiting })
    fail_own :
        (i : ℕ)
        → i < np
        → r.turn i ≡ opening
        → r.rounds i < nf i
        → Step r (record r { turn = update r.turn i stopped_own })
    first : r.turn 0 ≡ waiting → Step r (record r { turn = update r.turn 0 holding })
    receive :
        (i : ℕ)
        → 0 < i
        → i < np
        → r.turn i ≡ waiting
        → 0 < r.flags i
        → Step r
            (record r { turn = update r.turn i holding; flags = update r.flags i (r.flags i - 1) })
    fail_all :
        (i : ℕ)
        → i < np
        → r.turn i ≡ holding
        → Step r (record r { turn = update r.turn i stopped_all })
    append :
        (i : ℕ)
        → i < np
        → r.turn i ≡ holding
        → Step r
            (record r { turn = update r.turn i appended; shown = update r.shown i (r.shown i + 1) })
    pass :
        (i : ℕ)
        → i < np
        → r.turn i ≡ appended
        → Step r (record r {
          turn = update r.turn i opening;
          rounds = update r.rounds i (r.rounds i + 1);
          flags = (if passes np r i then update r.flags (i + 1) (r.flags (i + 1) + 1) else r.flags);
          nextjob = (if passes np r i then update r.nextjob i (r.nextjob i - 1) else r.nextjob);
        })

  pub data Reached : Turns → Type 0 where
    start : Reached (begun nf)
    next : {r t : Turns} → Reached r → Step r t → Reached t
