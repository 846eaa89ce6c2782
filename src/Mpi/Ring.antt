-- ===== src/Mpi/Ring.antt =====
-- `ph_mpi_mkhost` of src/probe/mpi_op.c: the ranks make their directories one after the other.
pub mod Order
pub mod Progress
use perf_hound.Prelude.{
  ℕ, zero, suc, ◌+◌, ◌-◌, ◌%◌, ◌≤◌, ◌<◌, ◌≡◌, ◌≢◌, ◌⊎◌, refl, arith, List, [], ◌∷◌, ◌++◌, Bool,
  true, false, ◌==◌, if◌then◌else◌, inl, inr,
}

-- Where a rank is: in its `MPI_Recv`, behind it and about to make its directory, in the last
-- `MPI_Recv` of rank 0, at the end, or at an early end after an error.
pub data Stage : Type 0 where
  waiting making closing ended failed : Stage

-- The ranks' stages; the messages on the way, each as its source, its destination and its tag;
-- and the ranks that made their directories, the latest first.
pub record Ring : Type 0 where
  pub stage : ℕ → Stage
  pub sent : List (ℕ × ℕ × ℕ)
  pub made : List ℕ

unfoldable pub update : (ℕ → Stage) → ℕ → Stage → ℕ → Stage
update f i v j = if j == i then v else f j

-- At the start, rank 0 is about to make its directory and the others wait.
abbrev pub started : Ring
started = record {
  stage = λ i. if i == 0 then Stage.making else Stage.waiting;
  sent = [];
  made = [];
}

-- What rank `i` of `nrank` sends when it has made its directory.
abbrev pub token : ℕ → ℕ → ℕ × ℕ × ℕ
token nrank i = if i == 0 then (0, 1, 0) else (i, (i + 1) % nrank, i)

-- What a rank does: it receives the message of its predecessor; it makes its directory and sends;
-- it fails to make it; or it is rank 0 and receives the message of the last rank.
pub data Step (nrank : ℕ) : Ring → Ring → Type 0 where
  receive :
      {r : Ring} (i : ℕ) (before after : List (ℕ × ℕ × ℕ))
      → 0 < i
      → i < nrank
      → r.stage i ≡ Stage.waiting
      → r.sent ≡ before ++ (i - 1, i, i - 1) ∷ after
      → Step nrank r
          (record { stage = update r.stage i Stage.making; sent = before ++ after; made = r.made })
  make :
      {r : Ring} (i : ℕ)
      → i < nrank
      → r.stage i ≡ Stage.making
      → Step nrank r (record {
        stage = update r.stage i (if i == 0 then Stage.closing else Stage.ended);
        sent = token nrank i ∷ r.sent;
        made = i ∷ r.made;
      })
  fail :
      {r : Ring} (i : ℕ)
      → i < nrank
      → r.stage i ≡ Stage.making
      → Step nrank r
          (record { stage = update r.stage i Stage.failed; sent = r.sent; made = r.made })
  close :
      {r : Ring} (before after : List (ℕ × ℕ × ℕ))
      → r.stage 0 ≡ Stage.closing
      → r.sent ≡ before ++ (nrank - 1, 0, nrank - 1) ∷ after
      → Step nrank r
          (record { stage = update r.stage 0 Stage.ended; sent = before ++ after; made = r.made })

pub data Reached (nrank : ℕ) : Ring → Type 0 where
  start : Reached nrank started
  next : {r t : Ring} → Reached nrank r → Step nrank r t → Reached nrank t
