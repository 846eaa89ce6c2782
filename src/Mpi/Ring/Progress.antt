-- ===== src/Mpi/Ring/Progress.antt =====
-- The ring never blocks before all ranks are at the end, unless one has failed.
use perf_hound.Prelude.{ℕ, ◌≤◌, ◌<◌, ◌≡◌, ◌⊎◌, arith, [], ◌==◌, inl, inr, Bool-cases}
use perf_hound.Mpi.Ring.{Stage, Ring, Step, Reached}
use perf_hound.Mpi.Ring.Order.{Phase, Inv, Reached-Inv}

-- A step can be made, or a rank has failed, or all ranks are at the end.
pub Advances : ℕ → Ring → Type 0
Advances n r =
    ((t : Ring) × Step n r t)
    ⊎ ((k : ℕ) × (k < n) × (r.stage k ≡ Stage.failed))
    ⊎ ((i : ℕ) → i < n → r.stage i ≡ Stage.ended)

Phase-Advances : (n : ℕ) (r : Ring) (k : ℕ) → 2 ≤ n → Phase n r k → Advances n r
unfolding Advances
Phase-Advances n r k two (Phase.holding a b c) = inl (_, Step.make k a (ground (arith, c k a)))
Phase-Advances n r k two (Phase.stuck a b c) = inr (inl (k, a, ground (arith, c k a)))
Phase-Advances n r k two (Phase.over a b c) = inr (inr c)
Phase-Advances n r k two (Phase.flying pos le b c) = elim (Bool-cases (k == n)) [
  | inl last ↦
      (let e : k ≡ n = ground arith in
        inl (_, Step.close [] [] (ground (arith, c 0 (omega arith))) (ground (arith, b))))
  | inr inner ↦
      (let lt : k < n = ground arith in
        inl (_, Step.receive k [] [] pos lt (ground (arith, c k lt)) (ground (arith, b))))
]

-- With two ranks or more, in every state that the ring reaches, some rank can make a step, or a
-- rank has failed, or all ranks are at the end.
pub ring-Advances : (n : ℕ) (r : Ring) → 2 ≤ n → Reached n r → Advances n r
unfolding Inv
ring-Advances n r two reached =
    let (k, m, p) = Reached-Inv n two reached in Phase-Advances n r k two p
