-- ===== src/Mpi/Ring/Order.antt =====
-- The ring: one rank at a time makes its directory, in the order of the ranks.
use native.Mathlib.Nat.{mod_self, mod-eq_of_lt}
use perf_hound.Prelude.{
  ℕ, zero, suc, ◌+◌, ◌-◌, ◌%◌, ◌≤◌, ◌<◌, ◌≡◌, ◌≢◌, refl, sym, ap, ap₂, ◌∙◌, arith, List, [], ◌∷◌,
  ◌++◌, ◌==◌, ltb, if◌then◌else◌, inl, inr, Bool-cases,
}
use perf_hound.Mpi.Ring.{Stage, Ring, update, started, token, Step, Reached}

-- The ranks below `k`, the latest first.
unfoldable pub down : ℕ → List ℕ
down zero = []
down (suc k) = k ∷ down k

-- The stages when the ranks below `k` have made their directories and `k` is at `v`.
abbrev pub shape : ℕ → Stage → ℕ → Stage
shape k v i =
    if ltb i k
    then (if i == 0 then Stage.closing else Stage.ended)
    else if i == k
    then v
    else Stage.waiting

-- A rank makes its directory, its message is on the way, it has failed, or all are at the end.
pub data Phase (n : ℕ) (r : Ring) (k : ℕ) : Type 0 where
  holding :
      k < n → r.sent ≡ [] → ((i : ℕ) → i < n → r.stage i ≡ shape k Stage.making i) → Phase n r k
  flying :
      0 < k
      → k ≤ n
      → r.sent ≡ (k - 1, (if k == n then 0 else k), k - 1) ∷ []
      → ((i : ℕ) → i < n → r.stage i ≡ shape k Stage.waiting i)
      → Phase n r k
  stuck : k < n → r.sent ≡ [] → ((i : ℕ) → i < n → r.stage i ≡ shape k Stage.failed i) → Phase n r k
  over : k ≡ n → r.sent ≡ [] → ((i : ℕ) → i < n → r.stage i ≡ Stage.ended) → Phase n r k

unfoldable pub Inv : ℕ → Ring → Type 0
Inv n r = (k : ℕ) × (r.made ≡ down k) × Phase n r k

not_nil : {A : Type 0} (xs ys : List A) (x : A) → [] ≢ xs ++ x ∷ ys
not_nil [] ys x e = ground (arith, e)
not_nil (z ∷ xs) ys x e = ground (arith, e)

only_one :
    {A : Type 0} (xs ys : List A) (x y : A) → y ∷ [] ≡ xs ++ x ∷ ys → (y ≡ x) × (xs ++ ys ≡ [])
only_one [] ys x y e = ground (arith, e)
only_one (z ∷ xs) ys x y e = absurd (not_nil xs ys x (ground (arith, e)))

started-Inv : (n : ℕ) → 2 ≤ n → Inv n started
unfolding Inv down
started-Inv n h = (0, refl, Phase.holding (omega arith) refl (λ i lt. ground arith))

Inv-receive :
    (n : ℕ) (r : Ring) (i k : ℕ) (before after : List (ℕ × ℕ × ℕ))
    → 0 < i
    → i < n
    → r.stage i ≡ Stage.waiting
    → r.sent ≡ before ++ (i - 1, i, i - 1) ∷ after
    → r.made ≡ down k
    → Phase n r k
    → Inv n
        (record { stage = update r.stage i Stage.making; sent = before ++ after; made = r.made })
unfolding Inv update
Inv-receive n r i k before after pos lt w e m (Phase.holding a b c) =
    absurd (not_nil before after _ (sym b ∙ e))
Inv-receive n r i k before after pos lt w e m (Phase.stuck a b c) =
    absurd (not_nil before after _ (sym b ∙ e))
Inv-receive n r i k before after pos lt w e m (Phase.over a b c) =
    absurd (not_nil before after _ (sym b ∙ e))
Inv-receive n r i k before after pos lt w e m (Phase.flying kpos kle b c) =
    let (same, rest) = only_one before after _ _ (sym b ∙ e) in
    let here : i ≡ k = ground (arith, same) in
    (k, m, Phase.holding (omega arith) rest (λ j ltj. ground (arith, c j ltj)))

token-next :
    (n i : ℕ)
    → 2 ≤ n
    → i < n
    → token n i ≡ (suc i - 1, (if suc i == n then 0 else suc i), suc i - 1)
token-next n i two lt = elim (Bool-cases (suc i == n)) [
  | inl last ↦
      (let e : i + 1 ≡ n = ground arith in
        let r : (i + 1) % n ≡ 0 = ap (λ (x : ℕ). x % n) e ∙ mod_self n in ground (arith, r))
  | inr inner ↦ (let r : (i + 1) % n ≡ i + 1 = mod-eq_of_lt (ground arith) in ground (arith, r))
]

Inv-make :
    (n : ℕ) (r : Ring) (i k : ℕ)
    → 2 ≤ n
    → i < n
    → r.stage i ≡ Stage.making
    → r.made ≡ down k
    → Phase n r k
    → Inv n (record {
      stage = update r.stage i (if i == 0 then Stage.closing else Stage.ended);
      sent = token n i ∷ r.sent;
      made = i ∷ r.made;
    })
unfolding Inv update down
Inv-make n r i k two lt w m (Phase.holding a b c) =
    let here : i ≡ k = ground (arith, c i lt) in
    (
      suc i,
      ap (λ ms. i ∷ ms) (m ∙ ap down (sym here)),
      Phase.flying (omega arith) (omega arith) (ap₂ ◌∷◌ (token-next n i two lt) b)
          (λ j ltj. ground (arith, c j ltj)),
    )
Inv-make n r i k two lt w m (Phase.stuck a b c) = absurd (ground (arith, c i lt))
Inv-make n r i k two lt w m (Phase.over a b c) = absurd (ground (arith, c i lt))
Inv-make n r i k two lt w m (Phase.flying kpos kle b c) = absurd (ground (arith, c i lt))

Inv-fail :
    (n : ℕ) (r : Ring) (i k : ℕ)
    → i < n
    → r.stage i ≡ Stage.making
    → r.made ≡ down k
    → Phase n r k
    → Inv n (record { stage = update r.stage i Stage.failed; sent = r.sent; made = r.made })
unfolding Inv update
Inv-fail n r i k lt w m (Phase.holding a b c) =
    let here : i ≡ k = ground (arith, c i lt) in
    (k, m, Phase.stuck a b (λ j ltj. ground (arith, c j ltj)))
Inv-fail n r i k lt w m (Phase.stuck a b c) = absurd (ground (arith, c i lt))
Inv-fail n r i k lt w m (Phase.over a b c) = absurd (ground (arith, c i lt))
Inv-fail n r i k lt w m (Phase.flying kpos kle b c) = absurd (ground (arith, c i lt))

Inv-close :
    (n : ℕ) (r : Ring) (k : ℕ) (before after : List (ℕ × ℕ × ℕ))
    → 2 ≤ n
    → r.sent ≡ before ++ (n - 1, 0, n - 1) ∷ after
    → r.made ≡ down k
    → Phase n r k
    → Inv n (record { stage = update r.stage 0 Stage.ended; sent = before ++ after; made = r.made })
unfolding Inv update
Inv-close n r k before after two e m (Phase.holding a b c) =
    absurd (not_nil before after _ (sym b ∙ e))
Inv-close n r k before after two e m (Phase.stuck a b c) =
    absurd (not_nil before after _ (sym b ∙ e))
Inv-close n r k before after two e m (Phase.over a b c) =
    absurd (not_nil before after _ (sym b ∙ e))
Inv-close n r k before after two e m (Phase.flying kpos kle b c) =
    let (same, rest) = only_one before after _ _ (sym b ∙ e) in
    let all_done : k ≡ n = ground (arith, same) in
    (k, m, Phase.over all_done rest (λ j ltj. ground (arith, c j ltj)))

Phase-le : (n : ℕ) (r : Ring) (k : ℕ) → Phase n r k → k ≤ n
Phase-le n r k (Phase.holding a b c) = omega arith
Phase-le n r k (Phase.flying kpos kle b c) = kle
Phase-le n r k (Phase.stuck a b c) = omega arith
Phase-le n r k (Phase.over a b c) = omega arith

Phase-alone :
    (n : ℕ) (r : Ring) (k i j : ℕ)
    → Phase n r k
    → i < n
    → j < n
    → r.stage i ≡ Stage.making
    → r.stage j ≡ Stage.making
    → i ≡ j
Phase-alone n r k i j (Phase.holding a b c) lti ltj wi wj = ground (arith, c i lti, c j ltj)
Phase-alone n r k i j (Phase.flying kpos kle b c) lti ltj wi wj = absurd (ground (arith, c i lti))
Phase-alone n r k i j (Phase.stuck a b c) lti ltj wi wj = absurd (ground (arith, c i lti))
Phase-alone n r k i j (Phase.over a b c) lti ltj wi wj = absurd (ground (arith, c i lti))

pub Reached-Inv : (n : ℕ) {r : Ring} → 2 ≤ n → Reached n r → Inv n r
unfolding Inv
Reached-Inv n two Reached.start = started-Inv n two
Reached-Inv n two (Reached.next before (Step.receive {r} i xs ys pos lt w e)) =
    let (k, m, p) = Reached-Inv n two before in Inv-receive n r i k xs ys pos lt w e m p
Reached-Inv n two (Reached.next before (Step.make {r} i lt w)) =
    let (k, m, p) = Reached-Inv n two before in Inv-make n r i k two lt w m p
Reached-Inv n two (Reached.next before (Step.fail {r} i lt w)) =
    let (k, m, p) = Reached-Inv n two before in Inv-fail n r i k lt w m p
Reached-Inv n two (Reached.next before (Step.close {r} xs ys w e)) =
    let (k, m, p) = Reached-Inv n two before in Inv-close n r k xs ys two e m p

-- With two ranks or more, in every state that the ring reaches, the ranks that have made their
-- directories are the first k ranks in their order, for a k that is at most the number of ranks.
pub made-in_order : (n : ℕ) (r : Ring) → 2 ≤ n → Reached n r → (k : ℕ) × (k ≤ n) × (r.made ≡ down k)
unfolding Inv
made-in_order n r two reached =
    let (k, m, p) = Reached-Inv n two reached in (k, Phase-le n r k p, m)

-- With two ranks or more, in every state that the ring reaches, no two different ranks are making
-- their directories.
pub making-alone :
    (n : ℕ) (r : Ring) (i j : ℕ)
    → 2 ≤ n
    → Reached n r
    → i < n
    → j < n
    → r.stage i ≡ Stage.making
    → r.stage j ≡ Stage.making
    → i ≡ j
unfolding Inv
making-alone n r i j two reached lti ltj wi wj =
    let (k, m, p) = Reached-Inv n two reached in Phase-alone n r k i j p lti ltj wi wj
