-- ===== src/Kmod/Sysfs/Write/Loop.antt =====
-- `store_each`, for any array that its body writes one place at a time.
use perf_hound.Prelude.{
  ℕ, zero, suc, ◌+◌, ◌-◌, ◌≤◌, ◌<◌, ◌≡◌, ◌∙◌, refl, sym, List, some, arith, ltb, leb, ◌==◌,
  if◌then◌else◌, length, get_elem?, get_or, ◌&&◌, [], ◌∷◌, ap,
}
use perf_hound.Prelude.Run.{done}
use perf_hound.Kmod.Sysfs.{store_each}

get_elem?-eq-get_or : (xs : List ℕ) (i : ℕ) → i < length xs → get_elem? xs i ≡ some (get_or xs i 0)
get_elem?-eq-get_or [] i h = absurd (omega arith)
get_elem?-eq-get_or (x ∷ xs) zero h = refl
get_elem?-eq-get_or (x ∷ xs) (suc i) h = get_elem?-eq-get_or xs i (omega arith)

module _ {S : Type 0} (buf : List ℕ) (f : S → ℕ → ℕ → S) where
  store_each-suc :
      (n i j : ℕ) (s : S)
      → j < length buf
      → store_each buf f (suc n) i j s ≡ store_each buf f n (i + 1) (j + 1) (f s i (get_or buf j 0))
  unfolding store_each
  store_each-suc n i j s h = rw (get_elem?-eq-get_or buf j h)

  enc_at :
      (enc : ℕ → ℕ → ℕ → ℕ) (k old p q : ℕ)
      → p ≡ q
      → enc k (get_or buf p 0) old ≡ enc k (get_or buf q 0) old
  enc_at enc k old p q e = ap (λ r. enc k (get_or buf r 0) old) e

  -- The loop returns; place `k` of a view that a round changes only at its own place holds what the
  -- round for `k` made of the word at the same distance in the buffer.
  pub store_each_lem :
      (size : ℕ) (view : S → ℕ → ℕ) (enc : ℕ → ℕ → ℕ → ℕ)
      → ((s : S) (i word k : ℕ)
          → i < size
          → k < size
          → view (f s i word) k ≡ (if k == i then enc k word (view s k) else view s k))
      → (n i j : ℕ) (s : S) → i + n ≤ size
      → j + n ≤ length buf
      → (t : S) × (store_each buf f n i j s ≡ done t)
        × ((k : ℕ)
            → k < size
            → view t k ≡ (
                if leb i k && ltb k (i + n)
                then enc k (get_or buf (j + (k - i)) 0) (view s k)
                else view s k))
  unfolding store_each
  store_each_lem size view enc one zero i j s hi hj = (s, refl, λ k hk. ground arith)
  store_each_lem size view enc one (suc n) i j s hi hj =
      let w = get_or buf j 0 in
      let (t, runs, views) =
        store_each_lem size view enc one n (i + 1) (j + 1) (f s i w) (omega arith) (omega arith) in
      (
        t,
        store_each-suc n i j s (omega arith) ∙ runs,
        λ k hk.
            views k hk
            ∙ ground (
              arith,
              one s i w k (omega arith) hk,
              enc_at enc k (view s k) (j + 1 + (k - (i + 1))) (j + (k - i)),
              enc_at enc k (view s k) j (j + (k - i)),
            ),
      )

  -- A view that no round changes is kept.
  pub store_each_keeps :
      (size : ℕ) (view : S → ℕ)
      → ((s : S) (i word : ℕ) → i < size → view (f s i word) ≡ view s)
      → (n i j : ℕ) (s t : S) → i + n ≤ size
      → j + n ≤ length buf
      → store_each buf f n i j s ≡ done t
      → view t ≡ view s
  unfolding store_each
  store_each_keeps size view one zero i j s t hi hj e = ground arith
  store_each_keeps size view one (suc n) i j s t hi hj e =
      let w = get_or buf j 0 in
      let inner = sym (store_each-suc n i j s (omega arith)) ∙ e in
      store_each_keeps size view one n (i + 1) (j + 1) (f s i w) t (omega arith) (omega arith) inner
      ∙ one s i w (omega arith)
