-- ===== src/Probe/Paths/Directory.antt =====
-- `ph_io_mkdir`: a directory with all directories above it.
use perf_hound.Prelude.{
  ℕ, zero, suc, ◌≡◌, ◌⊎◌, inl, inr, refl, sym, ap, subst, ◌∙◌, arith, true, false, ◌&&◌, drop, List,
  [], ◌∷◌, ◌++◌, Bytes, codes, Option, none, some, ◌==◌, if◌then◌else◌, All, Bool-cases,
}
use perf_hound.Prelude.Run.{Run, done, fault}
use perf_hound.Event.Libc.{at}
use perf_hound.Probe.Paths.{slash, eexist, Os, IsLawful}

-- "~/", given `getenv("HOME")` and the directory in the list of users.
unfoldable pub expanded : Option Bytes → Bytes → Bytes → Bytes
expanded env pw_dir path =
    if at path 0 == 126 && at path 1 == slash
    then elim env [
      | none ↦ pw_dir ++ codes "/" ++ drop 2 path
      | some home ↦ home ++ codes "/" ++ drop 2 path
    ]
    else path

module _ (os : Os) where
  -- A call of `mkdir` that passes over EEXIST.
  unfoldable pub make : Bytes → os.State → ℕ × os.State
  make p s = let r = os.mkdir s p in (if r.0 == eexist then 0 else r.0, r.1)

  -- `for (p = tmp_path + 1; *p != '\0'; p++)` and the last call, with what is in front of `p`.
  unfoldable pub walk : Bytes → Bytes → os.State → ℕ × os.State
  walk seen [] s = make seen s
  walk seen (c ∷ rest) s = elim (c == slash) [
    | false ↦ walk (seen ++ c ∷ []) rest s
    | true ↦
        (let m = make seen s in elim (m.0) [ zero ↦ walk (seen ++ c ∷ []) rest (m.1) | suc e ↦ m ])
  ]

  -- Behind the expansion of the path. An empty path is read behind its NUL.
  unfoldable pub walk_path : Bytes → os.State → Run (ℕ × os.State)
  walk_path [] s = fault
  walk_path (c ∷ rest) s = done (walk (c ∷ []) rest s)

  -- The answer is 0 or an `errno`.
  unfoldable pub mkdir_path : Bytes → os.State → Run (ℕ × os.State)
  unfolding expanded walk_path
  mkdir_path path s = walk_path (expanded os.home os.user_dir path) s

-- The directories of a path: what is in front of each slash behind the first byte, and the path.
unfoldable pub stations : Bytes → Bytes → List Bytes
stations seen [] = seen ∷ []
stations seen (c ∷ rest) =
    let later = stations (seen ++ c ∷ []) rest in if c == slash then seen ∷ later else later

pub List-cases : (t : Bytes) → (t ≡ []) ⊎ ((c : ℕ) × (rest : Bytes) × (t ≡ c ∷ rest))
List-cases [] = inl refl
List-cases (c ∷ rest) = inr (c, rest, refl)

zero-or : (n : ℕ) → (n ≡ 0) ⊎ ((k : ℕ) × (n ≡ suc k))
zero-or zero = inl refl
zero-or (suc k) = inr (k, refl)

module _ (os : Os) (law : IsLawful os) where
  make-exists :
      (p : Bytes) (s : os.State) → (make os p s).0 ≡ 0 → os.exists ((make os p s).1) p ≡ true
  unfolding make
  make-exists p s e = elim (Bool-cases ((os.mkdir s p).0 == eexist)) [
    | inl there ↦ law.mkdir-keeps s p p (law.mkdir-eexist s p (ground arith))
    | inr not_there ↦ law.mkdir_made s p (ground (arith, e, not_there))
  ]

  make-keeps :
      (p q : Bytes) (s : os.State) → os.exists s q ≡ true → os.exists ((make os p s).1) q ≡ true
  unfolding make
  make-keeps p q s e = law.mkdir-keeps s p q e

  walk_other :
      (seen rest : Bytes) (c : ℕ) (s : os.State)
      → (c == slash) ≡ false
      → walk os seen (c ∷ rest) s ≡ walk os (seen ++ c ∷ []) rest s
  unfolding walk
  walk_other seen rest c s e = rw (walk, e) refl

  walk_made :
      (seen rest : Bytes) (c : ℕ) (s : os.State)
      → (c == slash) ≡ true
      → (make os seen s).0 ≡ 0
      → walk os seen (c ∷ rest) s ≡ walk os (seen ++ c ∷ []) rest ((make os seen s).1)
  unfolding walk
  walk_made seen rest c s e ok = rw (walk, e, ok) refl

  walk_failed :
      (seen rest : Bytes) (c k : ℕ) (s : os.State)
      → (c == slash) ≡ true
      → (make os seen s).0 ≡ suc k
      → walk os seen (c ∷ rest) s ≡ make os seen s
  unfolding walk
  walk_failed seen rest c k s e bad =
      rw (walk, e, bad) (ap (λ (n : ℕ). (n, (make os seen s).1)) bad)

  answer_of : (s : os.State) {a b : ℕ × os.State} → done a ≡ done b → a ≡ b
  answer_of s {a} e = ap (λ o. elim o [ done x ↦ x | _ ↦ a ]) e

  walk-keeps :
      (seen rest q : Bytes) (s : os.State)
      → os.exists s q ≡ true
      → os.exists ((walk os seen rest s).1) q ≡ true
  unfolding walk
  walk-keeps seen [] q s e = make-keeps seen q s e
  walk-keeps seen (c ∷ rest) q s e = elim (Bool-cases (c == slash)) [
    | inr other ↦ rw (walk_other seen rest c s other) (walk-keeps (seen ++ c ∷ []) rest q s e)
    | inl here ↦ elim (zero-or ((make os seen s).0)) [
      | inl ok ↦
          rw (walk_made seen rest c s here ok)
            (walk-keeps (seen ++ c ∷ []) rest q ((make os seen s).1) (make-keeps seen q s e))
      | inr (k, bad) ↦ rw (walk_failed seen rest c k s here bad) (make-keeps seen q s e)
    ]
  ]

  -- When the walk succeeds, the path and every directory above it exist.
  walk-stations :
      (seen rest : Bytes) (s : os.State)
      → (walk os seen rest s).0 ≡ 0
      → All (λ q. os.exists ((walk os seen rest s).1) q ≡ true) (stations seen rest)
  unfolding walk stations
  walk-stations seen [] s e = (make-exists seen s e, tt)
  walk-stations seen (c ∷ rest) s e = elim (Bool-cases (c == slash)) [
    | inr other ↦
        rw (walk_other seen rest c s other, other)
          (walk-stations (seen ++ c ∷ []) rest s (rw (walk_other seen rest c s other) at e))
    | inl here ↦ elim (zero-or ((make os seen s).0)) [
      | inl ok ↦
          rw (walk_made seen rest c s here ok, here)
            (
              walk-keeps (seen ++ c ∷ []) rest seen ((make os seen s).1) (make-exists seen s ok),
              walk-stations (seen ++ c ∷ []) rest ((make os seen s).1)
                  (rw (walk_made seen rest c s here ok) at e),
            )
      | inr (k, bad) ↦ absurd (ground (arith, bad, rw (walk_failed seen rest c k s here bad) at e))
    ]
  ]

  mkdir_path-walk :
      (path : Bytes) (c : ℕ) (rest : Bytes) (s : os.State)
      → expanded os.home os.user_dir path ≡ c ∷ rest
      → mkdir_path os path s ≡ done (walk os (c ∷ []) rest s)
  unfolding mkdir_path walk_path
  mkdir_path-walk path c rest s full = ap (λ p. walk_path os p s) full

  -- What is made is not empty.
  pub mkdir_path-expanded :
      (path : Bytes) (s : os.State) (m : ℕ × os.State)
      → mkdir_path os path s ≡ done m
      → (c : ℕ) × (rest : Bytes) × (expanded os.home os.user_dir path ≡ c ∷ rest)
  unfolding mkdir_path walk_path
  mkdir_path-expanded path s m e = elim (List-cases (expanded os.home os.user_dir path)) [
    | inl none_given ↦ absurd (ground (arith, sym (ap (λ p. walk_path os p s) none_given) ∙ e))
    | inr given ↦ given
  ]

  -- On a file system that keeps its laws, when a directory is made with those above it, the path,
  -- with the home directory in place of the ~ if it begins with ~/, and every directory above it
  -- exist afterwards, and so does every path that existed before.
  pub mkdir_path-stations :
      (path : Bytes) (c : ℕ) (rest : Bytes) (s t : os.State)
      → expanded os.home os.user_dir path ≡ c ∷ rest
      → mkdir_path os path s ≡ done (0, t)
      → All (λ q. os.exists t q ≡ true) (stations (c ∷ []) rest)
        × ((q : Bytes) → os.exists s q ≡ true → os.exists t q ≡ true)
  mkdir_path-stations path c rest s t full e =
      let r = answer_of s (sym (mkdir_path-walk path c rest s full) ∙ e) in
      let code : (walk os (c ∷ []) rest s).0 ≡ 0 = ap (λ x. x.0) r in
      let after : (walk os (c ∷ []) rest s).1 ≡ t = ap (λ x. x.1) r in
      (
        subst (λ u. All (λ q. os.exists u q ≡ true) (stations (c ∷ []) rest)) after
            (walk-stations (c ∷ []) rest s code),
        λ q old. subst (λ u. os.exists u q ≡ true) after (walk-keeps (c ∷ []) rest q s old),
      )

  make_old : (p : Bytes) (s : os.State) → os.exists s p ≡ true → make os p s ≡ (0, s)
  unfolding make
  make_old p s e =
      let there : (os.mkdir s p).0 ≡ eexist = law.mkdir_old s p e in
      let same : (os.mkdir s p).1 ≡ s = law.mkdir_failed s p (ground (arith, there)) in
      rw (there, same) refl

  walk_old :
      (seen rest : Bytes) (s : os.State)
      → All (λ q. os.exists s q ≡ true) (stations seen rest)
      → walk os seen rest s ≡ (0, s)
  unfolding stations
  walk_old seen [] s e = unfold walk in make_old seen s e.0
  walk_old seen (c ∷ rest) s e = elim (Bool-cases (c == slash)) [
    | inr other ↦
        rw (walk_other seen rest c s other) (walk_old (seen ++ c ∷ []) rest s (rw other at e))
    | inl here ↦
        (let f = rw here at e in
          walk_made seen rest c s here (ap (λ r. r.0) (make_old seen s f.0))
          ∙ ap (λ r. walk os (seen ++ c ∷ []) rest (r.1)) (make_old seen s f.0)
          ∙ walk_old (seen ++ c ∷ []) rest s f.1)
  ]

  -- On a tree that is there, nothing is changed, and it is no error.
  pub mkdir_path_old :
      (path : Bytes) (c : ℕ) (rest : Bytes) (s : os.State)
      → expanded os.home os.user_dir path ≡ c ∷ rest
      → All (λ q. os.exists s q ≡ true) (stations (c ∷ []) rest)
      → mkdir_path os path s ≡ done (0, s)
  mkdir_path_old path c rest s full e =
      mkdir_path-walk path c rest s full ∙ ap done (walk_old (c ∷ []) rest s e)
