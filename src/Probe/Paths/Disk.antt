-- ===== src/Probe/Paths/Disk.antt =====
-- A file system that keeps its paths in a list, each with its text.
use perf_hound.Prelude.{
  ℕ, ◌≡◌, refl, sym, subst, some_inj, ap, ◌∙◌, arith, Bool, true, false, ◌&&◌, ◌||◌, List, [], ◌∷◌,
  ◌++◌, Bytes, codes, some, ◌==◌, if◌then◌else◌, length, length-append, inl, inr, Bool-cases,
}
use perf_hound.Probe.Paths.{eexist, Os, IsLawful}

abbrev pub Disk : Type 0
Disk = List (Bytes × Bytes)

unfoldable pub same : Bytes → Bytes → Bool
same [] [] = true
same (x ∷ xs) (y ∷ ys) = (x == y) && same xs ys
same _ _ = false

unfoldable pub exists : Disk → Bytes → Bool
exists [] p = false
exists ((q, text) ∷ d) p = same q p || exists d p

-- The text of a path that is there.
unfoldable pub text_at : Disk → Bytes → Bytes
text_at [] p = []
text_at ((q, text) ∷ d) p = let later = text_at d p in if same q p then text else later

abbrev pub mkdir : Disk → Bytes → ℕ × Disk
mkdir d p = if exists d p then (eexist, d) else (0, (p, []) ∷ d)

abbrev pub disk : Os
disk = record {
  State = Disk;
  home = some (codes "/h");
  user_dir = codes "/u";
  exists = exists;
  mkdir = mkdir;
  realpath = λ d p. if exists d p then inr p else inl 2;
  size = λ d p. length (text_at d p);
  put = λ d p text. some ((p, text) ∷ d);
  add = λ d p text. some ((p, text_at d p ++ text) ∷ d);
}

same_refl : (p : Bytes) → same p p ≡ true
unfolding same
same_refl [] = refl
same_refl (x ∷ xs) = ground (arith, same_refl xs)

exists-cons : (d : Disk) (p text q : Bytes) → exists d q ≡ true → exists ((p, text) ∷ d) q ≡ true
unfolding exists
exists-cons d p text q e = ground (arith, e)

exists_here : (d : Disk) (p text : Bytes) → exists ((p, text) ∷ d) p ≡ true
unfolding exists
exists_here d p text = rw (same_refl p) refl

text_here : (d : Disk) (p text : Bytes) → text_at ((p, text) ∷ d) p ≡ text
unfolding text_at
text_here d p text = rw (same_refl p) refl

pub disk-IsLawful : IsLawful disk
disk-IsLawful = record {
  mkdir_made = λ d p e. elim (Bool-cases (exists d p)) [
    | inl old ↦ absurd (ground (arith, old, e))
    | inr new ↦ rw new (exists_here d p [])
  ];
  mkdir_old = λ d p e. rw e refl;
  mkdir-eexist = λ d p e. ground (arith, e);
  mkdir_failed = λ d p e. ground (arith, e);
  mkdir-keeps = λ d p q e. elim (Bool-cases (exists d p)) [
    | inl old ↦ rw old e
    | inr new ↦ rw new (exists-cons d p [] q e)
  ];
  put-keeps = λ d t p text q e old.
      subst (λ u. exists u q ≡ true) (some_inj e) (exists-cons d p text q old);
  add-keeps = λ d t p text q e old.
      subst (λ u. exists u q ≡ true) (some_inj e) (exists-cons d p (text_at d p ++ text) q old);
  size-add = λ d t p text e.
      ap (λ u. length (text_at u p)) (sym (some_inj e))
      ∙ ap length (text_here d p (text_at d p ++ text))
      ∙ length-append (text_at d p) text;
}
