-- ===== src/Interval/Arguments.antt =====
-- `init_arg`: the two points on the command line.
use perf_hound.Prelude.{
  ℕ, suc, ◌+◌, ◌^◌, ◌<◌, ◌≡◌, refl, sym, ap, ◌∙◌, take-append, arith, Bool, true, false, ◌||◌, [],
  ◌∷◌, ◌++◌, Bytes, ◌==◌, if◌then◌else◌, length, take, Option, none, some, All, append-nil,
}
use perf_hound.Prelude.Run.{Run, done, ◌>>=◌}
use perf_hound.Probe.Number.{decimal, IsDigit, decimal-IsDigit}
use perf_hound.Probe.Row.{comma}
use perf_hound.Interval.{Points}
use perf_hound.Interval.Scan.{ahead, to_int, to_int-decimal}

-- `for (int i = 0; i < strlen(parg); i ++)`: the place of the first comma.
unfoldable pub find_comma : ℕ → Bytes → Option ℕ
find_comma i [] = none
find_comma i (c ∷ s) = let later = find_comma (i + 1) s in if c == comma then some i else later

-- The two tags of a point. With no comma the second is read from the second byte on.
unfoldable pub read_point : Bytes → Run (ℕ × ℕ)
read_point s = elim (find_comma 0 s) [
  | none ↦ (do t ← ahead 1 s; done ((to_int s).0, (to_int t).0))
  | some i ↦ (do t ← ahead (i + 1) s; done ((to_int (take i s)).0, (to_int t).0))
]

-- The points, or none for the answer -1.
unfoldable pub init_arg : Bytes → Bytes → Run (Option Points)
init_arg start end = do
  s ← read_point start
  e ← read_point end
  if s.0 == 0 || e.0 == 0 || s.1 == 0 || e.1 == 0
      then done none
      else done (some (record { sgid = s.0; spid = s.1; egid = e.0; epid = e.1 }))

find_comma-text :
    (t rest : Bytes) (i : ℕ)
    → All IsDigit t
    → find_comma i (t ++ comma ∷ rest) ≡ some (i + length t)
unfolding find_comma
find_comma-text [] rest i d = ap some {x = i} {y = i + 0} (omega arith)
find_comma-text (c ∷ t) rest i d = ground (arith, d.0, find_comma-text t rest (i + 1) d.1)

whole : (n : ℕ) → n < 2 ^ 32 → (to_int (decimal n)).0 ≡ n
whole n h =
    ap (λ t. (to_int t).0) (sym (append-nil (decimal n)))
    ∙ ap (λ r. r.0) (to_int-decimal n [] h refl)

either_way {ℓ} :
    {A : Type ℓ} (b : Bool) (x : A)
    → (if b then done none else done (some x)) ≡ done (if b then none else some x)
either_way true x = refl
either_way false x = refl

ahead-text : (t rest : Bytes) (c : ℕ) → ahead (length t + 1) (t ++ c ∷ rest) ≡ done rest
unfolding ahead
ahead-text [] rest c = refl
ahead-text (d ∷ t) rest c =
    ap (λ (k : ℕ). ahead k (d ∷ t ++ c ∷ rest)) {x = suc (length t) + 1} {y = suc (length t + 1)}
      (omega arith)
    ∙ ahead-text t rest c

-- A point as the usage says it: the two tags with a comma between them.
pub read_point-decimal :
    (g p : ℕ) → g < 2 ^ 32 → p < 2 ^ 32 → read_point (decimal g ++ comma ∷ decimal p) ≡ done (g, p)
unfolding read_point
read_point-decimal g p hg hp =
    let found : find_comma 0 (decimal g ++ comma ∷ decimal p) ≡ some (length (decimal g)) =
      find_comma-text (decimal g) (decimal p) 0 (decimal-IsDigit g)
      ∙ ap some {x = 0 + length (decimal g)} {y = length (decimal g)} (omega arith) in
    rw
      (
        read_point,
        found,
        ahead-text (decimal g) (decimal p) comma,
        take-append (decimal g) (comma ∷ decimal p),
        whole g hg,
        whole p hp,
      )
      refl

-- Two points with tags below 2^32, written with a comma between the tags, are read as they are
-- written, and refused exactly when some tag is 0.
pub init_arg_lem :
    (sgid spid egid epid : ℕ)
    → sgid < 2 ^ 32
    → spid < 2 ^ 32
    → egid < 2 ^ 32
    → epid < 2 ^ 32
    → init_arg (decimal sgid ++ comma ∷ decimal spid) (decimal egid ++ comma ∷ decimal epid)
      ≡ done (
          if sgid == 0 || egid == 0 || spid == 0 || epid == 0
          then none
          else some (record { sgid = sgid; spid = spid; egid = egid; epid = epid }))
unfolding init_arg
init_arg_lem sgid spid egid epid h1 h2 h3 h4 =
    rw (read_point-decimal sgid spid h1 h2, read_point-decimal egid epid h3 h4) (either_way _ _)
