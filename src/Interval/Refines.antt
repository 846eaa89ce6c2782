-- ===== src/Interval/Refines.antt =====
-- `calc_interval` on a record file of the probe computes the lines of the measured pairs.
use perf_hound.Prelude.{
  ℕ, zero, suc, ◌+◌, ◌≤◌, ◌<◌, ◌≡◌, inl, inr, refl, sym, ap, ◌∙◌, arith, true, false, List, [], ◌∷◌,
  ◌++◌, append-nil, append_assoc, Bytes, length, drop, All, leb, Bool-cases, length-append,
  length-drop, Option, none, some, leb→le,
}
use perf_hound.Prelude.Run.{Run, done, fault, ◌>>=◌, access}
use perf_hound.Probe.{Machine, Rec}
use perf_hound.Probe.Number.{decimal, length-decimal_pos}
use perf_hound.Probe.Row.{comma, newline, text_of}
use perf_hound.Interval.{Points, Job}
use perf_hound.Interval.Scan.{ahead}
use perf_hound.Interval.Lines.{Scan, Reader, iteration, lines_loop}
use perf_hound.Interval.Pairs.{IsRec, ReadsBack, values_text, text_of-cons, text_of-nil}
use perf_hound.Interval.Events.{counted, length-counted}
use perf_hound.Interval.Meaning.{
  at_start, at_end, pairs, vals, row_of, rows_of, fitting, full, iteration-other, iteration-alone,
  iteration-apart, iteration_pair,
}

module _ (h : Machine) (c : Reader h.Double) (a : Points) (l : ReadsBack h c) (job : Job)
    (nev fsize k : ℕ) (wide : nev ≤ k) where
  loop-stop :
      (n : ℕ) (s : Scan) → s.pst ≡ newline ∷ [] → lines_loop c a job nev fsize (suc n) s ≡ done s
  unfolding lines_loop ahead
  loop-stop n s e = let here : ahead 1 s.pst ≡ done [] = ap (ahead 1) e in rw here refl

  loop-step :
      (n : ℕ) (s : Scan) (rest : Bytes)
      → s.pst ≡ newline ∷ rest
      → 1 ≤ length rest
      → lines_loop c a job nev fsize (suc n) s
        ≡ (iteration c a job nev fsize s >>= (λ m. lines_loop c a job nev fsize n m))
  unfolding lines_loop ahead
  loop-step n s [] e some_left = absurd (omega arith)
  loop-step n s (d ∷ rest) e some_left =
      let here : ahead 1 s.pst ≡ done (d ∷ rest) = ap (ahead 1) e in rw here refl

  length-text_pos : (r : Rec h) (rs : List (Rec h)) → 1 ≤ length (text_of h nev (r ∷ rs))
  length-text_pos r rs =
      let rest = comma ∷ (decimal r.pid ++ values_text h nev r (text_of h nev rs)) in
      rw (text_of-cons h nev r rs)
        (omega (arith, length-append (decimal r.gid) rest, length-decimal_pos r.gid))

  -- What the tool writes from a state of the loop on, in terms of the records that are left.
  abbrev written : ℕ → Scan → Run (ℕ × ℕ × Bytes)
  written n s = lines_loop c a job nev fsize n s >>= (λ m. done (m.id, length m.evs, m.out))

  abbrev meant : Bytes → ℕ → Option (List (Rec h × Rec h)) → Run (ℕ × ℕ × Bytes)
  meant out id found = access found >>= (λ ps.
      fitting fsize (out ++ rows_of h c l job nev id ps) >>= (λ t. done (id + length ps, k, t)))

  fitting-small : (t : Bytes) → length t ≤ fsize → fitting fsize t ≡ done t
  fitting-small t small = ground arith

  meant-overflow :
      (out row : Bytes) (id : ℕ) (found : Option (List (Rec h × Rec h)))
      → leb (length (out ++ row)) fsize ≡ false
      → meant (out ++ row) id found ≡ fault
  meant-overflow out row id none big = refl
  meant-overflow out row id (some ps) big =
      ground (arith, length-append (out ++ row) (rows_of h c l job nev id ps))

  abbrev with_pair : Rec h → Rec h → Option (List (Rec h × Rec h)) → Option (List (Rec h × Rec h))
  with_pair r q found = elim found [ none ↦ none | some ps ↦ some ((r, q) ∷ ps) ]

  meant-with_pair :
      (out : Bytes) (id : ℕ) (r q : Rec h) (found : Option (List (Rec h × Rec h)))
      → meant (out ++ row_of h c l job nev id r q) (id + 1) found
        ≡ meant out id (with_pair r q found)
  unfolding rows_of
  meant-with_pair out id r q none = refl
  meant-with_pair out id r q (some ps) =
      ap (λ t. fitting fsize t >>= (λ u. done (id + 1 + length ps, k, u)))
        (append_assoc out (row_of h c l job nev id r q) (rows_of h c l job nev (id + 1) ps))
      ∙ ap
          (λ (i : ℕ).
            fitting fsize (out ++ rows_of h c l job nev id ((r, q) ∷ ps)) >>= (λ u. done (i, k, u)))
          {x = id + 1 + length ps} {y = id + suc (length ps)} (omega arith)

  slots-kept :
      (zs evs : List ℕ) → length zs ≡ nev → length evs ≡ k → length (zs ++ drop nev evs) ≡ k
  slots-kept zs evs e fits =
      omega (arith, wide, length-append zs (drop nev evs), length-drop nev evs)

  enough : (s : Scan) → length s.evs ≡ k → nev ≤ length s.evs
  enough s e = omega (arith, wide)

  -- The loop behind a pair at the two points, when it continues so.
  loop_pair :
      (n : ℕ) (s : Scan) (r q : Rec h) (rs : List (Rec h))
      → ((t : Scan)
          → t.pst ≡ newline ∷ text_of h nev rs
          → length t.evs ≡ k
          → length t.out ≤ fsize
          → written n t ≡ meant t.out t.id (pairs h a rs))
      → s.pst ≡ newline ∷ text_of h nev (r ∷ q ∷ rs)
      → length s.evs ≡ k
      → IsRec h nev r
      → IsRec h nev q
      → at_start h a r ≡ true
      → at_end h a q ≡ true
      → written (suc n) s ≡ meant s.out s.id (with_pair r q (pairs h a rs))
  loop_pair n s r q rs further e slots w v here there =
      let row = row_of h c l job nev s.id r q in
      let counts = counted (vals h nev q) (vals h nev r) in
      let size : length counts ≡ nev =
        length-counted _ _ (full h c a l job nev fsize r w ∙ sym (full h c a l job nev fsize q v))
        ∙ full h c a l job nev fsize q v in
      elim (Bool-cases (leb (length (s.out ++ row)) fsize)) [
        | inl room ↦
            rw
              (
                loop-step n s _ e (length-text_pos r (q ∷ rs)),
                iteration_pair h c a l job nev fsize s r q rs e (enough s slots) w v here there,
                room,
              )
              (further _ refl (slots-kept counts s.evs size slots) (leb→le _ _ room)
                ∙ meant-with_pair s.out s.id r q (pairs h a rs))
        | inr full_buffer ↦
            rw
              (
                loop-step n s _ e (length-text_pos r (q ∷ rs)),
                iteration_pair h c a l job nev fsize s r q rs e (enough s slots) w v here there,
                full_buffer,
              )
              (sym (meant-overflow s.out row (s.id + 1) (pairs h a rs) full_buffer)
                ∙ meant-with_pair s.out s.id r q (pairs h a rs))
      ]

  -- From a state of the loop in front of the lines of `rs`, with enough fuel.
  pub loop-meant :
      (rs : List (Rec h)) (n : ℕ) (s : Scan)
      → s.pst ≡ newline ∷ text_of h nev rs
      → All (IsRec h nev) rs
      → length s.evs ≡ k
      → length rs < n
      → length s.out ≤ fsize
      → written n s ≡ meant s.out s.id (pairs h a rs)
  unfolding pairs rows_of
  loop-meant rs zero s e w slots more small = absurd (omega arith)
  loop-meant [] (suc n) s e w slots more small =
      rw
        (
          loop-stop n s (e ∙ ap (◌∷◌ newline) (text_of-nil h nev)),
          append-nil,
          fitting-small s.out small,
        )
        (ap (λ (i : ℕ). done (i, length s.evs, s.out)) {x = s.id} {y = s.id + 0} (omega arith)
          ∙ ap (λ (i : ℕ). done (s.id + 0, i, s.out)) slots)
  loop-meant (r ∷ []) (suc n) s e w slots more small = elim (Bool-cases (at_start h a r)) [
    | inl here ↦
        rw
          (
            loop-step n s _ e (length-text_pos r []),
            iteration-alone h c a l job nev fsize s r e (enough s slots) w.0 here,
            here,
          )
          refl
    | inr other ↦
        rw
          (
            loop-step n s _ e (length-text_pos r []),
            iteration-other h c a l job nev fsize s r [] e w.0 other,
            other,
          )
          (loop-meant [] n _ refl tt slots (omega arith) small)
  ]
  loop-meant (r ∷ q ∷ rs) (suc n) s e w slots more small = elim (Bool-cases (at_start h a r)) [
    | inr other ↦
        rw
          (
            loop-step n s _ e (length-text_pos r (q ∷ rs)),
            iteration-other h c a l job nev fsize s r (q ∷ rs) e w.0 other,
            other,
          )
          (loop-meant (q ∷ rs) n _ refl w.1 slots (omega arith) small)
    | inl here ↦ elim (Bool-cases (at_end h a q)) [
      | inl there ↦
          rw (here, there)
            (loop_pair n s r q rs
              (λ t e' slots' small'. loop-meant rs n t e' w.1.1 slots' (omega arith) small') e slots
              w.0 w.1.0 here there)
      | inr other ↦
          rw
            (
              loop-step n s _ e (length-text_pos r (q ∷ rs)),
              iteration-apart h c a l job nev fsize s r q rs e (enough s slots) w.0 w.1.0 here
                  other,
              here,
              other,
            )
            (loop-meant rs n _ refl w.1.1
              (slots-kept _ s.evs (full h c a l job nev fsize r w.0) slots) (omega arith) small)
    ]
  ]
