-- ===== src/Interval/Events.antt =====
-- The two inner loops of `calc_interval`, over the event counts of a line that the probe wrote.
use perf_hound.Prelude.{
  ℕ, suc, ◌+◌, ◌^◌, ◌≤◌, ◌<◌, ◌≡◌, refl, sym, ap, ◌∙◌, arith, List, [], ◌∷◌, ◌++◌, append_assoc,
  Bytes, length, take, drop, All, lt→ltb, length-append, set-append, get_elem?-append, subst,
  take-drop, take-append, length-take,
}
use perf_hound.Prelude.Run.{done}
use perf_hound.Probe.Number.{decimal, IsStop}
use perf_hound.Probe.Row.{comma, newline, ev_text, ev_fields, ev_fields-ev_text}
use perf_hound.Interval.Scan.{next_word, next_word-decimal}
use perf_hound.Interval.Lines.{minus64, store, read_evs, subtract_evs}

-- Each count less the one at its place in the line before.
unfoldable pub counted : List ℕ → List ℕ → List ℕ
counted [] vs = []
counted (w ∷ ws) [] = []
counted (w ∷ ws) (v ∷ vs) = minus64 w v ∷ counted ws vs

pub length-counted : (ws vs : List ℕ) → length vs ≡ length ws → length (counted ws vs) ≡ length ws
unfolding counted
length-counted [] vs e = refl
length-counted (w ∷ ws) [] e = absurd (omega arith)
length-counted (w ∷ ws) (v ∷ vs) e = ap suc (length-counted ws vs (omega arith))

pub ev_text-IsStop : (vs : List ℕ) (rest : Bytes) → IsStop (ev_text vs ++ (newline ∷ rest))
unfolding ev_text
ev_text-IsStop [] rest = refl
ev_text-IsStop (v ∷ vs) rest = refl

-- The word of the next event, with the other events behind it.
next_word-ev_text :
    (v : ℕ) (vs : List ℕ) (rest : Bytes)
    → v < 2 ^ 64
    → next_word (ev_text (v ∷ vs) ++ (newline ∷ rest)) ≡ done (v, ev_text vs ++ (newline ∷ rest))
unfolding ev_text
next_word-ev_text v vs rest h =
    rw (append_assoc (decimal v) (ev_text vs) (newline ∷ rest))
      (next_word-decimal comma v _ h (ev_text-IsStop vs rest))

store-append :
    (pre : List ℕ) (x v : ℕ) (post : List ℕ)
    → store (length pre) v (pre ++ x ∷ post) ≡ done (pre ++ v ∷ post)
unfolding store
store-append pre x v post =
    rw
      (
        lt→ltb (length pre) (length (pre ++ x ∷ post))
            (omega (arith, length-append pre (x ∷ post))),
        set-append pre x v post,
      )
      refl

length-snoc : (pre : List ℕ) (v : ℕ) → length pre + 1 ≡ length (pre ++ v ∷ [])
length-snoc pre v = omega (arith, length-append pre (v ∷ []))

-- The counts of a line replace as many slots, behind those that were read before.
pub read_evs-ev_text :
    (vs old pre post : List ℕ) (rest : Bytes)
    → length old ≡ length vs
    → All (λ v. v < 2 ^ 64) vs
    → read_evs (length vs) (length pre) (pre ++ (old ++ post)) (ev_text vs ++ (newline ∷ rest))
      ≡ done (pre ++ (vs ++ post), newline ∷ rest)
unfolding read_evs
read_evs-ev_text [] [] pre post rest e h = unfold ev_text in refl
read_evs-ev_text [] (o ∷ old) pre post rest e h = absurd (omega arith)
read_evs-ev_text (v ∷ vs) [] pre post rest e h = absurd (omega arith)
read_evs-ev_text (v ∷ vs) (o ∷ old) pre post rest e h =
    rw
      (
        next_word-ev_text v vs rest h.0,
        store-append pre o v (old ++ post),
        length-snoc pre v,
        ← append_assoc pre (v ∷ []) (old ++ post),
        ← append_assoc pre (v ∷ []) (vs ++ post),
      )
      (read_evs-ev_text vs old (pre ++ v ∷ []) post rest (omega arith) h.1)

-- The counts of the line at the end point, less those in the slots.
pub subtract_evs-ev_text :
    (ws vs pre post : List ℕ) (rest : Bytes)
    → length vs ≡ length ws
    → All (λ v. v < 2 ^ 64) ws
    → subtract_evs (length ws) (length pre) (pre ++ (vs ++ post)) (ev_text ws ++ (newline ∷ rest))
      ≡ done (pre ++ (counted ws vs ++ post), newline ∷ rest)
unfolding subtract_evs counted
subtract_evs-ev_text [] [] pre post rest e h = unfold ev_text in refl
subtract_evs-ev_text [] (v ∷ vs) pre post rest e h = absurd (omega arith)
subtract_evs-ev_text (w ∷ ws) [] pre post rest e h = absurd (omega arith)
subtract_evs-ev_text (w ∷ ws) (v ∷ vs) pre post rest e h =
    rw
      (
        next_word-ev_text w ws rest h.0,
        get_elem?-append pre v (vs ++ post),
        store-append pre v (minus64 w v) (vs ++ post),
        length-snoc pre (minus64 w v),
        ← append_assoc pre (minus64 w v ∷ []) (vs ++ post),
        ← append_assoc pre (minus64 w v ∷ []) (counted ws vs ++ post),
      )
      (subtract_evs-ev_text ws vs (pre ++ minus64 w v ∷ []) post rest (omega arith) h.1)

-- From the first slot on.
pub read_evs_lem :
    (n : ℕ) (vs evs : List ℕ) (rest : Bytes)
    → length vs ≡ n
    → n ≤ length evs
    → All (λ v. v < 2 ^ 64) vs
    → read_evs n 0 evs (ev_text vs ++ (newline ∷ rest)) ≡ done (vs ++ drop n evs, newline ∷ rest)
read_evs_lem n vs evs rest e fits h =
    subst
      (λ (k : ℕ).
        read_evs k 0 evs (ev_text vs ++ (newline ∷ rest)) ≡ done (vs ++ drop n evs, newline ∷ rest))
      e
      (subst
        (λ (xs : List ℕ).
          read_evs (length vs) 0 xs (ev_text vs ++ (newline ∷ rest))
          ≡ done (vs ++ drop n evs, newline ∷ rest))
        (take-drop n evs)
        (read_evs-ev_text vs (take n evs) [] (drop n evs) rest (omega (arith, e, length-take n evs))
          h))

pub subtract_evs_lem :
    (n : ℕ) (ws vs post : List ℕ) (rest : Bytes)
    → length ws ≡ n
    → length vs ≡ n
    → All (λ v. v < 2 ^ 64) ws
    → subtract_evs n 0 (vs ++ post) (ev_text ws ++ (newline ∷ rest))
      ≡ done (counted ws vs ++ post, newline ∷ rest)
subtract_evs_lem n ws vs post rest e e' h =
    subst
      (λ (k : ℕ).
        subtract_evs k 0 (vs ++ post) (ev_text ws ++ (newline ∷ rest))
        ≡ done (counted ws vs ++ post, newline ∷ rest))
      e (subtract_evs-ev_text ws vs [] post rest (omega (arith, e, e')) h)

-- The counts as they are printed.
pub ev_fields-prefix :
    (n : ℕ) (zs post : List ℕ) → length zs ≡ n → ev_fields n 0 (zs ++ post) ≡ done (ev_text zs)
ev_fields-prefix n zs post e =
    ev_fields-ev_text n 0 (zs ++ post) (omega (arith, e, length-append zs post))
    ∙ ap done (ap ev_text (ap (λ (k : ℕ). take k (zs ++ post)) (sym e) ∙ take-append zs post))
