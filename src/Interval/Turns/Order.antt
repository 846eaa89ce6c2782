-- ===== src/Interval/Turns/Order.antt =====
-- No rank is ahead of the one before it.
use perf_hound.Prelude.{ℕ, ◌+◌, ◌-◌, ◌≤◌, ◌<◌, ◌≡◌, arith}
use perf_hound.Interval.Turns.{
  Turn, opening, waiting, holding, appended, stopped_own, stopped_all, Turns, update, Step,
  open_own, fail_own, fail_all, first, receive, append, pass, Reached, start, next,
}

-- 1 inside a round, 1 from the flag on, and 1 from the appending on.
abbrev pub inside : Turn → ℕ
inside opening = 0
inside _ = 1

abbrev pub busy : Turn → ℕ
busy opening = 0
busy waiting = 0
busy stopped_own = 0
busy _ = 1

abbrev pub late : Turn → ℕ
late appended = 1
late _ = 0

late-busy : (t : Turn) → late t ≤ busy t
late-busy opening = omega arith
late-busy waiting = omega arith
late-busy holding = omega arith
late-busy appended = omega arith
late-busy stopped_own = omega arith
late-busy stopped_all = omega arith

busy-inside : (t : Turn) → busy t ≤ inside t
busy-inside opening = omega arith
busy-inside waiting = omega arith
busy-inside holding = omega arith
busy-inside appended = omega arith
busy-inside stopped_own = omega arith
busy-inside stopped_all = omega arith

module _ (np : ℕ) (nf : ℕ → ℕ) where
  -- What holds of a rank.
  pub record Own (r : Turns) (i : ℕ) : Type 0 where
    pub shown_is : r.shown i ≡ r.rounds i + late (r.turn i)
    pub rounds_le : r.rounds i + inside (r.turn i) ≤ nf i

  -- What holds of a rank and the next one.
  pub record Next (r : Turns) (i : ℕ) : Type 0 where
    pub flags_are :
        r.flags (i + 1) + r.rounds (i + 1) + busy (r.turn (i + 1)) + r.nextjob i ≡ nf (i + 1)
    pub nextjob_is : r.nextjob i ≡ nf (i + 1) - r.rounds i

  pub record Inv (r : Turns) : Type 0 where
    pub own : (i : ℕ) → i < np → Own r i
    pub link : (i : ℕ) → i + 1 < np → Next r i

  Own-step : {r t : Turns} → Step np nf r t → (i : ℕ) → Own r i → Own t i
  unfolding update
  Own-step (open_own k le w lt) i o = record {
    shown_is = ground (arith, o.shown_is);
    rounds_le = ground (arith, o.rounds_le);
  }
  Own-step (fail_own k le w lt) i o = record {
    shown_is = ground (arith, o.shown_is);
    rounds_le = ground (arith, o.rounds_le);
  }
  Own-step (fail_all k le w) i o = record {
    shown_is = ground (arith, o.shown_is);
    rounds_le = ground (arith, o.rounds_le);
  }
  Own-step (first w) i o = record {
    shown_is = ground (arith, o.shown_is);
    rounds_le = ground (arith, o.rounds_le);
  }
  Own-step (receive k pos le w some_flag) i o = record {
    shown_is = ground (arith, o.shown_is);
    rounds_le = ground (arith, o.rounds_le);
  }
  Own-step (append k le w) i o = record {
    shown_is = ground (arith, o.shown_is);
    rounds_le = ground (arith, o.rounds_le);
  }
  Own-step (pass k le w) i o = record {
    shown_is = ground (arith, o.shown_is);
    rounds_le = ground (arith, o.rounds_le);
  }

  Next-step : {r t : Turns} → Step np nf r t → (i : ℕ) → i + 1 < np → Next r i → Next t i
  unfolding update
  Next-step (open_own k le w lt) i in_range o = record {
    flags_are = ground (arith, o.flags_are);
    nextjob_is = ground (arith, o.nextjob_is);
  }
  Next-step (fail_own k le w lt) i in_range o = record {
    flags_are = ground (arith, o.flags_are);
    nextjob_is = ground (arith, o.nextjob_is);
  }
  Next-step (fail_all k le w) i in_range o = record {
    flags_are = ground (arith, o.flags_are);
    nextjob_is = ground (arith, o.nextjob_is);
  }
  Next-step (first w) i in_range o = record {
    flags_are = ground (arith, o.flags_are);
    nextjob_is = ground (arith, o.nextjob_is);
  }
  Next-step (receive k pos le w some_flag) i in_range o = record {
    flags_are = ground (arith, o.flags_are);
    nextjob_is = ground (arith, o.nextjob_is);
  }
  Next-step (append k le w) i in_range o = record {
    flags_are = ground (arith, o.flags_are);
    nextjob_is = ground (arith, o.nextjob_is);
  }
  Next-step (pass k le w) i in_range o = record {
    flags_are = ground (arith, o.flags_are, o.nextjob_is);
    nextjob_is = ground (arith, o.nextjob_is);
  }

  pub Reached-Inv : {r : Turns} → Reached np nf r → Inv r
  Reached-Inv start = record {
    own = λ i le. record { shown_is = omega arith; rounds_le = omega arith };
    link = λ i le. record { flags_are = omega arith; nextjob_is = omega arith };
  }
  Reached-Inv (next reached step) =
      let v = Reached-Inv reached in
      record {
        own = λ i le. Own-step step i (v.own i le);
        link = λ i le. Next-step step i le (v.link i le);
      }

  -- In every state that the ranks reach in their turns at all.csv, a rank has appended at most as
  -- many files as the rank before it.
  pub shown-ordered :
      (r : Turns) (i : ℕ) → Reached np nf r → i + 1 < np → r.shown (i + 1) ≤ r.shown i
  shown-ordered r i reached le =
      let v = Reached-Inv reached in
      let here = v.own i (omega arith) in
      let there = v.own (i + 1) le in
      let link = v.link i le in
      let small : late (r.turn (i + 1)) ≤ busy (r.turn (i + 1)) = late-busy (r.turn (i + 1)) in
      let less : busy (r.turn (i + 1)) ≤ inside (r.turn (i + 1)) = busy-inside (r.turn (i + 1)) in
      omega (
        arith, small, less, here.shown_is, there.shown_is, there.rounds_le, link.flags_are,
        link.nextjob_is,
      )
