-- ===== src/Probe/Paths/Stamp.antt =====
-- `ph_io_getstamp` and `ph_io_putstamp`: the list of the times of runs.
use native.Mathlib.Nat.{pow-zero, pow-suc, div-lt_iff_lt-mul}
use perf_hound.Prelude.{
  ℕ, zero, suc, ◌+◌, ◌-◌, ◌*◌, ◌/◌, ◌%◌, ◌^◌, ◌≤◌, ◌<◌, ◌≡◌, refl, ap, subst, arith, List, [], ◌∷◌,
  ◌++◌, Bytes, codes, replicate, length, length-append, length-replicate, Option, none, some, All,
  ltb, Bool-cases, inl, inr, lt→ltb,
}
use perf_hound.Prelude.Run.{Run, done, ◌>>=◌, bind-done, done_inj, access}
use perf_hound.Probe.Number.{decimal, print_digits, digit_char}
use perf_hound.Probe.Row.{newline}
use perf_hound.Probe.Paths.{Os, IsLawful}
use perf_hound.Probe.Paths.Names.{minus_one}

-- `struct tm`, with the year and the month as they are printed.
pub record Time : Type 0 where
  pub year : ℕ
  pub mon : ℕ
  pub mday : ℕ
  pub hour : ℕ
  pub min : ℕ
  pub sec : ℕ

-- "%04d" and "%02d".
unfoldable pub padded : ℕ → ℕ → Bytes
padded w n = let t = decimal n in replicate (w - length t) 48 ++ t

-- "%04d%02d%02dT%02d%02d%02d".
unfoldable pub timestr : Time → Bytes
timestr t =
    padded 4 t.year
    ++ (padded 2 t.mon
        ++ (padded 2 t.mday
            ++ (codes "T" ++ (padded 2 t.hour ++ (padded 2 t.min ++ padded 2 t.sec)))))

abbrev pub stamp_file : Bytes → Bytes
stamp_file path = path ++ codes "/tstamp.log"

module _ (os : Os) where
  -- The answer, the time and `run_id`; "a+" makes the file if it is not there.
  unfoldable pub getstamp : Bytes → Time → os.State → (ℕ × Bytes × ℕ) × os.State
  getstamp path now s = elim (os.add s (stamp_file path) []) [
    | none ↦ ((minus_one, timestr now, 0), s)
    | some t ↦ ((0, timestr now, os.size t (stamp_file path) / 16), t)
  ]

  -- A file that does not open is a null pointer in `fseek`.
  unfoldable pub putstamp : Bytes → Bytes → os.State → Run os.State
  putstamp path text s = access (os.add s (stamp_file path) (text ++ newline ∷ []))

  -- The runs that end put their times one after the other.
  unfoldable pub put_all : Bytes → List Time → os.State → Run os.State
  put_all path [] s = done s
  put_all path (t ∷ ts) s = do u ← putstamp path (timestr t) s; put_all path ts u

-- A time in the four digits of the year and the two of the other parts.
pub record IsTime (t : Time) : Type 0 where
  pub year_lt : t.year < 10000
  pub mon_lt : t.mon < 100
  pub mday_lt : t.mday < 100
  pub hour_lt : t.hour < 100
  pub min_lt : t.min < 100
  pub sec_lt : t.sec < 100

length-print_digits :
    (k f n : ℕ) (acc : Bytes)
    → 1 ≤ f
    → n < 10 ^ f
    → length (print_digits 10 k n acc) ≤ f + length acc
unfolding print_digits
length-print_digits zero f n acc pos small = omega arith
length-print_digits (suc k) zero n acc pos small = absurd (omega arith)
length-print_digits (suc k) (suc zero) n acc pos small =
    rw (lt→ltb n 10 (omega (arith, small, pow-suc 10 0, pow-zero 10))) (omega arith)
length-print_digits (suc k) (suc (suc f)) n acc pos small = elim (Bool-cases (ltb n 10)) [
  | inl one ↦ rw one (omega arith)
  | inr more ↦
      let ten : 0 < 10 = omega arith in
      let q : n / 10 < 10 ^ suc f =
        (div-lt_iff_lt-mul ten).1 (subst (λ (k : ℕ). n < k) (pow-suc 10 (suc f)) small) in
      rw more (
        omega (
          arith,
          length-print_digits k (suc f) (n / 10) (digit_char (n % 10) ∷ acc) (omega arith) q,
        ))
]

length-padded : (w n : ℕ) → 1 ≤ w → n < 10 ^ w → length (padded w n) ≡ w
unfolding padded decimal
length-padded w n pos small = omega (
  arith,
  length-append (replicate (w - length (decimal n)) 48) (decimal n),
  length-replicate {A = ℕ} (w - length (decimal n)) 48,
  length-print_digits 20 w n [] pos small,
)

-- `st_timestr` has 16 bytes.
length-timestr : (t : Time) → IsTime t → length (timestr t) ≡ 15
unfolding timestr
length-timestr t h =
    let six = padded 2 t.sec in
    let five = padded 2 t.min ++ six in
    let four = padded 2 t.hour ++ five in
    let three = padded 2 t.mday ++ (codes "T" ++ four) in
    omega (
      arith,
      length-append (padded 4 t.year) (padded 2 t.mon ++ three),
      length-append (padded 2 t.mon) three,
      length-append (padded 2 t.mday) (codes "T" ++ four),
      length-append (padded 2 t.hour) five,
      length-append (padded 2 t.min) six,
      length-padded 4 t.year (omega arith) (omega (arith, h.year_lt)),
      length-padded 2 t.mon (omega arith) (omega (arith, h.mon_lt)),
      length-padded 2 t.mday (omega arith) (omega (arith, h.mday_lt)),
      length-padded 2 t.hour (omega arith) (omega (arith, h.hour_lt)),
      length-padded 2 t.min (omega arith) (omega (arith, h.min_lt)),
      length-padded 2 t.sec (omega arith) (omega (arith, h.sec_lt)),
    )

access-some : {A : Type 0} (o : Option A) {a : A} → access o ≡ done a → o ≡ some a
access-some none e = absurd (ground (arith, e))
access-some (some b) e = ap some (done_inj e)

module _ (os : Os) (law : IsLawful os) (path : Bytes) where
  put_all-size :
      (ts : List Time) (s t : os.State)
      → All IsTime ts
      → put_all os path ts s ≡ done t
      → os.size t (stamp_file path) ≡ os.size s (stamp_file path) + 16 * length ts
  unfolding put_all putstamp
  put_all-size [] s t h e = rw (done_inj e) (omega arith)
  put_all-size (x ∷ ts) s t h e =
      let (u, put, later) =
        bind-done (access (os.add s (stamp_file path) (timestr x ++ newline ∷ []))) _ e in
      let added =
        law.size-add s u (stamp_file path) (timestr x ++ newline ∷ []) (access-some _ put) in
      omega (
        arith,
        added,
        length-append (timestr x) (newline ∷ []),
        length-timestr x h.0,
        put_all-size ts u t h.1 later,
      )

  -- Behind runs that have put their times of fifteen characters in an empty list of times, which
  -- opens, the number of the next run is the number of these runs.
  pub getstamp-put_all :
      (ts : List Time) (now : Time) (s t u : os.State)
      → All IsTime ts
      → os.size s (stamp_file path) ≡ 0
      → put_all os path ts s ≡ done t
      → os.add t (stamp_file path) [] ≡ some u
      → getstamp os path now t ≡ ((0, timestr now, length ts), u)
  unfolding getstamp
  getstamp-put_all ts now s t u h empty put opened =
      let size : os.size u (stamp_file path) / 16 ≡ length ts =
        omega
          (arith, empty, put_all-size ts s t h put, law.size-add t u (stamp_file path) [] opened) in
      rw (getstamp, opened, size) refl
