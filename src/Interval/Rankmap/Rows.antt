-- ===== src/Interval/Rankmap/Rows.antt =====
-- `init_rankmap` on the lines of the rank map that `ph_io_wtrankmap` writes.
use perf_hound.Prelude.{
  ℕ, suc, ◌+◌, ◌-◌, ◌^◌, ◌≤◌, ◌<◌, ◌≡◌, ◌≢◌, refl, sym, ap, ◌∙◌, arith, List, [], ◌∷◌, ◌++◌,
  append-nil, Bytes, codes, lt→ltb, leb, ◌==◌, length, length-append, All, All-map, All-append, map,
  false,
}
use perf_hound.Prelude.Run.{done}
use perf_hound.Probe.Number.{decimal, decimal-IsDigit, length-decimal_pos}
use perf_hound.Probe.Setup.{Process}
use perf_hound.Probe.Row.{comma, newline}
use perf_hound.Interval.{Job}
use perf_hound.Interval.Scan.{to_int, to_int-decimal}
use perf_hound.Interval.Rankmap.{to_comma, field, read_job, host_name_max, jobs_loop}

-- Neither a comma nor a newline.
abbrev pub IsPlain : ℕ → Type 0
IsPlain c = (c ≢ comma) × (c ≢ newline)

-- A process with numbers of 32 bits and a host name of at most 63 plain bytes.
pub record IsProcess (p : Process) : Type 0 where
  pub rank_lt : p.rank < 2 ^ 32
  pub cpu_lt : p.cpu < 2 ^ 32
  pub host_some : 1 ≤ length p.host
  pub host_lt : length p.host < host_name_max
  pub host_plain : All IsPlain p.host

abbrev pub job_of : Process → Job
job_of p = record { host = p.host; rank = p.rank; cpu = p.cpu }

abbrev pub header : Bytes
header = codes "rank,hostname,cpu,hosthead,iorank"

decimal-IsPlain : (n : ℕ) → All IsPlain (decimal n)
decimal-IsPlain n =
    All-map (decimal n) (λ c d. (ground (arith, d.0), ground (arith, d.0))) (decimal-IsDigit n)

-- The end of a line of the map, from the third comma on, and the line, in front of `rest`.
abbrev pub line_end : Process → Bytes
line_end p = decimal p.head ++ (comma ∷ decimal p.iorank)

abbrev pub line : Process → Bytes → Bytes
line p rest =
    decimal p.rank
    ++ (comma ∷ (p.host ++ (comma ∷ (decimal p.cpu ++ (comma ∷ (line_end p ++ (newline ∷ rest)))))))

unfoldable pub map_rows : List Process → Bytes
map_rows [] = []
map_rows (p ∷ ps) = line p (map_rows ps)

to_comma-text : (t rest : Bytes) → All IsPlain t → to_comma (t ++ (comma ∷ rest)) ≡ done (t, rest)
unfolding to_comma
to_comma-text [] rest d = refl
to_comma-text (c ∷ t) rest d = ground (arith, d.0.0, to_comma-text t rest d.1)

field-text :
    (t rest : Bytes) → 1 ≤ length t → All IsPlain t → field (t ++ (comma ∷ rest)) ≡ done (t, rest)
unfolding field
field-text [] rest some_byte d = absurd (omega arith)
field-text (c ∷ t) rest some_byte d = rw (to_comma-text t rest d.1) refl

int_of : (n : ℕ) → n < 2 ^ 32 → (to_int (decimal n)).0 ≡ n
int_of n h =
    ap (λ t. (to_int t).0) (sym (append-nil (decimal n)))
    ∙ ap (λ r. r.0) (to_int-decimal n [] h refl)

read_job-line :
    (p : Process) (rest : Bytes)
    → IsProcess p
    → read_job (line p rest) ≡ done (job_of p, line_end p ++ (newline ∷ rest))
unfolding read_job
read_job-line p rest w =
    rw
      (
        field-text (decimal p.rank) _ (length-decimal_pos p.rank) (decimal-IsPlain p.rank),
        field-text p.host _ w.host_some w.host_plain,
        field-text (decimal p.cpu) _ (length-decimal_pos p.cpu) (decimal-IsPlain p.cpu),
        int_of p.rank w.rank_lt,
        int_of p.cpu w.cpu_lt,
        lt→ltb (length p.host) host_name_max w.host_lt,
      )
      refl

gt→leb : (a b : ℕ) → b < a → leb a b ≡ false
gt→leb a b h = ground arith

other : (b : ℕ) → b ≢ newline → (b == newline) ≡ false
other b h = ground (arith, h)

length-line_end : (p : Process) → 1 ≤ length (line_end p)
length-line_end p =
    omega
      (arith, length-append (decimal p.head) (comma ∷ decimal p.iorank), length-decimal_pos p.head)

pub on_line : (t : Bytes) → All IsPlain t → All (λ b. b ≢ newline) t
on_line t w = All-map t (λ b plain. plain.1) w

pub decimal-line : (n : ℕ) → All (λ b. b ≢ newline) (decimal n)
decimal-line n = on_line (decimal n) (decimal-IsPlain n)

pub line_end-line : (p : Process) → All (λ b. b ≢ newline) (line_end p)
line_end-line p =
    All-append _ (decimal p.head) (comma ∷ decimal p.iorank) (decimal-line p.head)
      (omega arith, decimal-line p.iorank)

pub length-row :
    (p : Process) (ps : List Process)
    → 2 + length (line_end p) + length (map_rows ps) ≤ length (map_rows (p ∷ ps))
unfolding map_rows
length-row p ps =
    let end = line_end p ++ (newline ∷ map_rows ps) in
    omega (
      arith,
      length-append (line_end p) (newline ∷ map_rows ps),
      length-append (decimal p.cpu) (comma ∷ end),
      length-append p.host (comma ∷ (decimal p.cpu ++ (comma ∷ end))),
      length-append (decimal p.rank)
          (comma ∷ (p.host ++ (comma ∷ (decimal p.cpu ++ (comma ∷ end))))),
      length-decimal_pos p.cpu,
      length-decimal_pos p.rank,
    )

module _ (fcount : ℕ) where
  not_newline :
      (n idf c b : ℕ) (s : Bytes)
      → (b == newline) ≡ false
      → jobs_loop (suc n) fcount idf (c ∷ b ∷ s) ≡ jobs_loop n fcount idf (b ∷ s)
  unfolding jobs_loop
  not_newline n idf c b s e = rw (jobs_loop, e) refl

  -- Up to the end of a line.
  walk :
      (t rest : Bytes) (n idf c : ℕ)
      → All (λ b. b ≢ newline) t
      → jobs_loop (length t + suc n) fcount idf (c ∷ (t ++ (newline ∷ rest)))
        ≡ jobs_loop (suc n) fcount idf (0 ∷ newline ∷ rest)
  unfolding jobs_loop
  walk [] rest n idf c d =
      ap (λ (k : ℕ). jobs_loop k fcount idf (c ∷ newline ∷ rest)) {x = 0 + suc n} {y = suc n}
        (omega arith)
  walk (b ∷ t) rest n idf c d =
      ap (λ (k : ℕ). jobs_loop k fcount idf (c ∷ b ∷ (t ++ (newline ∷ rest))))
        {x = suc (length t) + suc n} {y = suc (length t + suc n)} (omega arith)
      ∙ not_newline (length t + suc n) idf c b _ (other b d.0)
      ∙ walk t rest n idf b d.1

  at_line :
      (n idf : ℕ) (s r : Bytes) (j : Job) (js : List Job)
      → 1 ≤ length s
      → idf < fcount
      → read_job s ≡ done (j, r)
      → jobs_loop n fcount (idf + 1) r ≡ done js
      → jobs_loop (suc n) fcount idf (0 ∷ newline ∷ s) ≡ done (j ∷ js)
  unfolding jobs_loop
  at_line n idf [] r j js some_byte lt e e' = absurd (omega arith)
  at_line n idf (b ∷ s) r j js some_byte lt e e' = rw (gt→leb fcount idf lt, e, e') refl

  pub walk_line :
      (t rest : Bytes) (n idf : ℕ)
      → 1 ≤ length t
      → All (λ b. b ≢ newline) t
      → length t ≤ n
      → jobs_loop n fcount idf (t ++ (newline ∷ rest))
        ≡ jobs_loop (suc (n - length t)) fcount idf (0 ∷ newline ∷ rest)
  walk_line [] rest n idf some_byte d enough = absurd (omega arith)
  walk_line (c ∷ t) rest n idf some_byte d enough =
      ap (λ (k : ℕ). jobs_loop k fcount idf (c ∷ (t ++ (newline ∷ rest)))) {x = n}
        {y = length t + suc (n - suc (length t))} (omega arith)
      ∙ walk t rest (n - suc (length t)) idf c d.1

  -- From the end of a line, with enough fuel.
  pub loop-map_rows :
      (ps : List Process) (n idf : ℕ)
      → All IsProcess ps
      → length (map_rows ps) < n
      → idf + length ps ≤ fcount
      → jobs_loop (suc n) fcount idf (0 ∷ newline ∷ map_rows ps) ≡ done (map job_of ps)
  unfolding map_rows
  loop-map_rows [] n idf w more room = unfold jobs_loop in refl
  loop-map_rows (p ∷ ps) n idf w more room =
      let long : 2 + length (line_end p) + length (map_rows ps) ≤ length (line p (map_rows ps)) =
        length-row p ps in
      let rest =
        loop-map_rows ps (n - length (line_end p)) (idf + 1) w.1 (omega (arith, long))
          (omega arith) in
      at_line n idf (line p (map_rows ps)) (line_end p ++ (newline ∷ map_rows ps)) (job_of p)
        (map job_of ps) (omega (arith, long)) (omega arith) (read_job-line p (map_rows ps) w.0)
        (walk_line (line_end p) (map_rows ps) n (idf + 1) (length-line_end p) (line_end-line p)
            (omega (arith, long))
          ∙ rest)
