-- ===== src/Probe/Row/ReadBack.antt =====
-- Reading back the lines that `ph_io_wtrec` writes.
use perf_hound.Prelude.{arith, ◌^◌, ◌<◌, ◌≡◌, ◌∷◌, Bytes}
use perf_hound.Event.Libc.{digits}
use perf_hound.Probe.{Machine, Rec}
use perf_hound.Probe.Number.{digits-decimal}
use perf_hound.Probe.Row.{comma, fixed_fields}

module _ (h : Machine) where
  open h use {print_f}

  -- In the line of a record whose tags are below 2^32 and whose cycles and nanoseconds are below
  -- 2^64, reading decimal digits gives the two tags, the cycles and the nanoseconds, each followed
  -- by a comma, and then the text of the value.
  pub digits-fixed_fields :
      (r : Rec h)
      → r.gid < 2 ^ 32
      → r.pid < 2 ^ 32
      → r.cy < 2 ^ 64
      → r.ns < 2 ^ 64
      → (a b c : Bytes) × (digits 10 0 (fixed_fields h r) ≡ (r.gid, comma ∷ a))
        × (digits 10 0 a ≡ (r.pid, comma ∷ b))
        × (digits 10 0 b ≡ (r.cy, comma ∷ c))
        × (digits 10 0 c ≡ (r.ns, comma ∷ print_f r.uval))
  unfolding fixed_fields
  digits-fixed_fields r hg hp hc hn = (
    _,
    _,
    _,
    digits-decimal r.gid _ (omega arith),
    digits-decimal r.pid _ (omega arith),
    digits-decimal r.cy _ hc,
    digits-decimal r.ns _ hn,
  )
