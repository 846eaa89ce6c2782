-- ===== src/Interval/Spread.antt =====
-- How `init_rankmap` spreads the record files over the ranks: rank 0 keeps its own and sends the
-- others theirs.
pub mod Whole
use native.Mathlib.Nat.{div-add-mod', mod-lt}
use perf_hound.Prelude.{
  ℕ, zero, suc, ◌+◌, ◌-◌, ◌*◌, ◌/◌, ◌%◌, ◌≤◌, ◌<◌, ◌≡◌, refl, sym, ap, ap₂, ◌∙◌, arith, List, [],
  ◌∷◌, ◌++◌, append-nil, append_assoc, Option, none, some, length, take, drop, ltb, ◌==◌,
  if◌then◌else◌, Bool-cases, inl, inr, min, ltb→lt, true, false,
}
use perf_hound.Interval.{Job}
use perf_hound.Prelude.{Bytes}
use perf_hound.Prelude.Run.{Run, done, fault, ◌>>=◌, access}

-- `arg->nf`.
unfoldable pub nf_of : ℕ → ℕ → ℕ → ℕ
nf_of fcount np myid = fcount / np + (if ltb myid (fcount % np) then 1 else 0)

-- A message of rank 0: to whom, the place of the first entry and the number of entries.
pub record Message : Type 0 where
  pub dest : ℕ
  pub from : ℕ
  pub count : ℕ

-- `for (int i = 1; i < mod; i ++)`, with the rounds left and `i`.
unfoldable pub larger : ℕ → ℕ → ℕ → List Message
larger zero i n = []
larger (suc k) i n = record { dest = i; from = i * n; count = n } ∷ larger k (i + 1) n

-- `for (int i = mod; i < np; i ++)`.
unfoldable pub smaller : ℕ → ℕ → ℕ → ℕ → List Message
smaller zero i md n = []
smaller (suc k) i md n =
    record { dest = i; from = md * (n + 1) + (i - md) * n; count = n } ∷ smaller k (i + 1) md n

unfoldable pub sends : ℕ → ℕ → List Message
sends fcount np =
    let md = fcount % np in
    larger (md - 1) 1 (fcount / np + 1) ++ smaller (np - md) md md (fcount / np)

-- The message that a rank receives: the first one to it.
unfoldable pub received : ℕ → List Message → Option Message
received i [] = none
received i (m ∷ ms) = let later = received i ms in if m.dest == i then some m else later

-- The string at an address, given the memory from there on.
unfoldable pub c_string : Bytes → Run Bytes
c_string [] = fault
c_string (c ∷ s) = let rest = c_string s in if c == 0 then done [] else rest >>= (λ t. done (c ∷ t))

unfoldable pub flat : List Bytes → Bytes
flat [] = []
flat (b ∷ bs) = b ++ flat bs

-- `memcpy(arg->hosts[i], allhosts[i], strlen(allhosts[i]))` for each entry of rank 0, on the blocks
-- of HOST_NAME_MAX bytes that `malloc` has returned for its hosts: no NUL is copied.
unfoldable pub copied : List Job → List Bytes → List Bytes
copied [] bs = bs
copied (e ∷ es) [] = []
copied (e ∷ es) (b ∷ bs) = (e.host ++ drop (length e.host) b) ∷ copied es bs

-- The entries with the strings that stand at `arg->hosts[i]` in this memory.
unfoldable pub as_read : List Job → List Bytes → Run (List Job)
as_read [] bs = done []
as_read (e ∷ es) [] = fault
as_read (e ∷ es) (b ∷ bs) = do
  host ← c_string (flat (b ∷ bs))
  rest ← as_read es bs
  done (record e { host = host } ∷ rest)

-- The entries of a rank, given the memory for the hosts of rank 0; the others receive whole blocks,
-- each with its NUL. A rank with none writes `hosts[0]` out of bounds; and a receive without a
-- message does not return.
unfoldable pub share : List Bytes → List Job → ℕ → ℕ → Run (List Job)
share memory files np i =
    let fcount = length files in
    if nf_of fcount np i == 0
    then fault
    else (if i == 0
        then as_read (take (nf_of fcount np 0) files)
            (copied (take (nf_of fcount np 0) files) memory)
        else access (received i (sends fcount np))
          >>= (λ m. done (take m.count (drop m.from files))))

-- The entries of the ranks in front of `i`, one rank after the other.
unfoldable pub spread : List Bytes → List Job → ℕ → ℕ → Run (List Job)
spread memory files np zero = done []
spread memory files np (suc i) = do
  before ← spread memory files np i
  own ← share memory files np i
  done (before ++ own)
