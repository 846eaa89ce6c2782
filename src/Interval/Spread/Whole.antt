-- ===== src/Interval/Spread/Whole.antt =====
-- The entries of all ranks are the record files.
use native.Mathlib.Nat.{div-add-mod', mod-lt}
use perf_hound.Prelude.{
  ℕ, zero, suc, ◌+◌, ◌-◌, ◌*◌, ◌/◌, ◌%◌, ◌≤◌, ◌<◌, ◌≡◌, refl, ap, ap₂, ◌∙◌, arith, List, ◌++◌, some,
  length, take, drop, get_elem?, some_inj, All, [], ◌∷◌, append_assoc, Bytes, ltb, ◌==◌, Bool-cases,
  inl, inr, min, ltb→lt, take-add, take-all, false,
}
use perf_hound.Interval.{Job}
use perf_hound.Prelude.Run.{done}
use perf_hound.Interval.Spread.{
  nf_of, Message, larger, smaller, sends, received, share, spread, c_string, flat, copied, as_read,
}

-- Where the entries of a rank begin.
abbrev start_of : ℕ → ℕ → ℕ → ℕ
start_of fcount np i = i * (fcount / np) + min i (fcount % np)

received-larger :
    (k i j n : ℕ) (rest : List Message)
    → i ≤ j
    → j < i + k
    → received j (larger k i n ++ rest) ≡ some (record { dest = j; from = j * n; count = n })
unfolding received larger
received-larger zero i j n rest lo hi = absurd (omega arith)
received-larger (suc k) i j n rest lo hi = ground (arith, received-larger k (i + 1) j n rest)

received-past :
    (k i j n : ℕ) (rest : List Message)
    → i + k ≤ j
    → received j (larger k i n ++ rest) ≡ received j rest
unfolding received larger
received-past zero i j n rest past = refl
received-past (suc k) i j n rest past = ground (arith, received-past k (i + 1) j n rest)

received-smaller :
    (k i j md n : ℕ)
    → i ≤ j
    → j < i + k
    → received j (smaller k i md n)
      ≡ some (record { dest = j; from = md * (n + 1) + (j - md) * n; count = n })
unfolding received smaller
received-smaller zero i j md n lo hi = absurd (omega arith)
received-smaller (suc k) i j md n lo hi = ground (arith, received-smaller k (i + 1) j md n)

abbrev message : ℕ → ℕ → ℕ → Message
message i from count = record { dest = i; from = from; count = count }

to_start :
    (i from from' count count' : ℕ)
    → from ≡ from'
    → count ≡ count'
    → some (message i from count) ≡ some (message i from' count')
to_start i from from' count count' e e' = ap₂ (λ (f c : ℕ). some (message i f c)) e e'

behind_by : (md t q : ℕ) → md * (q + 1) + t * q ≡ (md + t) * q + md
behind_by md t q = omega arith

behind_larger : (i md q : ℕ) → md ≤ i → md * (q + 1) + (i - md) * q ≡ i * q + min i md
behind_larger i md q le =
    behind_by md (i - md) q
    ∙ ap₂ (λ (k m : ℕ). k * q + m) {x = md + (i - md)} {y = i} (omega arith) (omega arith)

ltb→ge : (a b : ℕ) → ltb a b ≡ false → b ≤ a
ltb→ge a b h = ground arith

-- Every other rank is sent its entries, which begin behind those of the rank before.
received-sends :
    (fcount np i : ℕ)
    → 0 < i
    → i < np
    → received i (sends fcount np)
      ≡ some (record { dest = i; from = start_of fcount np i; count = nf_of fcount np i })
unfolding sends nf_of
received-sends fcount np i pos lt =
    let some_rank : 0 < np = omega arith in
    let small : fcount % np < np = mod-lt fcount some_rank in
    elim (Bool-cases (ltb i (fcount % np))) [
      | inl e ↦
          let below : i < fcount % np = ltb→lt i (fcount % np) e in
          received-larger (fcount % np - 1) 1 i (fcount / np + 1) _ (omega arith) (omega arith)
          ∙ to_start i _ _ _ _ (omega (arith, below)) (rw e (omega arith))
      | inr e ↦
          let above : fcount % np ≤ i = ltb→ge i (fcount % np) e in
          received-past (fcount % np - 1) 1 i (fcount / np + 1) _ (omega arith)
          ∙ received-smaller (np - fcount % np) (fcount % np) i (fcount % np) (fcount / np)
              (omega arith) (omega arith)
          ∙ to_start i _ _ _ _ (behind_larger i (fcount % np) (fcount / np) above)
              (rw e (omega arith))
    ]

start_next :
    (fcount np i : ℕ) → start_of fcount np i + nf_of fcount np i ≡ start_of fcount np (suc i)
unfolding nf_of
start_next fcount np i = ground arith

start_last : (fcount np : ℕ) → 0 < np → start_of fcount np np ≡ fcount
start_last fcount np pos = omega (arith, mod-lt fcount pos, div-add-mod' fcount np)

quotient_pos : (q n r f : ℕ) → q * n + r ≡ f → r < n → n ≤ f → 1 ≤ q
quotient_pos zero n r f e lt le = absurd (omega arith)
quotient_pos (suc q) n r f e lt le = omega arith

has_some : (fcount np i : ℕ) → i < np → np ≤ fcount → (nf_of fcount np i == 0) ≡ false
unfolding nf_of
has_some fcount np i lt enough =
    let one : 1 ≤ fcount / np =
      quotient_pos (fcount / np) np (fcount % np) fcount (div-add-mod' fcount np)
        (mod-lt fcount (omega arith)) enough in
    ground (arith, one)

not_first : (i : ℕ) → (suc i == 0) ≡ false
not_first i = ground arith

-- Behind each host that rank 0 copies, the memory has a NUL; and no host has one.
abbrev pub IsZeroBehind : List Job → List Bytes → Type 0
IsZeroBehind [] bs = Unit
IsZeroBehind (e ∷ es) [] = ⊥
IsZeroBehind (e ∷ es) (b ∷ bs) =
    All (λ c. (c == 0) ≡ false) e.host × (get_elem? b (length e.host) ≡ some 0) × IsZeroBehind es bs

drop-get_elem? :
    (xs : Bytes) (n c : ℕ) → get_elem? xs n ≡ some c → (rest : Bytes) × (drop n xs ≡ c ∷ rest)
drop-get_elem? [] n c e = absurd (ground (arith, e))
drop-get_elem? (x ∷ xs) zero c e = (xs, ap (λ (y : ℕ). y ∷ xs) (some_inj e))
drop-get_elem? (x ∷ xs) (suc n) c e = drop-get_elem? xs n c e

c_string-append :
    (host rest : Bytes) → All (λ c. (c == 0) ≡ false) host → c_string (host ++ 0 ∷ rest) ≡ done host
unfolding c_string
c_string-append [] rest plain = refl
c_string-append (c ∷ host) rest plain = rw (plain.0, c_string-append host rest plain.1) refl

-- Then rank 0 reads the hosts that it has copied.
as_read-copied :
    (es : List Job) (bs : List Bytes) → IsZeroBehind es bs → as_read es (copied es bs) ≡ done es
unfolding as_read copied flat
as_read-copied [] bs zeros = refl
as_read-copied (e ∷ es) [] zeros = absurd zeros
as_read-copied (e ∷ es) (b ∷ bs) zeros =
    let (rest, behind) = drop-get_elem? b (length e.host) 0 zeros.1 in
    rw
      (
        behind,
        append_assoc e.host (0 ∷ rest) (flat (copied es bs)),
        c_string-append e.host (rest ++ flat (copied es bs)) zeros.0,
        as_read-copied es bs zeros.2,
      )
      refl

module _ (memory : List Bytes) where
  -- The memory behind the hosts of rank 0.
  abbrev pub IsZeroed : List Job → ℕ → Type 0
  IsZeroed files np = IsZeroBehind (take (nf_of (length files) np 0) files) memory

  share_lem :
      (files : List Job) (np i : ℕ)
      → i < np
      → np ≤ length files
      → IsZeroed files np
      → share memory files np i
        ≡ done (take (nf_of (length files) np i) (drop (start_of (length files) np i) files))
  unfolding share
  share_lem files np zero lt enough zeros =
      rw
        (
          has_some (length files) np 0 lt enough,
          as_read-copied (take (nf_of (length files) np 0) files) memory zeros,
        )
        (ap (λ (k : ℕ). done (take (nf_of (length files) np 0) (drop k files))) {x = 0}
          {y = start_of (length files) np 0} (omega arith))
  share_lem files np (suc i) lt enough zeros =
      rw
        (
          has_some (length files) np (suc i) lt enough,
          not_first i,
          received-sends (length files) np (suc i) (omega arith) lt,
        )
        refl

  spread_upto :
      (files : List Job) (np i : ℕ)
      → i ≤ np
      → np ≤ length files
      → IsZeroed files np
      → spread memory files np i ≡ done (take (start_of (length files) np i) files)
  unfolding spread
  spread_upto files np zero le enough zeros =
      ap (λ (k : ℕ). done (take k files)) {x = 0} {y = start_of (length files) np 0} (omega arith)
  spread_upto files np (suc i) le enough zeros =
      rw
        (
          spread_upto files np i (omega arith) enough zeros,
          share_lem files np i (omega arith) enough zeros,
        )
        (ap done (
          take-add (start_of (length files) np i) (nf_of (length files) np i) files
          ∙ ap (λ (k : ℕ). take k files) (start_next (length files) np i)))

  -- With at least as many record files as ranks, and with a NUL behind each host in the memory of
  -- rank 0, whose hosts have none themselves, the record files that the ranks get, with their
  -- hosts and one rank after the other, are all record files in their order.
  pub spread-whole :
      (files : List Job) (np : ℕ)
      → 0 < np
      → np ≤ length files
      → IsZeroed files np
      → spread memory files np np ≡ done files
  spread-whole files np pos enough zeros =
      spread_upto files np np (omega arith) enough zeros
      ∙ ap done (take-all _ files (omega (arith, start_last (length files) np pos)))
