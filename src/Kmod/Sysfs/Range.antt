-- ===== src/Kmod/Sysfs/Range.antt =====
-- Which counters a request selects, and where their words stand in the buffer.
use perf_hound.Prelude.{
  ℕ, zero, suc, ◌+◌, ◌-◌, ◌*◌, ◌/◌, ◌%◌, ◌^◌, ◌≤◌, ◌<◌, ◌≡◌, ◌↔◌, ◌∙◌, refl, ap, Bool, true, ◌&&◌,
  Option, none, some, List, [], ◌∷◌, ◌++◌, arith, ltb, leb, if◌then◌else◌, length, get_elem?,
  length-append,
}
use perf_hound.Bits.{bit, ◌|||◌}
use perf_hound.Bits.Logic.{bit-or}
use perf_hound.Bits.Fields.{and-mask}
use perf_hound.Kmod.{Globals}
use perf_hound.Kmod.Sysfs.{
  clamp_range, is_aligned, reasonable, ff_rounds, gp_rounds, fill, read_words, Reply, refused,
  moved,
}

abbrev pub Selects : Option (ℕ × ℕ) → ℕ → Type 0
Selects none x = ⊥
Selects (some (start, end)) x = (start ≤ x) × (x < end)

-- The clamped range of a request contains a counter exactly when the request contains it and it
-- lies between the given bounds.
pub clamp_range_lem :
    (off len start end x : ℕ)
    → Selects (clamp_range off len start end) x
      ↔ ((off ≤ x) × (x < off + len) × (start ≤ x) × (x < end))
unfolding clamp_range
clamp_range_lem off len start end x = ground arith

low_three : (x : ℕ) → x % 8 ≡ bit 0 x + 2 * bit 1 x + 4 * bit 2 x
unfolding bit
low_three x = omega arith

is_aligned_lem : (off len : ℕ) → (is_aligned off len 0x7 ≡ true) ↔ ((off % 8 ≡ 0) × (len % 8 ≡ 0))
unfolding is_aligned
is_aligned_lem off len = ground (
  arith,
  and-mask 3 (off ||| len),
  low_three (off ||| len),
  low_three off,
  low_three len,
  bit-or 0 off len,
  bit-or 1 off len,
  bit-or 2 off len,
)

-- A request passes the check of the handlers exactly if its offset and its length are multiples of
-- 8 and its offset is below 2^63, which is to say not negative.
pub reasonable_lem :
    (off len : ℕ) → (reasonable off len ≡ true) ↔ ((off % 8 ≡ 0) × (len % 8 ≡ 0) × (off < 2 ^ 63))
unfolding reasonable
reasonable_lem off len = ground (arith, is_aligned_lem off len)

length-fill {ℓ} : {A : Type ℓ} (f : ℕ → A) (n i : ℕ) → length (fill f n i) ≡ n
unfolding fill
length-fill f zero i = refl
length-fill f (suc n) i = ap suc (length-fill f n (i + 1))

get_elem?-fill {ℓ} :
    {A : Type ℓ} (f : ℕ → A) (n i p : ℕ) → p < n → get_elem? (fill f n i) p ≡ some (f (i + p))
unfolding fill
get_elem?-fill f zero i p h = absurd (omega arith)
get_elem?-fill f (suc n) i zero h = let e : i ≡ i + 0 = omega arith in ap (λ j. some (f j)) e
get_elem?-fill f (suc n) i (suc p) h =
    let e : i + 1 + p ≡ i + suc p = omega arith in
    get_elem?-fill f n (i + 1) p (omega arith) ∙ ap (λ j. some (f j)) e

get_elem?-append {ℓ} :
    {A : Type ℓ} (xs ys : List A) (p : ℕ)
    → get_elem? (xs ++ ys) p
      ≡ (if ltb p (length xs) then get_elem? xs p else get_elem? ys (p - length xs))
get_elem?-append [] ys p = let e : p ≡ p - 0 = omega arith in ap (get_elem? ys) e ∙ ground arith
get_elem?-append (x ∷ xs) ys zero = ground arith
get_elem?-append (x ∷ xs) ys (suc p) = get_elem?-append xs ys p ∙ ground arith

-- The answer to a reasonable reading request tells the rounds of both loops, in bytes.
pub read_words-bytes :
    (g : Globals) (ff gp : ℕ → ℕ) (off len : ℕ)
    → reasonable off len ≡ true
    → (words : List ℕ) × (read_words g ff gp off len
        ≡ moved (((ff_rounds g off len).1 + (gp_rounds g off len).1) * 8) words)
unfolding read_words
read_words-bytes g ff gp off len ok =
    let (i, n) = ff_rounds g off len in
    let (j, l) = gp_rounds g off len in
    let words : List ℕ = fill ff n i ++ fill gp l j in
    (
      words,
      rw (ok, length-append (fill ff n i) (fill gp l j), length-fill ff n i, length-fill gp l j)
          refl,
    )

-- The layout that the probe relies on: three fixed counters in front, then the others.
pub record IsProbeAbi (g : Globals) : Type 0 where
  pub start_ff : g.pmc_start_ff ≡ 0
  pub end_ff : g.pmc_end_ff ≡ 3
  pub start_gp : g.pmc_start_gp ≡ 3
  pub end_gp : g.pmc_end_gp ≡ 3 + g.pmc_gp
  pub ff : g.pmc_ff ≡ 3
  pub gp : g.pmc_gp ≤ 22

-- The counter with number `k` in sysfs lies in the request.
abbrev pub selected : ℕ → ℕ → ℕ → Bool
selected off len k = leb (off / 8) k && ltb k (off / 8 + len / 8)

-- The answer to a reading request has `v` as its word `p`.
abbrev pub WordAt : Reply (List ℕ) → ℕ → ℕ → Type 0
WordAt refused p v = ⊥
WordAt (moved n words) p v = get_elem? words p ≡ some v

-- A reader of counters `ff` and `gp` under the numbering of sysfs.
abbrev pub sysfs_word : (ℕ → ℕ) → (ℕ → ℕ) → ℕ → ℕ
sysfs_word ff gp k = if ltb k 3 then ff k else gp (k - 3)

module _ (g : Globals) (abi : IsProbeAbi g) (off len : ℕ) where
  -- The loops stay among the counters of their kind, and within the request together.
  pub rounds_fit :
      let (i, n) = ff_rounds g off len in
      let (j, l) = gp_rounds g off len in (i + n ≤ 3) × (j + l ≤ g.pmc_gp) × (n + l ≤ len / 8)
  unfolding ff_rounds gp_rounds clamp_range
  rounds_fit = ground (arith, abi.start_ff, abi.end_ff, abi.start_gp, abi.end_gp)

  -- The first loop visits the selected fixed counters.
  pub ff_rounds_lem :
      (k : ℕ)
      → k < 3
      → let (i, n) = ff_rounds g off len in
        ((leb i k && ltb k (i + n)) ≡ selected off len k)
        × (selected off len k ≡ true → i ≡ off / 8)
  unfolding ff_rounds clamp_range
  ff_rounds_lem k hk = ground (arith, abi.start_ff, abi.end_ff)

  -- The second loop visits the selected others, and starts behind the words of the first.
  pub gp_rounds_lem :
      (k : ℕ)
      → k < g.pmc_gp
      → let (j, l) = gp_rounds g off len in
        ((leb j k && ltb k (j + l)) ≡ selected off len (3 + k))
        × (selected off len (3 + k) ≡ true → 3 + j ≡ off / 8 + (ff_rounds g off len).1)
  unfolding ff_rounds gp_rounds clamp_range
  gp_rounds_lem k hk = ground (arith, abi.start_ff, abi.end_ff, abi.start_gp, abi.end_gp)

  -- Word `p` of the answer to a request of whole words is that of counter `off / 8 + p`.
  pub read_words_lem :
      (ff gp : ℕ → ℕ) (k : ℕ)
      → reasonable off len ≡ true
      → selected off len k ≡ true
      → k < 3 + g.pmc_gp
      → WordAt (read_words g ff gp off len) (k - off / 8) (sysfs_word ff gp k)
  unfolding read_words
  read_words_lem ff gp k ok chosen in_range =
      let (i, n) = ff_rounds g off len in
      let (j, l) = gp_rounds g off len in
      let p = k - off / 8 in
      ground (
        arith,
        ok,
        ff_rounds_lem k,
        gp_rounds_lem (k - 3),
        get_elem?-append (fill ff n i) (fill gp l j) p,
        length-fill ff n i,
        get_elem?-fill ff n i p,
        get_elem?-fill gp l j (p - n),
      )
