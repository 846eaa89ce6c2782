-- ===== src/Event/Word.antt =====
-- The word that `ph_pmu_parse_cfg` lays out, and the ranges of its fields.
use perf_hound.Prelude.{ℕ, ◌+◌, ◌*◌, ◌^◌, ◌<◌, ◌≡◌, refl, sym, ap, ap₂, ◌∙◌, arith}
use perf_hound.Bits.{◌|||◌, ◌<<<◌}
use perf_hound.Bits.Fields.{or-fields}
use perf_hound.Event.Parse.{Threshold, Modes, event_word}

or-add : (k q : ℕ) {a : ℕ} (r : ℕ) → a ≡ q * 2 ^ k → r < 2 ^ k → a ||| r ≡ a + r
or-add k q r e h = ap (λ a. a ||| r) e ∙ or-fields k q r h ∙ ap (λ a. a + r) (sym e)

-- A value of every field within its width.
pub record InRange (evt umask : ℕ) (t : Threshold) (edge : ℕ) (m : Modes) : Type 0 where
  pub evt_lt : evt < 2 ^ 8
  pub umask_lt : umask < 2 ^ 8
  pub cmask_lt : t.cmask < 2 ^ 8
  pub inv_lt : t.inv < 2
  pub edge_lt : edge < 2
  pub anythread_lt : m.anythread < 2
  pub user_lt : m.user < 2
  pub os_lt : m.os < 2

abbrev pub word_sum : ℕ → ℕ → Threshold → ℕ → Modes → ℕ
word_sum evt umask t edge m =
    t.cmask * 2 ^ 24
    + t.inv * 2 ^ 23
    + 2 ^ 22
    + m.anythread * 2 ^ 21
    + edge * 2 ^ 18
    + m.os * 2 ^ 17
    + m.user * 2 ^ 16
    + umask * 2 ^ 8
    + evt

pub event_word_lem :
    {evt umask edge : ℕ} {t : Threshold} {m : Modes}
    → InRange evt umask t edge m
    → event_word evt umask t edge m ≡ word_sum evt umask t edge m
unfolding event_word
event_word_lem {evt} {umask} {edge} {t} {m} h =
    let c = t.cmask in
    let v = t.inv in
    let a = m.anythread in
    let o = m.os in
    let u = m.user in
    let b0 = h.evt_lt in
    let b1 = h.umask_lt in
    let b2 = h.cmask_lt in
    let b3 = h.inv_lt in
    let b4 = h.edge_lt in
    let b5 = h.anythread_lt in
    let b6 = h.user_lt in
    let b7 = h.os_lt in
    let e0 : c <<< 24 ≡ c * 2 ^ 24 = omega arith in
    let e1 : v <<< 23 ≡ v * 2 ^ 23 = omega arith in
    let e2 : 1 <<< 22 ≡ 2 ^ 22 = refl in
    let e3 : a <<< 21 ≡ a * 2 ^ 21 = omega arith in
    let e4 : edge <<< 18 ≡ edge * 2 ^ 18 = omega arith in
    let e5 : o <<< 17 ≡ o * 2 ^ 17 = omega arith in
    let e6 : u <<< 16 ≡ u * 2 ^ 16 = omega arith in
    let e7 : umask <<< 8 ≡ umask * 2 ^ 8 = omega arith in
    let s1 = ap₂ ◌|||◌ e0 e1 ∙ or-add 24 c (v * 2 ^ 23) refl (omega arith) in
    let s2 = ap₂ ◌|||◌ s1 e2 ∙ or-add 23 (c * 2 + v) (2 ^ 22) (omega arith) (omega arith) in
    let s3 =
      ap₂ ◌|||◌ s2 e3 ∙ or-add 22 (c * 4 + v * 2 + 1) (a * 2 ^ 21) (omega arith) (omega arith) in
    let s4 =
      ap₂ ◌|||◌ s3 e4
      ∙ or-add 21 (c * 8 + v * 4 + 2 + a) (edge * 2 ^ 18) (omega arith) (omega arith) in
    let s5 =
      ap₂ ◌|||◌ s4 e5
      ∙ or-add 18 (c * 64 + v * 32 + 16 + a * 8 + edge) (o * 2 ^ 17) (omega arith) (omega arith) in
    let s6 =
      ap₂ ◌|||◌ s5 e6
      ∙ or-add 17 (c * 128 + v * 64 + 32 + a * 16 + edge * 2 + o) (u * 2 ^ 16) (omega arith)
          (omega arith) in
    let s7 =
      ap₂ ◌|||◌ s6 e7
      ∙ or-add 16 (c * 256 + v * 128 + 64 + a * 32 + edge * 4 + o * 2 + u) (umask * 2 ^ 8)
          (omega arith) (omega arith) in
    ap (λ x. x ||| evt) s7
    ∙ or-add 8 (c * 65536 + v * 32768 + 16384 + a * 8192 + edge * 1024 + o * 512 + u * 256 + umask)
        evt (omega arith) (omega arith)
