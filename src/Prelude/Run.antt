-- ===== src/Prelude/Run.antt =====
-- How a call of C code ends.
use mathlib.Core.Option.{Option, none, some}
use Prim.Native.Nat.{ℕ}
use mathlib.Core.Path.{◌≡◌, refl, ap, subst}
use native.Mathlib.Omega.{arith}
use mathlib.Core.Logic.{◌≢◌}

-- `fault` is an access out of an array's bounds, which C leaves undefined; `exited` is a call of
-- `exit`; `no_fuel` says that the recursion was cut off by the model.
pub data Run {ℓ} (A : Type ℓ) : Type ℓ where
  done : A → Run A
  exited : ℕ → Run A
  fault no_fuel : Run A

infixl 5 ◌>>=◌
abbrev pub ◌>>=◌ {ℓ κ} : {A : Type ℓ} {B : Type κ} → Run A → (A → Run B) → Run B
done a >>= f = f a
exited c >>= f = exited c
fault >>= f = fault
no_fuel >>= f = no_fuel

-- An access to an array, given what the array has at the index.
abbrev pub access {ℓ} : {A : Type ℓ} → Option A → Run A
access none = fault
access (some a) = done a

-- A call ends: it is not cut off, and an answer has the property.
abbrev pub Ends {ℓ} : {A : Type ℓ} → (A → Type 0) → Run A → Type 0
Ends P (done a) = P a
Ends P no_fuel = ⊥
Ends P _ = Unit

pub Ends-bind {ℓ κ} :
    {A : Type ℓ} {B : Type κ} (P : A → Type 0) (Q : B → Type 0) (m : Run A) (f : A → Run B)
    → Ends P m
    → ((a : A) → P a → Ends Q (f a))
    → Ends Q (m >>= f)
Ends-bind P Q (done a) f e k = k a e
Ends-bind P Q (exited c) f e k = tt
Ends-bind P Q fault f e k = tt
Ends-bind P Q no_fuel f e k = absurd e

pub Ends-mono {ℓ} :
    {A : Type ℓ} (P Q : A → Type 0) (m : Run A) → Ends P m → ((a : A) → P a → Q a) → Ends Q m
Ends-mono P Q (done a) e k = k a e
Ends-mono P Q (exited c) e k = tt
Ends-mono P Q fault e k = tt
Ends-mono P Q no_fuel e k = absurd e

pub Ends-uncut {ℓ} : {A : Type ℓ} (P : A → Type 0) {m : Run A} → Ends P m → m ≢ no_fuel
Ends-uncut P e cut = subst (Ends P) cut e

-- An answer of two calls in a row is that of the second on the answer of the first.
pub bind-done {ℓ κ} :
    {A : Type ℓ} {B : Type κ} (m : Run A) (f : A → Run B) {b : B}
    → (m >>= f) ≡ done b
    → (a : A) × (m ≡ done a) × (f a ≡ done b)
bind-done (done a) f e = (a, refl, e)
bind-done (exited c) f e = absurd (ground (arith, e))
bind-done fault f e = absurd (ground (arith, e))
bind-done no_fuel f e = absurd (ground (arith, e))

pub done_inj {ℓ} : {A : Type ℓ} {a b : A} → done a ≡ done b → a ≡ b
done_inj {a} e = ap (λ o. elim o [ done x ↦ x | _ ↦ a ]) e
