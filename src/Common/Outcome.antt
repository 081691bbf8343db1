-- ===== src/Common/Outcome.antt =====
-- The results of fallible code: a value, an error of the caller's type, or a loop of the model that
-- ran out of fuel, which no Rust value stands for.
use mathlib.Core.Path.{◌≡◌, subst}
use mathlib.Core.Logic.{◌≢◌}
use mathlib.Core.Bool.{Bool, true, false}

pub data Outcome {ℓ κ} (E : Type κ) (A : Type ℓ) : Type (ℓ ⊔ κ) where
  ok : A → Outcome E A
  err : E → Outcome E A
  diverged : Outcome E A

infixl 5 ◌>>=◌ ◌>>◌
abbrev pub ◌>>=◌ {ℓ κ μ} :
    {E : Type μ} {A : Type ℓ} {B : Type κ} → Outcome E A → (A → Outcome E B) → Outcome E B
ok a >>= f = f a
err e >>= f = err e
diverged >>= f = diverged

abbrev pub ◌>>◌ {ℓ μ} : {E : Type μ} {B : Type ℓ} → Outcome E (Unit {0}) → Outcome E B → Outcome E B
m >> k = m >>= λ _. k

-- `if !b { return Err(e) }`
abbrev pub guard {μ} : {E : Type μ} → Bool → E → Outcome E (Unit {0})
guard true e = ok tt
guard false e = err e

-- Kept within its fuel, and `P` holds of the value if there is one.
pub data Ensures {ℓ κ μ} {E : Type μ} {A : Type ℓ} (P : A → Type κ)
    : Outcome E A → Type (ℓ ⊔ κ ⊔ μ) where
  holds : {a : A} → P a → Ensures P (ok a)
  rejected : {e : E} → Ensures P (err e)

module _ {ℓ κ μ} {E : Type μ} {A : Type ℓ} {P : A → Type κ} where
  pub Ensures-ne-diverged : {r : Outcome E A} → Ensures P r → r ≢ diverged
  Ensures-ne-diverged (holds h) = λ e. cc
  Ensures-ne-diverged rejected = λ e. cc

  pub Ensures-ok :
      {value : A} {outcome : Outcome E A} → Ensures P outcome → outcome ≡ ok value → P value
  Ensures-ok rejected same = cc
  Ensures-ok (holds p) same = subst P (cc) p

  pub Ensures-map {κ'} :
      {Q : A → Type κ'} {r : Outcome E A} → Ensures P r → ((a : A) → P a → Q a) → Ensures Q r
  Ensures-map (holds {a} h) f = holds (f a h)
  Ensures-map rejected f = rejected

  pub Ensures-bind {ℓ₁ κ₁} :
      {B : Type ℓ₁} {next : A → Outcome E B} {R : B → Type κ₁} {first : Outcome E A}
      → Ensures P first
      → ((value : A) → P value → Ensures R (next value))
      → Ensures R (first >>= next)
  Ensures-bind rejected then_holds = rejected
  Ensures-bind (holds {a} p) then_holds = then_holds a p
