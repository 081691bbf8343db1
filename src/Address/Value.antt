-- ===== src/Address/Value.antt =====
-- What a formula's value is: wrapping arithmetic on 64 bits.
use nemclass.Common.{ℕ, ◌+◌, ◌*◌, ◌/◌, ◌%◌, ◌^◌, ◌≤◌, ◌<◌, ◌≡◌, refl, ap, some, List, arith}
use nemclass.Common.Outcome.{ok}
use nemclass.Common.Int.{ℤ, pos, negsuc, pos_part, neg_part}
use nemclass.Address.Syntax.{
  Expr, constant, module_name, add, sub, mul, div, rem, negate, deref, Result,
}
use nemclass.Address.Interpreter.{
  wrapping_add, wrapping_sub, wrapping_mul, wrapping_neg, usize_mod, to_usize, evaluate,
}

-- The integer that a formula of `+`, `-`, `*` and unary minus stands for, as a difference of two
-- numbers. `base` gives the modules' bases.
abbrev Difference : Type 0
Difference = ℕ × ℕ

module _ (base : List ℕ → ℕ) where
  unfoldable pub integer : Expr → Difference
  integer (constant n) = (pos_part n, neg_part n)
  integer (module_name s) = (base s, 0)
  integer (add a b) = ((integer a).0 + (integer b).0, (integer a).1 + (integer b).1)
  integer (sub a b) = ((integer a).0 + (integer b).1, (integer a).1 + (integer b).0)
  integer (mul a b) = (
    (integer a).0 * (integer b).0 + (integer a).1 * (integer b).1,
    (integer a).0 * (integer b).1 + (integer a).1 * (integer b).0,
  )
  integer (negate a) = ((integer a).1, (integer a).0)
  integer (div a b) = (0, 0)
  integer (rem a b) = (0, 0)
  integer (deref a) = (0, 0)

-- No division and no read of memory, and i64 constants.
abbrev pub IsRing : Expr → Type 0
IsRing (constant n) = (pos_part n < 2 ^ 63) × (neg_part n ≤ 2 ^ 63)
IsRing (module_name s) = Unit {0}
IsRing (add a b) = IsRing a × IsRing b
IsRing (sub a b) = IsRing a × IsRing b
IsRing (mul a b) = IsRing a × IsRing b
IsRing (negate a) = IsRing a
IsRing (div a b) = ⊥
IsRing (rem a b) = ⊥
IsRing (deref a) = ⊥

-- `v` is the difference `d` modulo 2 ^ 64.
abbrev pub Represents : ℕ → Difference → Type 0
Represents v d = (v < usize_mod) × ((v + d.1) % usize_mod ≡ d.0 % usize_mod)

-- A congruence as an equation, which products keep.
congruent_parts :
    (a b : ℕ)
    → a % usize_mod ≡ b % usize_mod
    → a + usize_mod * (b / usize_mod) ≡ b + usize_mod * (a / usize_mod)
congruent_parts a b h = omega arith

congruent_of_parts :
    (a b k l : ℕ) → a + usize_mod * k ≡ b + usize_mod * l → a % usize_mod ≡ b % usize_mod
congruent_of_parts a b k l h = omega arith

mul_congruent : (a b c : ℕ) → a % usize_mod ≡ b % usize_mod → a * c % usize_mod ≡ b * c % usize_mod
mul_congruent a b c h =
    congruent_of_parts (a * c) (b * c) (b / usize_mod * c) (a / usize_mod * c)
      (omega (arith, ap (λ (t : ℕ). t * c) (congruent_parts a b h)))

-- (x + n)(y + m) is pq, and so xy is (pq + nm) - (pm + nq).
mul_Represents :
    (x y n m p q : ℕ)
    → Represents x (p, n)
    → Represents y (q, m)
    → Represents (wrapping_mul x y) (p * q + n * m, p * m + n * q)
mul_Represents x y n m p q hx hy = (
  omega arith,
  omega (
    arith,
    mul_congruent (x + n) p y hx.1,
    mul_congruent (x + n) p m hx.1,
    mul_congruent (y + m) q p hy.1,
    mul_congruent (y + m) q n hy.1,
  ),
)

constant_Represents :
    (n : ℤ) → IsRing (constant n) → Represents (to_usize n) (pos_part n, neg_part n)
unfolding to_usize
constant_Represents (pos n) h = omega arith
constant_Represents (negsuc n) h = omega arith

module _ (base : List ℕ → ℕ) (bases : (s : List ℕ) → base s < usize_mod)
    (read_usize : ℕ → Result ℕ) where
  -- With every module at its base, which fits a usize, a formula of `+`, `-`, `*` and unary minus over i64 constants
  -- evaluates without an error to the integer that it stands for, modulo 2 ^ 64.
  pub evaluate-Represents :
      (e : Expr)
      → IsRing e
      → (v : ℕ) × (evaluate (λ s. some (base s)) read_usize e ≡ ok v)
        × Represents v (integer base e)
  unfolding evaluate integer
  evaluate-Represents (constant n) h = (to_usize n, refl, constant_Represents n h)
  evaluate-Represents (module_name s) h = (base s, refl, (bases s, omega arith))
  evaluate-Represents (add a b) h =
      let (x, p, hx) = evaluate-Represents a h.0 in
      let (y, q, hy) = evaluate-Represents b h.1 in (wrapping_add x y, rw (p, q), omega arith)
  evaluate-Represents (sub a b) h =
      let (x, p, hx) = evaluate-Represents a h.0 in
      let (y, q, hy) = evaluate-Represents b h.1 in (wrapping_sub x y, rw (p, q), omega arith)
  evaluate-Represents (mul a b) h =
      let (x, p, hx) = evaluate-Represents a h.0 in
      let (y, q, hy) = evaluate-Represents b h.1 in
      let (p₁, n₁) = integer base a in
      let (p₂, n₂) = integer base b in
      (wrapping_mul x y, rw (p, q), mul_Represents x y n₁ n₂ p₁ p₂ hx hy)
  evaluate-Represents (div a b) h = absurd h
  evaluate-Represents (rem a b) h = absurd h
  evaluate-Represents (negate a) h =
      let (x, p, hx) = evaluate-Represents a h in (wrapping_neg x, rw p, omega arith)
  evaluate-Represents (deref a) h = absurd h
