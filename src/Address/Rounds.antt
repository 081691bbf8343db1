-- ===== src/Address/Rounds.antt =====
-- What the parser reads at each level of the grammar, and the rounds of its two loops.
use nemclass.Common.{
  ℕ, suc, ◌+◌, ◌≤◌, ◌≡◌, refl, Bool, true, false, List, [], ◌∷◌, ◌++◌, arith, leb,
}
use nemclass.Common.Outcome.{ok, ◌>>◌, guard}
use native.Mathlib.Nat.{add_comm}
use nemclass.Address.Syntax.{
  Expr, add, sub, mul, div, rem, Token, plus, minus, star, slash, percent, ModelError, Result,
}
use nemclass.Address.Parser.{
  max_depth, parse_additive, additive_loop, parse_multiplicative, multiplicative_loop, parse_unary,
  parse_primary,
}
use nemclass.Address.Fuel.{
  additive_loop_more, parse_multiplicative_more, multiplicative_loop_more, parse_unary_more,
}
use nemclass.Address.Grammar.{Level, additive, multiplicative, unary, primary}

-- Tokens at which the loops stop.
abbrev no_product : List Token → Bool
no_product (star ∷ _) = false
no_product (slash ∷ _) = false
no_product (percent ∷ _) = false
no_product _ = true

abbrev no_sum : List Token → Bool
no_sum (plus ∷ _) = false
no_sum (minus ∷ _) = false
no_sum ts = no_product ts

multiplicative_loop_stop :
    (d : ℕ) (e : Expr) (ts : List Token)
    → no_product ts ≡ true
    → multiplicative_loop 1 d e ts ≡ ok (e, ts)
unfolding multiplicative_loop
multiplicative_loop_stop d e [] h = refl
multiplicative_loop_stop d e (star ∷ ts) h = cc
multiplicative_loop_stop d e (slash ∷ ts) h = cc
multiplicative_loop_stop d e (percent ∷ ts) h = cc
multiplicative_loop_stop d e (t ∷ ts) h = refl

additive_loop_stop :
    (d : ℕ) (e : Expr) (ts : List Token) → no_sum ts ≡ true → additive_loop 1 d e ts ≡ ok (e, ts)
unfolding additive_loop
additive_loop_stop d e [] h = refl
additive_loop_stop d e (plus ∷ ts) h = cc
additive_loop_stop d e (minus ∷ ts) h = cc
additive_loop_stop d e (t ∷ ts) h = refl

no_sum→no_product : (ts : List Token) → no_sum ts ≡ true → no_product ts ≡ true
no_sum→no_product [] h = refl
no_sum→no_product (plus ∷ ts) h = refl
no_sum→no_product (minus ∷ ts) h = refl
no_sum→no_product (t ∷ ts) h = h

pub within :
    {A : Type 0} (d : ℕ) (e : ModelError) (x : Result A)
    → d ≤ max_depth
    → (guard (leb d max_depth) e >> x) ≡ x
within d e x h = ground arith

-- What the parser does on a phrase of each level with `rest` behind it: the loops go on from the
-- phrase's meaning.
abbrev pub Accepts : Level → ℕ → List Token → Expr → Type 0
Accepts additive d ts e =
    (rest : List Token) (f : ℕ) (r : Expr × List Token)
    → no_product rest ≡ true
    → additive_loop f d e rest ≡ ok r
    → (g : ℕ) × (parse_additive g d (ts ++ rest) ≡ ok r)
Accepts multiplicative d ts e =
    (rest : List Token) (f : ℕ) (r : Expr × List Token)
    → multiplicative_loop f d e rest ≡ ok r
    → (g : ℕ) × (parse_multiplicative g d (ts ++ rest) ≡ ok r)
Accepts unary d ts e = (rest : List Token) → (g : ℕ) × (parse_unary g d (ts ++ rest) ≡ ok (e, rest))
Accepts primary d ts e =
    (rest : List Token) → (g : ℕ) × (parse_primary g d (ts ++ rest) ≡ ok (e, rest))

-- A phrase of products, read to its end.
pub read_product :
    (d : ℕ) (ts : List Token) (e : Expr) (rest : List Token)
    → Accepts multiplicative d ts e
    → no_product rest ≡ true
    → (g : ℕ) × (parse_multiplicative g d (ts ++ rest) ≡ ok (e, rest))
read_product d ts e rest a h = a rest 1 (e, rest) (multiplicative_loop_stop d e rest h)

pub read_sum :
    (d : ℕ) (ts : List Token) (e : Expr) (rest : List Token)
    → Accepts additive d ts e
    → no_sum rest ≡ true
    → (g : ℕ) × (parse_additive g d (ts ++ rest) ≡ ok (e, rest))
read_sum d ts e rest a h =
    a rest 1 (e, rest) (no_sum→no_product rest h) (additive_loop_stop d e rest h)

module _ (d : ℕ) (us : List Token) (b : Expr) (rest : List Token) (f : ℕ)
    {r : Expr × List Token} where
  -- A round of the sum's loop: enough fuel for the operand and for the rounds that follow.
  pub sum_round :
      (a : Expr)
      → (g : ℕ) × (parse_multiplicative g d (us ++ rest) ≡ ok (b, rest))
      → additive_loop f d (add a b) rest ≡ ok r
      → (h : ℕ) × (additive_loop h d a (plus ∷ (us ++ rest)) ≡ ok r)
  unfolding additive_loop
  sum_round a (g, p) q = (
    suc (f + g),
    rw (parse_multiplicative_more f g d (us ++ rest) p, add_comm f g)
        (additive_loop_more g f d (add a b) rest q),
  )

  pub difference_round :
      (a : Expr)
      → (g : ℕ) × (parse_multiplicative g d (us ++ rest) ≡ ok (b, rest))
      → additive_loop f d (sub a b) rest ≡ ok r
      → (h : ℕ) × (additive_loop h d a (minus ∷ (us ++ rest)) ≡ ok r)
  unfolding additive_loop
  difference_round a (g, p) q = (
    suc (f + g),
    rw (parse_multiplicative_more f g d (us ++ rest) p, add_comm f g)
        (additive_loop_more g f d (sub a b) rest q),
  )

  pub times_round :
      (a : Expr)
      → (g : ℕ) × (parse_unary g d (us ++ rest) ≡ ok (b, rest))
      → multiplicative_loop f d (mul a b) rest ≡ ok r
      → (h : ℕ) × (multiplicative_loop h d a (star ∷ (us ++ rest)) ≡ ok r)
  unfolding multiplicative_loop
  times_round a (g, p) q = (
    suc (f + g),
    rw (parse_unary_more f g d (us ++ rest) p, add_comm f g)
        (multiplicative_loop_more g f d (mul a b) rest q),
  )

  pub quotient_round :
      (a : Expr)
      → (g : ℕ) × (parse_unary g d (us ++ rest) ≡ ok (b, rest))
      → multiplicative_loop f d (div a b) rest ≡ ok r
      → (h : ℕ) × (multiplicative_loop h d a (slash ∷ (us ++ rest)) ≡ ok r)
  unfolding multiplicative_loop
  quotient_round a (g, p) q = (
    suc (f + g),
    rw (parse_unary_more f g d (us ++ rest) p, add_comm f g)
        (multiplicative_loop_more g f d (div a b) rest q),
  )

  pub remainder_round :
      (a : Expr)
      → (g : ℕ) × (parse_unary g d (us ++ rest) ≡ ok (b, rest))
      → multiplicative_loop f d (rem a b) rest ≡ ok r
      → (h : ℕ) × (multiplicative_loop h d a (percent ∷ (us ++ rest)) ≡ ok r)
  unfolding multiplicative_loop
  remainder_round a (g, p) q = (
    suc (f + g),
    rw (parse_unary_more f g d (us ++ rest) p, add_comm f g)
        (multiplicative_loop_more g f d (rem a b) rest q),
  )

-- The first operand, and the loop behind it.
