-- ===== src/Address/Height.antt =====
-- How deep the expression of a formula may be: the cap of parser.rs does not bound it.
use nemclass.Common.{ℕ, zero, suc, ◌+◌, max, ◌≡◌, refl, List, [], ◌∷◌, ◌++◌, arith}
use nemclass.Common.Outcome.{ok}
use nemclass.Common.Int.{pos}
use nemclass.Address.Syntax.{
  Expr, constant, module_name, add, sub, mul, div, rem, negate, deref, Token, number, plus,
}
use nemclass.Address.Parser.{parse_tokens}
use nemclass.Address.Grammar.{
  Derives, product, sum, factor, atom, literal, additive, multiplicative,
}
use nemclass.Address.Complete.{parse_tokens-eq-ok_iff}

-- The calls of `evaluate` within each other.
unfoldable pub height : Expr → ℕ
height (constant n) = 1
height (module_name s) = 1
height (add a b) = 1 + max (height a) (height b)
height (sub a b) = 1 + max (height a) (height b)
height (mul a b) = 1 + max (height a) (height b)
height (div a b) = 1 + max (height a) (height b)
height (rem a b) = 1 + max (height a) (height b)
height (negate a) = 1 + height a
height (deref a) = 1 + height a

-- `0 + 0 + ... + 0`
unfoldable pub sum_of_zeros : ℕ → List Token
sum_of_zeros zero = number (pos 0) ∷ []
sum_of_zeros (suc n) = sum_of_zeros n ++ (plus ∷ number (pos 0) ∷ [])

unfoldable zeros : ℕ → Expr
zeros zero = constant (pos 0)
zeros (suc n) = add (zeros n) (constant (pos 0))

zero_factor : Derives multiplicative 0 (number (pos 0) ∷ []) (constant (pos 0))
zero_factor = factor (atom (omega arith) (literal (pos 0) (omega arith)))

zeros-Derives : (n : ℕ) → Derives additive 0 (sum_of_zeros n) (zeros n)
unfolding sum_of_zeros zeros
zeros-Derives zero = product zero_factor
zeros-Derives (suc n) = sum (zeros-Derives n) zero_factor

height-zeros : (n : ℕ) → height (zeros n) ≡ suc n
unfolding height zeros
height-zeros zero = refl
height-zeros (suc n) = omega (arith, height-zeros n)

-- A sum of `n + 1` zeros is accepted for every `n`, as an expression of height `n + 1`, which
-- `evaluate` descends: no cap on the nesting of brackets and signs bounds that descent.
pub height-sum_of_zeros :
    (n : ℕ) → (e : Expr) × (parse_tokens (sum_of_zeros n) ≡ ok e) × (height e ≡ suc n)
height-sum_of_zeros n = (
  zeros n,
  (parse_tokens-eq-ok_iff (sum_of_zeros n) (zeros n)).1 (zeros-Derives n),
  height-zeros n,
)
