-- ===== src/Address/Grammar.antt =====
-- The grammar of address formulas, as the comment at the top of parser.rs gives it: sums of products
-- of unary minuses of primaries, sums and products to the left, and the cap on nesting.
use nemclass.Common.{ℕ, ◌+◌, ◌≤◌, List, [], ◌∷◌, ◌++◌, arith, length, length-append}
use nemclass.Common.Int.{ℤ}
use nemclass.Address.Syntax.{
  Expr, constant, module_name, add, sub, mul, div, rem, negate, deref, Token, number, identifier,
  plus, minus, star, slash, percent, open_paren, close_paren, open_bracket, close_bracket,
}
use nemclass.Address.Parser.{max_depth}

pub data Level : Type 0 where
  additive multiplicative unary primary : Level

-- `Derives l d ts e`: at nesting depth `d` the tokens `ts` are a phrase of level `l` that means `e`.
pub data Derives : Level → ℕ → List Token → Expr → Type 0 where
  product :
      {d : ℕ} {ts : List Token} {e : Expr} → Derives multiplicative d ts e → Derives additive d ts e
  sum :
      {d : ℕ} {ts us : List Token} {a b : Expr}
      → Derives additive d ts a
      → Derives multiplicative d us b
      → Derives additive d (ts ++ (plus ∷ us)) (add a b)
  difference :
      {d : ℕ} {ts us : List Token} {a b : Expr}
      → Derives additive d ts a
      → Derives multiplicative d us b
      → Derives additive d (ts ++ (minus ∷ us)) (sub a b)
  factor :
      {d : ℕ} {ts : List Token} {e : Expr} → Derives unary d ts e → Derives multiplicative d ts e
  times :
      {d : ℕ} {ts us : List Token} {a b : Expr}
      → Derives multiplicative d ts a
      → Derives unary d us b
      → Derives multiplicative d (ts ++ (star ∷ us)) (mul a b)
  quotient :
      {d : ℕ} {ts us : List Token} {a b : Expr}
      → Derives multiplicative d ts a
      → Derives unary d us b
      → Derives multiplicative d (ts ++ (slash ∷ us)) (div a b)
  remainder :
      {d : ℕ} {ts us : List Token} {a b : Expr}
      → Derives multiplicative d ts a
      → Derives unary d us b
      → Derives multiplicative d (ts ++ (percent ∷ us)) (rem a b)
  opposite :
      {d : ℕ} {ts : List Token} {e : Expr}
      → d ≤ max_depth
      → Derives unary (d + 1) ts e
      → Derives unary d (minus ∷ ts) (negate e)
  atom :
      {d : ℕ} {ts : List Token} {e : Expr}
      → d ≤ max_depth
      → Derives primary d ts e
      → Derives unary d ts e
  literal : {d : ℕ} (n : ℤ) → d ≤ max_depth → Derives primary d (number n ∷ []) (constant n)
  name :
      {d : ℕ} (s : List ℕ) → d ≤ max_depth → Derives primary d (identifier s ∷ []) (module_name s)
  parens :
      {d : ℕ} {ts : List Token} {e : Expr}
      → d ≤ max_depth
      → Derives additive (d + 1) ts e
      → Derives primary d (open_paren ∷ (ts ++ (close_paren ∷ []))) e
  brackets :
      {d : ℕ} {ts : List Token} {e : Expr}
      → d ≤ max_depth
      → Derives additive (d + 1) ts e
      → Derives primary d (open_bracket ∷ (ts ++ (close_bracket ∷ []))) (deref e)

pub length-Derives :
    {l : Level} {d : ℕ} {ts : List Token} {e : Expr} → Derives l d ts e → 1 ≤ length ts
length-Derives (product p) = length-Derives p
length-Derives (sum {ts} {us} p q) = omega (arith, length-append ts (plus ∷ us), length-Derives p)
length-Derives (difference {ts} {us} p q) =
    omega (arith, length-append ts (minus ∷ us), length-Derives p)
length-Derives (factor p) = length-Derives p
length-Derives (times {ts} {us} p q) = omega (arith, length-append ts (star ∷ us), length-Derives p)
length-Derives (quotient {ts} {us} p q) =
    omega (arith, length-append ts (slash ∷ us), length-Derives p)
length-Derives (remainder {ts} {us} p q) =
    omega (arith, length-append ts (percent ∷ us), length-Derives p)
length-Derives (opposite h p) = omega arith
length-Derives (atom h p) = length-Derives p
length-Derives (literal n h) = omega arith
length-Derives (name s h) = omega arith
length-Derives (parens h p) = omega arith
length-Derives (brackets h p) = omega arith
