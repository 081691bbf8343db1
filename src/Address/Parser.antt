-- ===== src/Address/Parser.antt =====
-- crates/nemclass-model/src/address/parser.rs and `parse` of address/mod.rs. The parser's state,
-- `tokens` with `pos`, is the tokens that are left. The recursion and the loops run on fuel.
use nemclass.Common.{ℕ, zero, suc, ◌+◌, ◌*◌, List, [], ◌∷◌, leb, length}
use nemclass.Common.Outcome.{ok, err, diverged, ◌>>=◌, ◌>>◌, guard}
use nemclass.Address.Syntax.{
  Expr, constant, module_name, add, sub, mul, div, rem, negate, deref, Token, number, identifier,
  plus, minus, star, slash, percent, open_paren, close_paren, open_bracket, close_bracket,
  nested_too_deeply, unexpected_end, unexpected_token, expected_token, trailing_tokens, Result,
}
use nemclass.Address.Tokenizer.{tokenize}

abbrev pub max_depth : ℕ
max_depth = 128

abbrev pub Parsed : Type 0
Parsed = Result (Expr × List Token)

-- `expect` is called with the two closing tokens only.
unfoldable pub expect_paren : List Token → Result (List Token)
expect_paren (close_paren ∷ ts) = ok ts
expect_paren _ = err (expected_token close_paren)

unfoldable pub expect_bracket : List Token → Result (List Token)
expect_bracket (close_bracket ∷ ts) = ok ts
expect_bracket _ = err (expected_token close_bracket)

unfoldable mutual
  unfolding expect_paren expect_bracket

  pub parse_additive : ℕ → ℕ → List Token → Parsed
  parse_additive zero depth ts = diverged
  parse_additive (suc f) depth ts = do
    (lhs, ts₁) ← parse_multiplicative f depth ts
    additive_loop f depth lhs ts₁

  pub additive_loop : ℕ → ℕ → Expr → List Token → Parsed
  additive_loop zero depth lhs ts = diverged
  additive_loop (suc f) depth lhs (plus ∷ ts) = do
    (rhs, ts₁) ← parse_multiplicative f depth ts
    additive_loop f depth (add lhs rhs) ts₁
  additive_loop (suc f) depth lhs (minus ∷ ts) = do
    (rhs, ts₁) ← parse_multiplicative f depth ts
    additive_loop f depth (sub lhs rhs) ts₁
  additive_loop (suc f) depth lhs ts = ok (lhs, ts)

  pub parse_multiplicative : ℕ → ℕ → List Token → Parsed
  parse_multiplicative zero depth ts = diverged
  parse_multiplicative (suc f) depth ts = do
    (lhs, ts₁) ← parse_unary f depth ts
    multiplicative_loop f depth lhs ts₁

  pub multiplicative_loop : ℕ → ℕ → Expr → List Token → Parsed
  multiplicative_loop zero depth lhs ts = diverged
  multiplicative_loop (suc f) depth lhs (star ∷ ts) = do
    (rhs, ts₁) ← parse_unary f depth ts
    multiplicative_loop f depth (mul lhs rhs) ts₁
  multiplicative_loop (suc f) depth lhs (slash ∷ ts) = do
    (rhs, ts₁) ← parse_unary f depth ts
    multiplicative_loop f depth (div lhs rhs) ts₁
  multiplicative_loop (suc f) depth lhs (percent ∷ ts) = do
    (rhs, ts₁) ← parse_unary f depth ts
    multiplicative_loop f depth (rem lhs rhs) ts₁
  multiplicative_loop (suc f) depth lhs ts = ok (lhs, ts)

  pub parse_unary : ℕ → ℕ → List Token → Parsed
  parse_unary zero depth ts = diverged
  parse_unary (suc f) depth (minus ∷ ts) = do
    guard (leb depth max_depth) nested_too_deeply
    (inner, ts₁) ← parse_unary f (depth + 1) ts
    ok (negate inner, ts₁)
  parse_unary (suc f) depth ts = do
    guard (leb depth max_depth) nested_too_deeply
    parse_primary f depth ts

  pub parse_primary : ℕ → ℕ → List Token → Parsed
  parse_primary zero depth ts = diverged
  parse_primary (suc f) depth (number n ∷ ts) = do
    guard (leb depth max_depth) nested_too_deeply
    ok (constant n, ts)
  parse_primary (suc f) depth (identifier s ∷ ts) = do
    guard (leb depth max_depth) nested_too_deeply
    ok (module_name s, ts)
  parse_primary (suc f) depth (open_paren ∷ ts) = do
    guard (leb depth max_depth) nested_too_deeply
    (inner, ts₁) ← parse_additive f (depth + 1) ts
    ts₂ ← expect_paren ts₁
    ok (inner, ts₂)
  parse_primary (suc f) depth (open_bracket ∷ ts) = do
    guard (leb depth max_depth) nested_too_deeply
    (inner, ts₁) ← parse_additive f (depth + 1) ts
    ts₂ ← expect_bracket ts₁
    ok (deref inner, ts₂)
  parse_primary (suc f) depth [] = do
    guard (leb depth max_depth) nested_too_deeply
    err unexpected_end
  parse_primary (suc f) depth (t ∷ ts) = do
    guard (leb depth max_depth) nested_too_deeply
    err (unexpected_token t)

-- Six calls for each token are enough.
abbrev pub fuel_for : List Token → ℕ
fuel_for ts = 6 * length ts + 6

unfoldable pub parse_expr : List Token → Parsed
unfolding parse_additive
parse_expr ts = parse_additive (fuel_for ts) 0 ts

unfoldable pub finish : Expr → List Token → Result Expr
finish e [] = ok e
finish e (t ∷ ts) = err trailing_tokens

unfoldable pub parse_tokens : List Token → Result Expr
unfolding parse_expr finish
parse_tokens ts = do (e, rest) ← parse_expr ts; finish e rest

-- `parse`
unfoldable pub parse : List ℕ → Result Expr
unfolding tokenize parse_tokens
parse input = do ts ← tokenize input; parse_tokens ts
