-- ===== src/Address/Complete.antt =====
-- The parser accepts every formula of the grammar.
use nemclass.Common.{
  ℕ, zero, suc, ◌+◌, ◌≤◌, ◌≡◌, refl, sym, ap, ◌∙◌, ◌↔◌, List, [], ◌∷◌, ◌++◌, append_assoc,
  append-nil, arith,
}
use nemclass.Common.Outcome.{ok, Ensures-ok}
use native.Mathlib.Nat.{add_comm}
use nemclass.Address.Syntax.{
  Expr, negate, deref, Token, plus, minus, star, slash, percent, open_paren, close_paren,
  open_bracket, close_bracket,
}
use nemclass.Address.Parser.{
  max_depth, expect_paren, expect_bracket, parse_additive, parse_multiplicative, parse_unary,
  parse_primary, parse_tokens, fuel_for,
}
use nemclass.Address.Fuel.{
  parse_additive_more, parse_additive_settled, additive_loop_more, parse_multiplicative_more,
  multiplicative_loop_more, parse_unary_more,
}
use nemclass.Address.Sound.{parse_tokens-Derives, parse_additive-ne-diverged}
use nemclass.Address.Grammar.{
  Level, additive, multiplicative, unary, primary, Derives, product, sum, difference, factor, times,
  quotient, remainder, opposite, atom, literal, name, parens, brackets,
}
use nemclass.Address.Rounds.{
  within, Accepts, read_product, read_sum, sum_round, difference_round, times_round, quotient_round,
  remainder_round,
}

unary_of_primary :
    (f d : ℕ) (ts : List Token) {r : Expr × List Token}
    → d ≤ max_depth
    → parse_primary f d ts ≡ ok r
    → parse_unary (suc f) d ts ≡ ok r
unfolding parse_unary parse_primary
unary_of_primary zero d ts h p = cc
unary_of_primary (suc f) d (minus ∷ ts) h p = ground arith
unary_of_primary (suc f) d [] h p = rw (within d _ _ h) p
unary_of_primary (suc f) d (t ∷ ts) h p = rw (within d _ _ h) p

product_start :
    (d : ℕ) (ts : List Token) (e : Expr) → Accepts multiplicative d ts e → Accepts additive d ts e
unfolding parse_additive
product_start d ts e a rest f r h q =
    let (g, p) = read_product d ts e rest a h in
    (
      suc (f + g),
      rw (parse_multiplicative_more f g d (ts ++ rest) p, add_comm f g)
          (additive_loop_more g f d e rest q),
    )

factor_start :
    (d : ℕ) (ts : List Token) (e : Expr) → Accepts unary d ts e → Accepts multiplicative d ts e
unfolding parse_multiplicative
factor_start d ts e a rest f r q =
    let (g, p) = a rest in
    (
      suc (f + g),
      rw (parse_unary_more f g d (ts ++ rest) p, add_comm f g)
          (multiplicative_loop_more g f d e rest q),
    )

opposite_Accepts :
    (d : ℕ) (ts : List Token) (e : Expr)
    → d ≤ max_depth
    → Accepts unary (d + 1) ts e
    → Accepts unary d (minus ∷ ts) (negate e)
unfolding parse_unary
opposite_Accepts d ts e h a rest = let (g, p) = a rest in (suc g, rw (within d _ _ h, p))

-- A primary never begins with a minus, so `parse_unary` goes on to it.
atom_Accepts :
    (d : ℕ) (ts : List Token) (e : Expr)
    → d ≤ max_depth
    → Accepts primary d ts e
    → Accepts unary d ts e
atom_Accepts d ts e h a rest = let (g, p) = a rest in (suc g, unary_of_primary g d (ts ++ rest) h p)

parens_Accepts :
    (d : ℕ) (ts : List Token) (e : Expr)
    → d ≤ max_depth
    → Accepts additive (d + 1) ts e
    → Accepts primary d (open_paren ∷ (ts ++ (close_paren ∷ []))) e
unfolding parse_primary expect_paren
parens_Accepts d ts e h a rest =
    let (g, p) = read_sum (d + 1) ts e (close_paren ∷ rest) a refl in
    (suc g, rw (within d _ _ h, append_assoc, p))

brackets_Accepts :
    (d : ℕ) (ts : List Token) (e : Expr)
    → d ≤ max_depth
    → Accepts additive (d + 1) ts e
    → Accepts primary d (open_bracket ∷ (ts ++ (close_bracket ∷ []))) (deref e)
unfolding parse_primary expect_bracket
brackets_Accepts d ts e h a rest =
    let (g, p) = read_sum (d + 1) ts e (close_bracket ∷ rest) a refl in
    (suc g, rw (within d _ _ h, append_assoc, p))

-- By induction on the derivation.
Derives-Accepts :
    {l : Level} {d : ℕ} {ts : List Token} {e : Expr} → Derives l d ts e → Accepts l d ts e
unfolding parse_unary parse_primary
Derives-Accepts (product {d} {ts} {e} p) = product_start d ts e (Derives-Accepts p)
Derives-Accepts (sum {d} {ts} {us} {a} {b} p q) = λ rest f r h k. rw append_assoc (
    let (g, m) = sum_round d us b rest f a (read_product d us b rest (Derives-Accepts q) h) k in
    Derives-Accepts p (plus ∷ (us ++ rest)) g r refl m)
Derives-Accepts (difference {d} {ts} {us} {a} {b} p q) = λ rest f r h k. rw append_assoc (
    let (g, m) =
      difference_round d us b rest f a (read_product d us b rest (Derives-Accepts q) h) k in
    Derives-Accepts p (minus ∷ (us ++ rest)) g r refl m)
Derives-Accepts (factor {d} {ts} {e} p) = factor_start d ts e (Derives-Accepts p)
Derives-Accepts (times {d} {ts} {us} {a} {b} p q) = λ rest f r k. rw append_assoc (
    let (g, m) = times_round d us b rest f a (Derives-Accepts q rest) k in
    Derives-Accepts p (star ∷ (us ++ rest)) g r m)
Derives-Accepts (quotient {d} {ts} {us} {a} {b} p q) = λ rest f r k. rw append_assoc (
    let (g, m) = quotient_round d us b rest f a (Derives-Accepts q rest) k in
    Derives-Accepts p (slash ∷ (us ++ rest)) g r m)
Derives-Accepts (remainder {d} {ts} {us} {a} {b} p q) = λ rest f r k. rw append_assoc (
    let (g, m) = remainder_round d us b rest f a (Derives-Accepts q rest) k in
    Derives-Accepts p (percent ∷ (us ++ rest)) g r m)
Derives-Accepts (opposite {d} {ts} {e} h p) = opposite_Accepts d ts e h (Derives-Accepts p)
Derives-Accepts (atom {d} {ts} {e} h p) = atom_Accepts d ts e h (Derives-Accepts p)
Derives-Accepts (literal {d} n h) = λ rest. (1, rw (within d _ _ h))
Derives-Accepts (name {d} s h) = λ rest. (1, rw (within d _ _ h))
Derives-Accepts (parens {d} {ts} {e} h p) = parens_Accepts d ts e h (Derives-Accepts p)
Derives-Accepts (brackets {d} {ts} {e} h p) = brackets_Accepts d ts e h (Derives-Accepts p)

-- The parser accepts exactly the formulas of the grammar, and returns what the grammar says that
-- they mean: precedence, association to the left and the cap on nesting included.
pub parse_tokens-eq-ok_iff :
    (ts : List Token) (e : Expr) → (parse_tokens ts ≡ ok e) ↔ Derives additive 0 ts e
unfolding parse_tokens
parse_tokens-eq-ok_iff ts e = (
  Ensures-ok (parse_tokens-Derives ts),
  λ h.
      let (g, p) = read_sum 0 ts e [] (Derives-Accepts h) refl in
      let whole : parse_additive g 0 ts ≡ ok (e, []) = rw append-nil at p in
      let more = parse_additive_more (fuel_for ts) g 0 ts whole in
      let settled = parse_additive_settled g (fuel_for ts) 0 ts (parse_additive-ne-diverged ts) in
      let found : parse_additive (fuel_for ts) 0 ts ≡ ok (e, []) =
        sym settled ∙ ap (λ n. parse_additive n 0 ts) (add_comm g (fuel_for ts)) ∙ more in
      rw found,
)
