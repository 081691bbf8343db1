-- ===== src/Address/RoundTrip.antt =====
-- Formulas that are written down are read back.
use nemclass.Common.{ℕ, ◌+◌, ◌≤◌, ◌≡◌, List, [], ◌∷◌, ◌++◌, arith, All, All-append}
use nemclass.Common.Outcome.{ok}
use nemclass.Address.Syntax.{
  Expr, constant, module_name, add, sub, mul, div, rem, negate, deref, Token, plus, minus, star,
  slash, percent, close_paren, close_bracket,
}
use nemclass.Address.Tokenizer.{}
use nemclass.Address.Parser.{max_depth, parse}
use nemclass.Address.Grammar.{
  additive, multiplicative, unary, primary, Derives, product, sum, difference, factor, times,
  quotient, remainder, opposite, atom, literal, name, parens, brackets,
}
use nemclass.Address.Complete.{parse_tokens-eq-ok_iff}
use nemclass.Address.Written.{write_tokens, IsWritable, phrase, nesting, CanWrite, in_parens}
use nemclass.Address.ReadBack.{tokenize-write_tokens}

in_parens-IsWritable : (ts : List Token) → All IsWritable ts → All IsWritable (in_parens ts)
in_parens-IsWritable ts h = (tt, All-append IsWritable ts (close_paren ∷ []) h (tt, tt))

between :
    (ts us : List Token) (op : Token)
    → IsWritable op
    → All IsWritable ts
    → All IsWritable us
    → All IsWritable (in_parens ts ++ (op ∷ in_parens us))
between ts us op h p q =
    All-append IsWritable (in_parens ts) (op ∷ in_parens us) (in_parens-IsWritable ts p)
      (h, in_parens-IsWritable us q)

phrase-IsWritable : (e : Expr) → CanWrite e → All IsWritable (phrase e)
unfolding phrase
phrase-IsWritable (constant n) h = (h, tt)
phrase-IsWritable (module_name s) h = (h, tt)
phrase-IsWritable (add a b) h =
    between (phrase a) (phrase b) plus tt (phrase-IsWritable a h.0) (phrase-IsWritable b h.1)
phrase-IsWritable (sub a b) h =
    between (phrase a) (phrase b) minus tt (phrase-IsWritable a h.0) (phrase-IsWritable b h.1)
phrase-IsWritable (mul a b) h =
    between (phrase a) (phrase b) star tt (phrase-IsWritable a h.0) (phrase-IsWritable b h.1)
phrase-IsWritable (div a b) h =
    between (phrase a) (phrase b) slash tt (phrase-IsWritable a h.0) (phrase-IsWritable b h.1)
phrase-IsWritable (rem a b) h =
    between (phrase a) (phrase b) percent tt (phrase-IsWritable a h.0) (phrase-IsWritable b h.1)
phrase-IsWritable (negate a) h = (tt, in_parens-IsWritable (phrase a) (phrase-IsWritable a h))
phrase-IsWritable (deref a) h =
    (tt, All-append IsWritable (phrase a) (close_bracket ∷ []) (phrase-IsWritable a h) (tt, tt))

module _ (d : ℕ) {ts : List Token} {e : Expr} (small : d ≤ max_depth) where
  as_factor : Derives additive (d + 1) ts e → Derives unary d (in_parens ts) e
  as_factor p = atom small (parens small p)

  as_product : Derives additive (d + 1) ts e → Derives multiplicative d (in_parens ts) e
  as_product p = factor (as_factor p)

  as_sum : Derives primary d ts e → Derives additive d ts e
  as_sum p = product (factor (atom small p))

phrase-Derives : (e : Expr) (d : ℕ) → d + nesting e ≤ max_depth → Derives additive d (phrase e) e
unfolding phrase nesting
phrase-Derives (constant n) d h = as_sum d (omega arith) (literal n (omega arith))
phrase-Derives (module_name s) d h = as_sum d (omega arith) (name s (omega arith))
phrase-Derives (add a b) d h =
    sum (product (as_product d (omega arith) (phrase-Derives a (d + 1) (omega arith))))
      (as_product d (omega arith) (phrase-Derives b (d + 1) (omega arith)))
phrase-Derives (sub a b) d h =
    difference (product (as_product d (omega arith) (phrase-Derives a (d + 1) (omega arith))))
      (as_product d (omega arith) (phrase-Derives b (d + 1) (omega arith)))
phrase-Derives (mul a b) d h = product (
    times (as_product d (omega arith) (phrase-Derives a (d + 1) (omega arith)))
      (as_factor d (omega arith) (phrase-Derives b (d + 1) (omega arith))))
phrase-Derives (div a b) d h = product (
    quotient (as_product d (omega arith) (phrase-Derives a (d + 1) (omega arith)))
      (as_factor d (omega arith) (phrase-Derives b (d + 1) (omega arith))))
phrase-Derives (rem a b) d h = product (
    remainder (as_product d (omega arith) (phrase-Derives a (d + 1) (omega arith)))
      (as_factor d (omega arith) (phrase-Derives b (d + 1) (omega arith))))
phrase-Derives (negate a) d h = product (
    factor (
      opposite (omega arith)
        (as_factor (d + 1) (omega arith) (phrase-Derives a (d + 1 + 1) (omega arith)))))
phrase-Derives (deref a) d h =
    as_sum d (omega arith) (brackets (omega arith) (phrase-Derives a (d + 1) (omega arith)))

-- A formula that is written down with every operand in parentheses is parsed back from its text,
-- where its constants are not negative and fit an i64, its names hold no `>`, and it nests at most
-- 128 deep.
pub parse-written :
    (e : Expr) → CanWrite e → nesting e ≤ max_depth → parse (write_tokens (phrase e)) ≡ ok e
unfolding parse
parse-written e h n =
    rw (tokenize-write_tokens (phrase e) (phrase-IsWritable e h))
      ((parse_tokens-eq-ok_iff (phrase e) e).1 (phrase-Derives e 0 (omega arith)))
