-- ===== src/Examples/Formulas.antt =====
-- Address formulas: tests and instances.
use nemclass.Common.{ℕ, ◌%◌, ◌≡◌, refl, ◌≢◌, ◌↔◌, some, List, [], ◌∷◌, arith}
use nemclass.Common.Outcome.{ok, diverged}
use nemclass.Common.Int.{pos}
use nemclass.Common.Text.{codes}
use nemclass.Address.Syntax.{
  Expr, constant, module_name, add, mul, negate, deref, Token, number, identifier, plus,
  open_bracket, close_bracket, Result,
}
use nemclass.Address.Tokenizer.{tokenize}
use nemclass.Address.Parser.{parse, parse_tokens}
use nemclass.Address.Interpreter.{evaluate, usize_mod}
use nemclass.Address.Grammar.{Derives, additive}
use nemclass.Address.Complete.{parse_tokens-eq-ok_iff}
use nemclass.Address.Written.{write_tokens, phrase, nesting}
use nemclass.Address.RoundTrip.{parse-written}
use nemclass.Address.Height.{height, sum_of_zeros, height-sum_of_zeros}
use nemclass.Address.Totality.{parse-ne-diverged}
use nemclass.Address.Value.{evaluate-Represents, integer, Represents}

-- `[<a> + 16]`
abbrev pointer : Expr
pointer = deref (add (module_name (97 ∷ [])) (constant (pos 16)))

abbrev pointer_tokens : List Token
pointer_tokens = open_bracket ∷ identifier (97 ∷ []) ∷ plus ∷ number (pos 16) ∷ close_bracket ∷ []

-- The value of each cell is its address.
abbrev echo : ℕ → Result ℕ
echo a = ok (a % usize_mod)

abbrev at_4096 : List ℕ → ℕ
at_4096 s = 4096

abbrev letter : ℕ
letter = 97

a_is_no_angle : letter ≢ b'>'
a_is_no_angle = λ e. omega arith

tokenize_test : tokenize (codes "[<a> + 0x10]") ≡ ok pointer_tokens
unfolding tokenize
tokenize_test = refl

parse-written_example : parse (write_tokens (phrase pointer)) ≡ ok pointer
unfolding nesting
parse-written_example = parse-written pointer ((a_is_no_angle, tt), omega arith) (omega arith)

parse_tokens-eq-ok_iff_example :
    (parse_tokens pointer_tokens ≡ ok pointer) ↔ Derives additive 0 pointer_tokens pointer
parse_tokens-eq-ok_iff_example = parse_tokens-eq-ok_iff pointer_tokens pointer

parse-ne-diverged_example : parse (codes "[<a> + 0x10]") ≢ diverged
parse-ne-diverged_example = parse-ne-diverged (codes "[<a> + 0x10]")

-- `<a> * -2`
abbrev twice_below : Expr
twice_below = mul (module_name (97 ∷ [])) (negate (constant (pos 2)))

evaluate-Represents_example :
    (v : ℕ) × (evaluate (λ s. some (at_4096 s)) echo twice_below ≡ ok v)
    × Represents v (integer at_4096 twice_below)
evaluate-Represents_example =
    evaluate-Represents at_4096 (λ s. omega arith) echo twice_below (tt, (omega arith, omega arith))

height-sum_of_zeros_example :
    (e : Expr) × (parse_tokens (sum_of_zeros 1000) ≡ ok e) × (height e ≡ 1001)
height-sum_of_zeros_example = height-sum_of_zeros 1000
