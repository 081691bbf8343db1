-- ===== src/Address/Written.antt =====
-- A plain way to write a formula down, for the round trip through the tokenizer and the parser.
-- The program has no printer: the text is one that a user may type.
use nemclass.Common.{ℕ, suc, ◌+◌, ◌<◌, max, ◌≢◌, List, [], ◌∷◌, ◌++◌, All}
use nemclass.Common.Int.{pos, negsuc}
use nemclass.Address.Syntax.{
  Expr, constant, module_name, add, sub, mul, div, rem, negate, deref, Token, number, identifier,
  plus, minus, star, slash, percent, open_paren, close_paren, open_bracket, close_bracket,
}
use nemclass.Common.Text.{decimal}
use nemclass.Address.Tokenizer.{i64_limit}

-- Each token with a space behind it; a name stands in `<` and `>`.
unfoldable pub write_token : Token → List ℕ
unfolding decimal
write_token (number (pos n)) = decimal (suc n) n
write_token (number (negsuc n)) = []
write_token (identifier s) = b'<' ∷ (s ++ (b'>' ∷ []))
write_token plus = b'+' ∷ []
write_token minus = b'-' ∷ []
write_token star = b'*' ∷ []
write_token slash = b'/' ∷ []
write_token percent = b'%' ∷ []
write_token open_paren = b'(' ∷ []
write_token close_paren = b')' ∷ []
write_token open_bracket = b'[' ∷ []
write_token close_bracket = b']' ∷ []

unfoldable pub write_tokens : List Token → List ℕ
unfolding write_token
write_tokens [] = []
write_tokens (t ∷ ts) = write_token t ++ (32 ∷ write_tokens ts)

-- A number that fits an i64, or a name with no `>` in it.
abbrev pub IsWritable : Token → Type 0
IsWritable (number (pos n)) = n < i64_limit
IsWritable (number (negsuc n)) = ⊥
IsWritable (identifier s) = All (λ c. c ≢ b'>') s
IsWritable _ = Unit {0}

abbrev pub in_parens : List Token → List Token
in_parens ts = open_paren ∷ (ts ++ (close_paren ∷ []))

-- Every operand stands in parentheses.
unfoldable pub phrase : Expr → List Token
phrase (constant n) = number n ∷ []
phrase (module_name s) = identifier s ∷ []
phrase (add a b) = in_parens (phrase a) ++ (plus ∷ in_parens (phrase b))
phrase (sub a b) = in_parens (phrase a) ++ (minus ∷ in_parens (phrase b))
phrase (mul a b) = in_parens (phrase a) ++ (star ∷ in_parens (phrase b))
phrase (div a b) = in_parens (phrase a) ++ (slash ∷ in_parens (phrase b))
phrase (rem a b) = in_parens (phrase a) ++ (percent ∷ in_parens (phrase b))
phrase (negate a) = minus ∷ in_parens (phrase a)
phrase (deref a) = open_bracket ∷ (phrase a ++ (close_bracket ∷ []))

-- The depth at which the parser meets the innermost part of a phrase.
unfoldable pub nesting : Expr → ℕ
nesting (constant n) = 0
nesting (module_name s) = 0
nesting (add a b) = 1 + max (nesting a) (nesting b)
nesting (sub a b) = 1 + max (nesting a) (nesting b)
nesting (mul a b) = 1 + max (nesting a) (nesting b)
nesting (div a b) = 1 + max (nesting a) (nesting b)
nesting (rem a b) = 1 + max (nesting a) (nesting b)
nesting (negate a) = 2 + nesting a
nesting (deref a) = 1 + nesting a

-- Constants are not negative and names hold no `>`.
abbrev pub CanWrite : Expr → Type 0
CanWrite (constant n) = IsWritable (number n)
CanWrite (module_name s) = IsWritable (identifier s)
CanWrite (add a b) = CanWrite a × CanWrite b
CanWrite (sub a b) = CanWrite a × CanWrite b
CanWrite (mul a b) = CanWrite a × CanWrite b
CanWrite (div a b) = CanWrite a × CanWrite b
CanWrite (rem a b) = CanWrite a × CanWrite b
CanWrite (negate a) = CanWrite a
CanWrite (deref a) = CanWrite a
