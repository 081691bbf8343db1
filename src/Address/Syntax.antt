-- ===== src/Address/Syntax.antt =====
-- crates/nemclass-model/src/address/ast.rs, the tokens of tokenizer.rs and the errors of
-- crates/nemclass-model/src/error.rs that address formulas raise. Text is its list of bytes. An
-- error's message is replaced by a constructor for each place that raises one.
use nemclass.Common.{ℕ, List}
use nemclass.Common.Outcome.{Outcome}
use nemclass.Common.Int.{ℤ}

-- A constant is an i64.
pub data Expr : Type 0 where
  constant : ℤ → Expr
  module_name : List ℕ → Expr
  add : Expr → Expr → Expr
  sub : Expr → Expr → Expr
  mul : Expr → Expr → Expr
  div : Expr → Expr → Expr
  rem : Expr → Expr → Expr
  negate : Expr → Expr
  deref : Expr → Expr

pub data Token : Type 0 where
  number : ℤ → Token
  identifier : List ℕ → Token
  plus minus star slash percent : Token
  open_paren close_paren open_bracket close_bracket : Token

pub data ModelError : Type 0 where
  invalid_hex invalid_decimal unclosed_angle unclosed_quote : ModelError
  unexpected_character : ℕ → ModelError
  nested_too_deeply unexpected_end : ModelError
  unexpected_token : Token → ModelError
  expected_token : Token → ModelError
  trailing_tokens : ModelError
  module_not_found : List ℕ → ModelError
  division_by_zero modulo_by_zero : ModelError
  -- what the target's reader reports
  read_failed : ℕ → ModelError

abbrev pub Result : Type 0 → Type 0
Result A = Outcome ModelError A
