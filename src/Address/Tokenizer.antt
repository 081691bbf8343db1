-- ===== src/Address/Tokenizer.antt =====
-- crates/nemclass-model/src/address/tokenizer.rs. The cursor `pos` is what is left of `src`.
use nemclass.Common.{
  ℕ, zero, suc, ◌+◌, ◌-◌, ◌*◌, ◌^◌, Bool, not, ◌&&◌, ◌||◌, Option, none, some, List, [], ◌∷◌, ltb,
  leb, ◌==◌, if◌then◌else◌, length,
}
use nemclass.Common.Outcome.{ok, err, diverged, ◌>>=◌}
use nemclass.Common.Int.{ℤ, pos}
use nemclass.Address.Syntax.{
  Token, number, identifier, plus, minus, star, slash, percent, open_paren, close_paren,
  open_bracket, close_bracket, ModelError, invalid_hex, invalid_decimal, unclosed_angle,
  unclosed_quote, unexpected_character, Result,
}

abbrev pub i64_limit : ℕ
i64_limit = 2 ^ 63

abbrev pub is_space : ℕ → Bool
is_space c = c == 32 || c == 9 || c == 13 || c == 10

abbrev pub is_digit : ℕ → Bool
is_digit c = leb 48 c && leb c 57

abbrev pub is_hex_digit : ℕ → Bool
is_hex_digit c = is_digit c || leb 97 c && leb c 102 || leb 65 c && leb c 70

-- The value of a digit that passed the test above.
abbrev pub digit_value : ℕ → ℕ
digit_value c = if leb 97 c then c - 87 else if leb 65 c then c - 55 else c - 48

-- `while matches!(self.peek(), Some(p)) { self.pos += 1; }`: what was passed, and the rest.
unfoldable pub scan_while : (ℕ → Bool) → List ℕ → List ℕ × List ℕ
scan_while p [] = ([], [])
scan_while p (c ∷ cs) =
    let more = scan_while p cs in if p c then (c ∷ more.0, more.1) else ([], c ∷ cs)

unfoldable pub skip_whitespace : List ℕ → List ℕ
unfolding scan_while
skip_whitespace src = (scan_while is_space src).1

abbrev pub digits_value : ℕ → ℕ → List ℕ → ℕ
digits_value radix acc [] = acc
digits_value radix acc (c ∷ cs) = digits_value radix (acc * radix + digit_value c) cs

-- `i64::from_str_radix` on a run of digits: empty text and overflow are errors.
unfoldable pub parse_i64 : ℕ → List ℕ → Option ℤ
parse_i64 radix [] = none
parse_i64 radix (c ∷ cs) =
    let v = digits_value radix 0 (c ∷ cs) in if ltb v i64_limit then some (pos v) else none

-- The text behind a `0x` or `0X` prefix, where there is one.
unfoldable pub hex_prefix : List ℕ → Option (List ℕ)
hex_prefix [] = none
hex_prefix (c ∷ []) = none
hex_prefix (c ∷ d ∷ rest) = if c == b'0' && (d == b'x' || d == b'X') then some rest else none

unfoldable pub number_token : ModelError → Option ℤ → List ℕ → Result (Token × List ℕ)
number_token e none rest = err e
number_token e (some v) rest = ok (number v, rest)

unfoldable pub read_number : List ℕ → Result (Token × List ℕ)
unfolding scan_while parse_i64 hex_prefix number_token
read_number src = elim (hex_prefix src) [
  | some body ↦
      let run = scan_while is_hex_digit body in number_token invalid_hex (parse_i64 16 run.0) run.1
  | none ↦
      let run = scan_while is_digit src in number_token invalid_decimal (parse_i64 10 run.0) run.1
]

-- `<...>` and `"..."`: the text up to the closing byte, which is skipped.
unfoldable pub close_identifier : ModelError → List ℕ × List ℕ → Result (Token × List ℕ)
close_identifier e (name, []) = err e
close_identifier e (name, c ∷ rest) = ok (identifier name, rest)

unfoldable pub read_angle_identifier : List ℕ → Result (Token × List ℕ)
unfolding scan_while close_identifier
read_angle_identifier src = close_identifier unclosed_angle (scan_while (λ c. not (c == b'>')) src)

unfoldable pub read_quoted_identifier : List ℕ → Result (Token × List ℕ)
unfolding scan_while close_identifier
read_quoted_identifier src = close_identifier unclosed_quote (scan_while (λ c. not (c == 34)) src)

-- The match on the next byte `ch`, with `rest` behind it.
unfoldable pub read_token : ℕ → List ℕ → Result (Token × List ℕ)
unfolding read_angle_identifier read_quoted_identifier read_number
read_token ch rest =
    if ch == b'+'
    then ok (plus, rest)
    else if ch == b'-'
    then ok (minus, rest)
    else if ch == b'*'
    then ok (star, rest)
    else if ch == b'/'
    then ok (slash, rest)
    else if ch == b'%'
    then ok (percent, rest)
    else if ch == b'('
    then ok (open_paren, rest)
    else if ch == b')'
    then ok (close_paren, rest)
    else if ch == b'['
    then ok (open_bracket, rest)
    else if ch == b']'
    then ok (close_bracket, rest)
    else if ch == b'<'
    then read_angle_identifier rest
    else if ch == 34
    then read_quoted_identifier rest
    else if is_digit ch
    then read_number (ch ∷ rest)
    else err (unexpected_character ch)

-- The loop, on fuel: each round takes a byte at least.
unfoldable pub tokenize_loop : ℕ → List ℕ → Result (List Token)
unfolding skip_whitespace read_token
tokenize_loop zero src = diverged
tokenize_loop (suc fuel) src = elim (skip_whitespace src) [
  | [] ↦ ok []
  | ch ∷ rest ↦ do
    (tok, rest') ← read_token ch rest
    toks ← tokenize_loop fuel rest'
    ok (tok ∷ toks)
]

unfoldable pub tokenize : List ℕ → Result (List Token)
unfolding tokenize_loop
tokenize src = tokenize_loop (suc (length src)) src
