-- ===== src/Address/ReadBack.antt =====
-- Tokens that are written down are read back.
use mathlib.Core.Path.{subst}
use nemclass.Common.{
  ℕ, zero, suc, ◌+◌, ◌*◌, ◌/◌, ◌%◌, ◌<◌, ◌≡◌, refl, ◌∙◌, ◌≢◌, inl, inr, Bool, true, false, not,
  none, some, List, [], ◌∷◌, ◌++◌, append_assoc, arith, ltb, ◌==◌, ltb→lt, lt→ltb, Bool-cases,
  length, All, length-append, All-append,
}
use nemclass.Common.Outcome.{ok, ◌>>=◌}
use nemclass.Common.Int.{pos, negsuc}
use nemclass.Address.Syntax.{
  Token, number, identifier, plus, minus, star, slash, percent, open_paren, close_paren,
  open_bracket, close_bracket,
}
use nemclass.Address.Tokenizer.{
  i64_limit, is_space, is_digit, digit_value, digits_value, scan_while, skip_whitespace, parse_i64,
  hex_prefix, read_number, read_token, tokenize_loop, tokenize,
}
use nemclass.Address.Grammar.{}
use nemclass.Common.Text.{decimal}
use nemclass.Address.Written.{write_token, write_tokens, IsWritable}

digits_value-append :
    (acc : ℕ) (xs : List ℕ) (c : ℕ)
    → digits_value 10 acc (xs ++ (c ∷ [])) ≡ digits_value 10 acc xs * 10 + digit_value c
digits_value-append acc [] c = refl
digits_value-append acc (x ∷ xs) c = digits_value-append (acc * 10 + digit_value x) xs c

digit_value-digit : (n : ℕ) → n < 10 → digit_value (48 + n) ≡ n
digit_value-digit n h = ground arith

decimal_value : (f n : ℕ) → n < f → digits_value 10 0 (decimal f n) ≡ n
unfolding decimal
decimal_value zero n h = elim h [ ]
decimal_value (suc f) n h = elim (Bool-cases (ltb n 10)) [
  | inl small ↦ rw small (omega (arith, digit_value-digit n (ltb→lt n 10 small)))
  | inr large ↦ rw large (
      omega (
        arith,
        digits_value-append 0 (decimal f (n / 10)) (48 + n % 10),
        digit_value-digit (n % 10) (omega arith),
        decimal_value f (n / 10) (ground arith),
      ))
]

decimal-digits : (f n : ℕ) → All (λ c. is_digit c ≡ true) (decimal f n)
unfolding decimal
decimal-digits zero n = tt
decimal-digits (suc f) n = elim (Bool-cases (ltb n 10)) [
  | inl small ↦ rw small (ground arith, tt)
  | inr large ↦ rw large (
      All-append (λ c. is_digit c ≡ true) (decimal f (n / 10)) ((48 + n % 10) ∷ [])
        (decimal-digits f (n / 10)) (digit_test (n % 10) (omega arith), tt))
]
  where
    digit_test : (m : ℕ) → m < 10 → is_digit (48 + m) ≡ true
    digit_test m h = ground arith

decimal-cons : (f n : ℕ) → n < f → (c : ℕ) × (cs : List ℕ) × (decimal f n ≡ c ∷ cs)
unfolding decimal
decimal-cons zero n h = elim h [ ]
decimal-cons (suc f) n h = elim (Bool-cases (ltb n 10)) [
  | inl small ↦ (48 + n, [], rw small)
  | inr large ↦
      let (c, cs, e) = decimal-cons f (n / 10) (ground arith) in
      (c, cs ++ ((48 + n % 10) ∷ []), rw (large, e))
]

scan_while-append :
    (p : ℕ → Bool) (xs rest : List ℕ) (c : ℕ)
    → All (λ x. p x ≡ true) xs
    → p c ≡ false
    → scan_while p (xs ++ (c ∷ rest)) ≡ (xs, c ∷ rest)
unfolding scan_while
scan_while-append p [] rest c h e = rw e
scan_while-append p (x ∷ xs) rest c h e = rw (h.0, scan_while-append p xs rest c h.1 e)

hex_prefix-digits :
    (c : ℕ) (cs rest : List ℕ)
    → All (λ x. is_digit x ≡ true) (c ∷ cs)
    → hex_prefix (c ∷ (cs ++ (32 ∷ rest))) ≡ none
unfolding hex_prefix
hex_prefix-digits c [] rest h = ground arith
hex_prefix-digits c (d ∷ cs) rest h = ground arith

parse_i64-decimal :
    (n c : ℕ) (cs : List ℕ)
    → n < i64_limit
    → decimal (suc n) n ≡ c ∷ cs
    → parse_i64 10 (c ∷ cs) ≡ some (pos n)
unfolding parse_i64
parse_i64-decimal n c cs h e =
    let v : digits_value 10 0 (c ∷ cs) ≡ n =
      subst (λ l. digits_value 10 0 l ≡ n) e (decimal_value (suc n) n (omega arith)) in
    rw (v, lt→ltb n i64_limit h)

-- The decimal text of an i64 is read back as its number, up to the space behind it.
read_number-decimal :
    (n c : ℕ) (cs rest : List ℕ)
    → n < i64_limit
    → decimal (suc n) n ≡ c ∷ cs
    → read_number (c ∷ (cs ++ (32 ∷ rest))) ≡ ok (number (pos n), 32 ∷ rest)
unfolding read_number
read_number-decimal n c cs rest h e =
    let digits : All (λ x. is_digit x ≡ true) (c ∷ cs) =
      subst (All (λ x. is_digit x ≡ true)) e (decimal-digits (suc n) n) in
    rw (hex_prefix-digits c cs rest digits, read_number)
      (rw (scan_while-append is_digit (c ∷ cs) rest 32 digits refl, parse_i64-decimal n c cs h e))

read_token-digit :
    (c : ℕ) (rest : List ℕ) → is_digit c ≡ true → read_token c rest ≡ read_number (c ∷ rest)
unfolding read_token
read_token-digit c rest h = ground arith

not_close : (s : List ℕ) → All (λ c. c ≢ b'>') s → All (λ c. not (c == b'>') ≡ true) s
not_close [] h = tt
not_close (c ∷ cs) h = (ground (arith, h.0), not_close cs h.1)

skip_space : (src : List ℕ) → skip_whitespace (32 ∷ src) ≡ skip_whitespace src
unfolding skip_whitespace
skip_space src = refl

digit_not_space : (c : ℕ) → is_digit c ≡ true → is_space c ≡ false
digit_not_space c h = ground arith

no_skip : (c : ℕ) (cs : List ℕ) → is_space c ≡ false → skip_whitespace (c ∷ cs) ≡ c ∷ cs
unfolding skip_whitespace
no_skip c cs h = rw (h, skip_whitespace)

-- One round of the loop on a byte that is no space.
pub loop_step :
    (fuel c : ℕ) (cs rest : List ℕ) (t : Token)
    → is_space c ≡ false
    → read_token c cs ≡ ok (t, rest)
    → tokenize_loop (suc fuel) (c ∷ cs) ≡ (tokenize_loop fuel rest >>= λ ts. ok (t ∷ ts))
unfolding tokenize_loop
loop_step fuel c cs rest t h e = rw (no_skip c cs h, tokenize_loop) (rw e)

pub read_identifier :
    (s rest : List ℕ)
    → All (λ c. c ≢ b'>') s
    → read_token b'<' (s ++ (b'>' ∷ rest)) ≡ ok (identifier s, rest)
unfolding read_token
read_identifier s rest h =
    rw (scan_while-append (λ c. not (c == b'>')) s rest b'>' (not_close s h) refl)

-- A written token is read back, up to the space behind it.
loop_token :
    (t : Token) (fuel : ℕ) (rest : List ℕ)
    → IsWritable t
    → tokenize_loop (suc fuel) (write_token t ++ (32 ∷ rest))
      ≡ (tokenize_loop fuel (32 ∷ rest) >>= λ ts. ok (t ∷ ts))
unfolding write_token read_token
loop_token (number (pos n)) fuel rest h =
    let (c, cs, e) = decimal-cons (suc n) n (omega arith) in
    let digits : All (λ x. is_digit x ≡ true) (c ∷ cs) =
      subst (All (λ x. is_digit x ≡ true)) e (decimal-digits (suc n) n) in
    rw e (
      loop_step fuel c (cs ++ (32 ∷ rest)) (32 ∷ rest) (number (pos n)) (digit_not_space c digits.0)
        (read_token-digit c (cs ++ (32 ∷ rest)) digits.0 ∙ read_number-decimal n c cs rest h e))
loop_token (number (negsuc n)) fuel rest h = absurd h
loop_token (identifier s) fuel rest h =
    loop_step fuel b'<' ((s ++ (b'>' ∷ [])) ++ (32 ∷ rest)) (32 ∷ rest) (identifier s) refl
      (rw append_assoc (read_identifier s (32 ∷ rest) h))
loop_token plus fuel rest h = loop_step fuel b'+' (32 ∷ rest) (32 ∷ rest) plus refl refl
loop_token minus fuel rest h = loop_step fuel b'-' (32 ∷ rest) (32 ∷ rest) minus refl refl
loop_token star fuel rest h = loop_step fuel b'*' (32 ∷ rest) (32 ∷ rest) star refl refl
loop_token slash fuel rest h = loop_step fuel b'/' (32 ∷ rest) (32 ∷ rest) slash refl refl
loop_token percent fuel rest h = loop_step fuel b'%' (32 ∷ rest) (32 ∷ rest) percent refl refl
loop_token open_paren fuel rest h = loop_step fuel b'(' (32 ∷ rest) (32 ∷ rest) open_paren refl refl
loop_token close_paren fuel rest h =
    loop_step fuel b')' (32 ∷ rest) (32 ∷ rest) close_paren refl refl
loop_token open_bracket fuel rest h =
    loop_step fuel b'[' (32 ∷ rest) (32 ∷ rest) open_bracket refl refl
loop_token close_bracket fuel rest h =
    loop_step fuel b']' (32 ∷ rest) (32 ∷ rest) close_bracket refl refl

pub loop_skip : (fuel : ℕ) (src : List ℕ) → tokenize_loop fuel (32 ∷ src) ≡ tokenize_loop fuel src
unfolding tokenize_loop
loop_skip zero src = refl
loop_skip (suc fuel) src = rw (skip_space src, tokenize_loop)

loop_tokens :
    (ts : List Token) (fuel : ℕ)
    → All IsWritable ts
    → length (write_tokens ts) < fuel
    → tokenize_loop fuel (write_tokens ts) ≡ ok ts
unfolding write_tokens
loop_tokens ts zero h l = elim l [ ]
loop_tokens [] (suc fuel) h l = unfold tokenize_loop in refl
loop_tokens (t ∷ ts) (suc fuel) h l =
    loop_token t fuel (write_tokens ts) h.0
    ∙ rw (
      loop_skip fuel (write_tokens ts),
      loop_tokens ts fuel h.1 (omega (arith, length-append (write_token t) (32 ∷ write_tokens ts))),
    )

-- Written tokens are read back, where their numbers are not negative and fit an i64 and their names
-- hold no `>`.
pub tokenize-write_tokens :
    (ts : List Token) → All IsWritable ts → tokenize (write_tokens ts) ≡ ok ts
unfolding tokenize
tokenize-write_tokens ts h = loop_tokens ts (suc (length (write_tokens ts))) h (omega arith)
