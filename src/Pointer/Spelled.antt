-- ===== src/Pointer/Spelled.antt =====
-- The formula of a path (pointerscan.rs) as the tokenizer reads it.
use mathlib.Core.Path.{subst}
use nemclass.Common.{
  ℕ, zero, suc, ◌+◌, ◌*◌, ◌/◌, ◌%◌, ◌≤◌, ◌<◌, ◌≡◌, refl, sym, ap, ◌∙◌, inl, inr, true, false, some,
  List, [], ◌∷◌, ◌++◌, append_assoc, append-nil, arith, ltb, ltb→lt, lt→ltb, Bool-cases, length,
  All, length-append, All-append,
}
use nemclass.Common.Outcome.{ok}
use nemclass.Common.Int.{pos}
use nemclass.Common.Text.{codes, hex_text, lower_hex_digit}
use nemclass.Address.Syntax.{Token, number, plus, open_bracket, close_bracket}
use nemclass.Address.Tokenizer.{
  i64_limit, is_space, is_hex_digit, digit_value, digits_value, scan_while, parse_i64, read_number,
  read_token, tokenize_loop,
}
use nemclass.Address.ReadBack.{loop_step, loop_skip}
use nemclass.Pointer.Formula.{hex_literal, formula_from}

-- The tokens of a text, whatever fuel above its length is given.
abbrev pub IsRead : List ℕ → List Token → Type 0
IsRead text ts = (fuel : ℕ) → length text < fuel → tokenize_loop fuel text ≡ ok ts

IsRead-nil : IsRead [] []
unfolding tokenize_loop
IsRead-nil zero h = absurd (omega arith)
IsRead-nil (suc fuel) h = refl

pub IsRead-space : (text : List ℕ) (ts : List Token) → IsRead text ts → IsRead (32 ∷ text) ts
IsRead-space text ts r fuel h = loop_skip fuel text ∙ r fuel (omega arith)

pub IsRead-token :
    (c : ℕ) (cs rest : List ℕ) (t : Token) (ts : List Token)
    → is_space c ≡ false
    → read_token c cs ≡ ok (t, rest)
    → length rest ≤ length cs
    → IsRead rest ts
    → IsRead (c ∷ cs) (t ∷ ts)
IsRead-token c cs rest t ts black e shorter r zero h = absurd (omega arith)
IsRead-token c cs rest t ts black e shorter r (suc fuel) h =
    loop_step fuel c cs rest t black e ∙ rw (r fuel (omega arith)) refl

-- A text whose first byte ends a run of hexadecimal digits.
abbrev pub IsStop : List ℕ → Type 0
IsStop [] = Unit {0}
IsStop (c ∷ cs) = is_hex_digit c ≡ false

scan_while-stop :
    (xs rest : List ℕ)
    → All (λ x. is_hex_digit x ≡ true) xs
    → IsStop rest
    → scan_while is_hex_digit (xs ++ rest) ≡ (xs, rest)
unfolding scan_while
scan_while-stop [] [] h s = refl
scan_while-stop [] (c ∷ rest) h s = rw s refl
scan_while-stop (x ∷ xs) rest h s = rw (h.0, scan_while-stop xs rest h.1 s) refl

hex_digit_test : (m : ℕ) → m < 16 → is_hex_digit (lower_hex_digit m) ≡ true
hex_digit_test m h = ground arith

digit_value-lower : (m : ℕ) → m < 16 → digit_value (lower_hex_digit m) ≡ m
digit_value-lower m h = ground arith

hex_value-append :
    (acc : ℕ) (xs : List ℕ) (c : ℕ)
    → digits_value 16 acc (xs ++ (c ∷ [])) ≡ digits_value 16 acc xs * 16 + digit_value c
hex_value-append acc [] c = refl
hex_value-append acc (x ∷ xs) c = hex_value-append (acc * 16 + digit_value x) xs c

hex_text_value : (f n : ℕ) → n < f → digits_value 16 0 (hex_text f n) ≡ n
unfolding hex_text
hex_text_value zero n h = absurd (omega arith)
hex_text_value (suc f) n h = elim (Bool-cases (ltb n 16)) [
  | inl small ↦ rw small (omega (arith, digit_value-lower n (ltb→lt n 16 small)))
  | inr large ↦ rw large (
      hex_value-append 0 (hex_text f (n / 16)) (lower_hex_digit (n % 16))
      ∙ sum_of (digits_value 16 0 (hex_text f (n / 16))) (digit_value (lower_hex_digit (n % 16)))
          (hex_text_value f (n / 16) (ground arith)) (digit_value-lower (n % 16) (omega arith)))
]
  where
    sum_of : (a b : ℕ) → a ≡ n / 16 → b ≡ n % 16 → a * 16 + b ≡ n
    sum_of a b p q = omega arith

hex_text-digits : (f n : ℕ) → All (λ c. is_hex_digit c ≡ true) (hex_text f n)
unfolding hex_text
hex_text-digits zero n = tt
hex_text-digits (suc f) n = elim (Bool-cases (ltb n 16)) [
  | inl small ↦ rw small (hex_digit_test n (ltb→lt n 16 small), tt)
  | inr large ↦ rw large (
      All-append (λ c. is_hex_digit c ≡ true) (hex_text f (n / 16)) (lower_hex_digit (n % 16) ∷ [])
        (hex_text-digits f (n / 16)) (hex_digit_test (n % 16) (omega arith), tt))
]

hex_text-cons : (f n : ℕ) → n < f → (c : ℕ) × (cs : List ℕ) × (hex_text f n ≡ c ∷ cs)
unfolding hex_text
hex_text-cons zero n h = absurd (omega arith)
hex_text-cons (suc f) n h = elim (Bool-cases (ltb n 16)) [
  | inl small ↦ (lower_hex_digit n, [], rw small refl)
  | inr large ↦
      let (c, cs, e) = hex_text-cons f (n / 16) (ground arith) in
      (c, cs ++ (lower_hex_digit (n % 16) ∷ []), rw (large, e) refl)
]

parse_i64-hex : (n : ℕ) → n < i64_limit → parse_i64 16 (hex_text (suc n) n) ≡ some (pos n)
unfolding parse_i64
parse_i64-hex n h =
    let (c, cs, e) = hex_text-cons (suc n) n (omega arith) in
    let v : digits_value 16 0 (c ∷ cs) ≡ n =
      subst (λ l. digits_value 16 0 l ≡ n) e (hex_text_value (suc n) n (omega arith)) in
    rw e (rw (v, lt→ltb n i64_limit h) refl)

read_number-hex :
    (n : ℕ) (rest : List ℕ)
    → n < i64_limit
    → IsStop rest
    → read_number (hex_literal n ++ rest) ≡ ok (number (pos n), rest)
unfolding read_number hex_literal
read_number-hex n rest h s =
    rw (scan_while-stop (hex_text (suc n) n) rest (hex_text-digits (suc n) n) s)
      (rw (parse_i64-hex n h) refl)

pub IsRead-hex :
    (n : ℕ) (rest : List ℕ) (ts : List Token)
    → n < i64_limit
    → IsStop rest
    → IsRead rest ts
    → IsRead (hex_literal n ++ rest) (number (pos n) ∷ ts)
unfolding hex_literal read_token
IsRead-hex n rest ts h s r =
    IsRead-token 48 (120 ∷ (hex_text (suc n) n ++ rest)) rest (number (pos n)) ts refl
      (read_number-hex n rest h s) (omega (arith, length-append (hex_text (suc n) n) rest)) r

-- The text and the tokens of the hops behind a base, and the brackets in front of it.
abbrev pub tail_text : List ℕ → List ℕ
tail_text [] = []
tail_text (off ∷ offsets) = codes "] + " ++ (hex_literal off ++ tail_text offsets)

abbrev pub tail_tokens : List ℕ → List Token
tail_tokens [] = []
tail_tokens (off ∷ offsets) = close_bracket ∷ plus ∷ number (pos off) ∷ tail_tokens offsets

abbrev pub opened {ℓ} : {A : Type ℓ} → A → List ℕ → List A → List A
opened bracket [] xs = xs
opened bracket (off ∷ offsets) xs = bracket ∷ opened bracket offsets xs

pub opened-cons {ℓ} :
    {A : Type ℓ} (b : A) (offsets : List ℕ) (xs : List A)
    → opened b offsets (b ∷ xs) ≡ b ∷ opened b offsets xs
opened-cons b [] xs = refl
opened-cons b (off ∷ offsets) xs = ap (λ ys. b ∷ ys) (opened-cons b offsets xs)

pub formula_from-opened :
    (expr offsets : List ℕ)
    → formula_from expr offsets ≡ opened b'[' offsets (expr ++ tail_text offsets)
unfolding formula_from
formula_from-opened expr [] = sym (append-nil expr)
formula_from-opened expr (off ∷ offsets) =
    formula_from-opened (b'[' ∷ (expr ++ (codes "] + " ++ hex_literal off))) offsets
    ∙ ap (λ text. opened b'[' offsets (b'[' ∷ text))
        (append_assoc expr (codes "] + " ++ hex_literal off) (tail_text offsets))
    ∙ opened-cons b'[' offsets (expr ++ (codes "] + " ++ (hex_literal off ++ tail_text offsets)))

pub tail_text-IsStop : (offsets : List ℕ) → IsStop (tail_text offsets)
tail_text-IsStop [] = tt
tail_text-IsStop (off ∷ offsets) = refl

pub tail_text-IsRead :
    (offsets : List ℕ)
    → All (λ off. off < i64_limit) offsets
    → IsRead (tail_text offsets) (tail_tokens offsets)
unfolding read_token
tail_text-IsRead [] h = IsRead-nil
tail_text-IsRead (off ∷ offsets) h =
    let digits = hex_literal off ++ tail_text offsets in
    let behind =
      IsRead-hex off (tail_text offsets) (tail_tokens offsets) h.0 (tail_text-IsStop offsets)
        (tail_text-IsRead offsets h.1) in
    IsRead-token b']' (codes " + " ++ digits) (codes " + " ++ digits) close_bracket
      (plus ∷ number (pos off) ∷ tail_tokens offsets) refl refl (omega arith)
      (IsRead-space (codes "+ " ++ digits) (plus ∷ number (pos off) ∷ tail_tokens offsets) (
        IsRead-token b'+' (codes " " ++ digits) (codes " " ++ digits) plus
          (number (pos off) ∷ tail_tokens offsets) refl refl (omega arith)
          (IsRead-space digits (number (pos off) ∷ tail_tokens offsets) behind)))

pub opened-IsRead :
    (offsets text : List ℕ) (ts : List Token)
    → IsRead text ts
    → IsRead (opened b'[' offsets text) (opened open_bracket offsets ts)
unfolding read_token
opened-IsRead [] text ts r = r
opened-IsRead (off ∷ offsets) text ts r =
    IsRead-token b'[' (opened b'[' offsets text) (opened b'[' offsets text) open_bracket
      (opened open_bracket offsets ts) refl refl (omega arith) (opened-IsRead offsets text ts r)
