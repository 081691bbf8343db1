-- ===== src/Address/Totality.antt =====
-- Reading a formula ends on every text.
use nemclass.Common.{
  ℕ, zero, suc, ◌≤◌, ◌<◌, ◌≡◌, refl, ◌≢◌, inl, inr, Bool, true, false, Option, none, some, List, [],
  ◌∷◌, arith, ◌==◌, if◌then◌else◌, Option-cases, length,
}
use nemclass.Common.Outcome.{
  diverged, Ensures, holds, rejected, Ensures-ne-diverged, Ensures-map, Ensures-bind,
}
use nemclass.Common.Int.{ℤ}
use nemclass.Address.Syntax.{Token, ModelError, Result}
use nemclass.Address.Tokenizer.{
  is_space, is_digit, is_hex_digit, scan_while, skip_whitespace, hex_prefix, number_token,
  read_number, close_identifier, read_angle_identifier, read_quoted_identifier, read_token,
  tokenize_loop, tokenize,
}
use nemclass.Address.Parser.{parse}
use nemclass.Address.Sound.{parse_tokens-Derives}

scan_while_shorter : (p : ℕ → Bool) (src : List ℕ) → length (scan_while p src).1 ≤ length src
unfolding scan_while
scan_while_shorter p [] = omega arith
scan_while_shorter p (c ∷ cs) = ground (arith, scan_while_shorter p cs)

-- A token, and at most `n` bytes left.
abbrev Takes : ℕ → Token × List ℕ → Type 0
Takes n r = length r.1 ≤ n

number_token-Takes :
    (e : ModelError) (v : Option ℤ) (rest : List ℕ) (n : ℕ)
    → length rest ≤ n
    → Ensures (Takes n) (number_token e v rest)
unfolding number_token
number_token-Takes e none rest n h = rejected
number_token-Takes e (some v) rest n h = holds h

hex_prefix_shorter :
    (src body : List ℕ) → hex_prefix src ≡ some body → suc (length body) ≤ length src
unfolding hex_prefix
hex_prefix_shorter [] body h = cc
hex_prefix_shorter (c ∷ []) body h = cc
hex_prefix_shorter (c ∷ d ∷ rest) body h = ground arith

read_number-Takes :
    (c : ℕ) (cs : List ℕ) → is_digit c ≡ true → Ensures (Takes (length cs)) (read_number (c ∷ cs))
unfolding read_number
read_number-Takes c cs h = elim (Option-cases (hex_prefix (c ∷ cs))) [
  | inl e ↦
      rw (e, read_number, h)
        (number_token-Takes _ _ (scan_while is_digit cs).1 (length cs)
          (scan_while_shorter is_digit cs))
  | inr (body, e) ↦
      rw (e, read_number)
        (number_token-Takes _ _ (scan_while is_hex_digit body).1 (length cs)
          (omega (arith, scan_while_shorter is_hex_digit body, hex_prefix_shorter (c ∷ cs) body e)))
]

close_identifier-Takes :
    (e : ModelError) (r : List ℕ × List ℕ) (n : ℕ)
    → length r.1 ≤ n
    → Ensures (Takes n) (close_identifier e r)
unfolding close_identifier
close_identifier-Takes e (name, []) n h = rejected
close_identifier-Takes e (name, c ∷ rest) n h = holds (omega arith)

read_angle-Takes : (src : List ℕ) → Ensures (Takes (length src)) (read_angle_identifier src)
unfolding read_angle_identifier
read_angle-Takes src = close_identifier-Takes _ _ (length src) (scan_while_shorter _ src)

read_quoted-Takes : (src : List ℕ) → Ensures (Takes (length src)) (read_quoted_identifier src)
unfolding read_quoted_identifier
read_quoted-Takes src = close_identifier-Takes _ _ (length src) (scan_while_shorter _ src)

either_branch :
    {A : Type 0} {P : A → Type 0} (test : Bool) {yes no : Result A}
    → (test ≡ true → Ensures P yes)
    → Ensures P no
    → Ensures P (if test then yes else no)
either_branch false on_yes on_no = on_no
either_branch true on_yes on_no = on_yes refl

read_token-Takes : (ch : ℕ) (rest : List ℕ) → Ensures (Takes (length rest)) (read_token ch rest)
unfolding read_token
read_token-Takes ch rest =
    let le : length rest ≤ length rest = omega arith in
    either_branch (ch == b'+') (λ _. holds le)
      (either_branch (ch == b'-') (λ _. holds le)
        (either_branch (ch == b'*') (λ _. holds le)
          (either_branch (ch == b'/') (λ _. holds le)
            (either_branch (ch == b'%') (λ _. holds le)
              (either_branch (ch == b'(') (λ _. holds le)
                (either_branch (ch == b')') (λ _. holds le)
                  (either_branch (ch == b'[') (λ _. holds le)
                    (either_branch (ch == b']') (λ _. holds le)
                      (either_branch (ch == b'<') (λ _. read_angle-Takes rest)
                        (either_branch (ch == 34) (λ _. read_quoted-Takes rest)
                          (either_branch (is_digit ch) (λ h. read_number-Takes ch rest h)
                            rejected)))))))))))

skip_shorter : (src : List ℕ) → length (skip_whitespace src) ≤ length src
unfolding skip_whitespace
skip_shorter src = scan_while_shorter is_space src

module _ (fuel : ℕ) where
  round :
      (src : List ℕ)
      → ((rest : List ℕ) → length rest < fuel → Ensures (λ _. Unit {0}) (tokenize_loop fuel rest))
      → (skipped : List ℕ) → skip_whitespace src ≡ skipped
      → length skipped < suc fuel
      → Ensures (λ _. Unit {0}) (tokenize_loop (suc fuel) src)
  unfolding tokenize_loop
  round src ih [] e h = rw (e, tokenize_loop) (holds tt)
  round src ih (ch ∷ rest) e h =
      rw (e, tokenize_loop)
        (Ensures-bind (read_token-Takes ch rest)
          λ (t, rest') l. Ensures-bind (ih rest' (omega arith)) λ _ _. holds tt)

tokenize_loop-Ensures :
    (fuel : ℕ) (src : List ℕ) → length src < fuel → Ensures (λ _. Unit {0}) (tokenize_loop fuel src)
tokenize_loop-Ensures zero src h = elim h [ ]
tokenize_loop-Ensures (suc fuel) src h =
    round fuel src (λ rest l. tokenize_loop-Ensures fuel rest l) (skip_whitespace src) refl
      (omega (arith, skip_shorter src))

parse-Ensures : (input : List ℕ) → Ensures (λ _. Unit {0}) (parse input)
unfolding parse tokenize
parse-Ensures input =
    Ensures-bind (tokenize_loop-Ensures (suc (length input)) input (omega arith))
      λ ts _. Ensures-map (parse_tokens-Derives ts) λ _ _. tt

-- Parsing ends with an expression or an error on every text.
pub parse-ne-diverged : (input : List ℕ) → parse input ≢ diverged
parse-ne-diverged input = Ensures-ne-diverged (parse-Ensures input)
