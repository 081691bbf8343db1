-- ===== src/Scan/Spelling.antt =====
-- A formatted signature (signature.rs) is a pattern (pattern.rs) for exactly its bytes.
use nemclass.Common.{
  ℕ, ◌+◌, ◌*◌, ◌/◌, ◌%◌, ◌<◌, ◌≡◌, refl, ap, ◌∙◌, false, some, List, [], ◌∷◌, ◌++◌, arith, ◌==◌,
  All,
}
use nemclass.Common.Outcome.{ok, ◌>>=◌}
use nemclass.Common.Text.{is_whitespace, hex_value}
use nemclass.Scan.Pattern.{
  exact_byte, from_bytes, nibble_value, parse_nibble, nibbles_to_byte, parse_bytes, push_byte,
  parse_pattern, reject_empty,
}
use nemclass.Scan.Signature.{hex_digit, hex_byte, format_signature}

hex_value-hex_digit : (n : ℕ) → n < 16 → hex_value (hex_digit n) ≡ some n
hex_value-hex_digit n h = ground arith

hex_digit_visible : (n : ℕ) → n < 16 → is_whitespace (hex_digit n) ≡ false
hex_digit_visible n h = ground arith

parse_nibble-hex_digit : (n : ℕ) → n < 16 → parse_nibble (hex_digit n) ≡ ok (nibble_value n)
unfolding parse_nibble
parse_nibble-hex_digit n h =
    let no_wildcard : hex_digit n == b'?' ≡ false = ground arith in
    rw no_wildcard (rw (hex_value-hex_digit n h) refl)

-- Two digits are read as one byte.
parse_bytes-hex_byte :
    (b : ℕ) (rest : List ℕ)
    → b < 256
    → parse_bytes (hex_byte b ++ rest) ≡ push_byte (exact_byte b) (parse_bytes rest)
unfolding parse_bytes nibbles_to_byte
parse_bytes-hex_byte b rest h =
    let hi : b / 16 < 16 = omega arith in
    let lo : b % 16 < 16 = omega arith in
    let whole : b / 16 * 16 + b % 16 ≡ b = omega arith in
    rw (hex_digit_visible (b / 16) hi) (
      rw (parse_nibble-hex_digit (b / 16) hi, ◌>>=◌)
        (rw (hex_digit_visible (b % 16) lo) (
          rw (parse_nibble-hex_digit (b % 16) lo, ◌>>=◌)
            (ap (λ v. push_byte (record { value = v; mask = 0xff }) (parse_bytes rest)) whole))))

parse_bytes_space : (rest : List ℕ) → parse_bytes (32 ∷ rest) ≡ parse_bytes rest
unfolding parse_bytes
parse_bytes_space [] = refl
parse_bytes_space (c ∷ rest) = refl

parse_bytes-format_signature :
    (bs : List ℕ) → All (λ b. b < 256) bs → parse_bytes (format_signature bs) ≡ ok (from_bytes bs)
unfolding format_signature parse_bytes
parse_bytes-format_signature [] h = refl
parse_bytes-format_signature (b ∷ []) h = parse_bytes-hex_byte b [] h.0
parse_bytes-format_signature (b ∷ c ∷ bs) h =
    parse_bytes-hex_byte b (32 ∷ format_signature (c ∷ bs)) h.0
    ∙ ap (push_byte (exact_byte b))
        (parse_bytes_space (format_signature (c ∷ bs)) ∙ parse_bytes-format_signature (c ∷ bs) h.1)

-- Bytes written as a signature are parsed to the pattern of exactly these bytes.
pub parse_pattern-format_signature :
    (b : ℕ) (bs : List ℕ)
    → All (λ x. x < 256) (b ∷ bs)
    → parse_pattern (format_signature (b ∷ bs)) ≡ ok (from_bytes (b ∷ bs))
unfolding parse_pattern reject_empty
parse_pattern-format_signature b bs h = rw (parse_bytes-format_signature (b ∷ bs) h, ◌>>=◌) refl
