-- ===== src/Scan/Pattern.antt =====
-- crates/nemclass-scan/src/pattern.rs: byte patterns with wildcard nibbles.
use nemclass.Common.{
  ℕ, ◌+◌, ◌*◌, Bool, true, not, ◌&&◌, none, some, List, [], ◌∷◌, map, ◌==◌, if◌then◌else◌,
  is_some_and, length, any, window?,
}
use nemclass.Common.Outcome.{Outcome, ok, err, ◌>>=◌}
use nemclass.Common.Text.{is_whitespace, hex_value}
use Prim.Native.Nat.{bit_and}

pub record PatternByte : Type 0 where
  pub value : ℕ
  pub mask : ℕ

-- `exact` and `wildcard`
abbrev pub exact_byte : ℕ → PatternByte
exact_byte v = record { value = v; mask = 0xff }

abbrev pub wildcard_byte : PatternByte
wildcard_byte = record { value = 0; mask = 0 }

unfoldable pub is_wildcard : PatternByte → Bool
is_wildcard b = not (b.mask == 0xff)

unfoldable pub matches : PatternByte → ℕ → Bool
matches b candidate = bit_and candidate b.mask == bit_and b.value b.mask

pub data PatternError : Type 0 where
  unexpected_character : ℕ → PatternError
  pattern_is_empty : PatternError

abbrev pub BytePattern : Type 0
BytePattern = List PatternByte

abbrev pub from_bytes : List ℕ → BytePattern
from_bytes = map exact_byte

pub data Nibble : Type 0 where
  nibble_value : ℕ → Nibble
  any_nibble : Nibble

unfoldable pub parse_nibble : ℕ → Outcome PatternError Nibble
parse_nibble c =
    if c == b'?'
    then ok any_nibble
    else elim (hex_value c) [ none ↦ err (unexpected_character c) | some d ↦ ok (nibble_value d) ]

-- The two nibbles share no bit, so `|` is `+`.
unfoldable pub nibbles_to_byte : Nibble → Nibble → PatternByte
nibbles_to_byte (nibble_value h) (nibble_value l) = record { value = h * 16 + l; mask = 0xff }
nibbles_to_byte (nibble_value h) any_nibble = record { value = h * 16; mask = 0xf0 }
nibbles_to_byte any_nibble (nibble_value l) = record { value = l; mask = 0x0f }
nibbles_to_byte any_nibble any_nibble = record { value = 0; mask = 0 }

abbrev pub push_byte :
    PatternByte → Outcome PatternError BytePattern → Outcome PatternError BytePattern
push_byte b rest = rest >>= λ bs. ok (b ∷ bs)

-- The loop of `parse`: white space is skipped, then a nibble and, unless white space or the end
-- follows, another.
unfoldable pub parse_bytes : List ℕ → Outcome PatternError BytePattern
unfolding parse_nibble nibbles_to_byte
parse_bytes [] = ok []
parse_bytes (c ∷ []) =
    if is_whitespace c
    then ok []
    else do hi ← parse_nibble c; ok (nibbles_to_byte hi any_nibble ∷ [])
parse_bytes (c ∷ d ∷ rest) =
    let next = parse_bytes (d ∷ rest) in
    let after = parse_bytes rest in
    let short = λ (hi : Nibble). push_byte (nibbles_to_byte hi any_nibble) next in
    let long = λ (hi : Nibble). parse_nibble d >>= λ lo. push_byte (nibbles_to_byte hi lo) after in
    if is_whitespace c
    then next
    else (parse_nibble c >>= λ hi. if is_whitespace d then short hi else long hi)

unfoldable pub reject_empty : BytePattern → Outcome PatternError BytePattern
reject_empty [] = err pattern_is_empty
reject_empty (b ∷ bs) = ok (b ∷ bs)

unfoldable pub parse_pattern : List ℕ → Outcome PatternError BytePattern
unfolding parse_bytes reject_empty
parse_pattern input = do bs ← parse_bytes input; reject_empty bs

unfoldable pub has_wildcards : BytePattern → Bool
unfolding is_wildcard
has_wildcards p = any is_wildcard p

-- `bytes.iter().zip(window).all(..)`
unfoldable pub all_match : BytePattern → List ℕ → Bool
unfolding matches
all_match [] bs = true
all_match (p ∷ ps) [] = true
all_match (p ∷ ps) (b ∷ bs) = matches p b && all_match ps bs

unfoldable pub matches_at : BytePattern → List ℕ → ℕ → Bool
unfolding all_match
matches_at p bytes index = is_some_and (window? bytes index (length p)) (λ w. all_match p w)
