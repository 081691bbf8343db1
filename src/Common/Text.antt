-- ===== src/Common/Text.antt =====
-- What the program uses of Rust's `str`: a text is the list of its code points.
use nemclass.Common.Tests.{leb, ltb, ◌==◌, if◌then◌else◌}
use nemclass.Common.Lists.{eq_bytes}
use Prim.Native.Nat.{ℕ, zero, suc, ◌+◌, ◌-◌, ◌/◌, ◌%◌}
use Prim.Native.Char.{code}
use Prim.Native.String.{String}
use mathlib.Core.Bool.{Bool, ◌&&◌, ◌||◌}
use mathlib.Core.Option.{Option, none, some}
use mathlib.Core.List.{List, [], ◌∷◌, ◌++◌, map}

abbrev pub codes : String → List ℕ
codes String.[] = []
codes (String.◌∷◌ c s) = code c ∷ codes s

-- `char::is_whitespace`: the code points with the property White_Space.
abbrev pub is_whitespace : ℕ → Bool
is_whitespace c =
    leb 9 c && leb c 13
    || c == 32
    || c == 0x85
    || c == 0xa0
    || c == 0x1680
    || leb 0x2000 c && leb c 0x200a
    || c == 0x2028
    || c == 0x2029
    || c == 0x202f
    || c == 0x205f
    || c == 0x3000

unfoldable pub trim_start : List ℕ → List ℕ
trim_start [] = []
trim_start (c ∷ cs) = let rest = trim_start cs in if is_whitespace c then rest else c ∷ cs

unfoldable pub trim_end : List ℕ → List ℕ
trim_end [] = []
trim_end (c ∷ cs) = ending c (trim_end cs)
  where
    ending : ℕ → List ℕ → List ℕ
    ending c [] = if is_whitespace c then [] else c ∷ []
    ending c (d ∷ ds) = c ∷ d ∷ ds

unfoldable pub trim : List ℕ → List ℕ
unfolding trim_start trim_end
trim s = trim_end (trim_start s)

abbrev pub ascii_lower : ℕ → ℕ
ascii_lower c = if leb 65 c && leb c 90 then c + 32 else c

unfoldable pub to_ascii_lowercase : List ℕ → List ℕ
to_ascii_lowercase s = map ascii_lower s

-- The value of a hexadecimal digit, of either case: `char::to_digit(16)`.
abbrev pub hex_value : ℕ → Option ℕ
hex_value c =
    if leb 48 c && leb c 57
    then some (c - 48)
    else if leb 97 c && leb c 102
    then some (c - 87)
    else if leb 65 c && leb c 70
    then some (c - 55)
    else none

-- The first entry whose text is the key: a `match` over string literals.
unfoldable pub match_text {ℓ} : {A : Type ℓ} → List ℕ → List (String × A) → Option A
match_text key [] = none
match_text key ((t, a) ∷ cases) = if eq_bytes key (codes t) then some a else match_text key cases

-- UTF-8.
unfoldable pub utf8_char : ℕ → List ℕ
utf8_char c =
    if ltb c 0x80
    then c ∷ []
    else if ltb c 0x800
    then (0xc0 + c / 64) ∷ (0x80 + c % 64) ∷ []
    else if ltb c 0x10000
    then (0xe0 + c / 4096) ∷ (0x80 + c / 64 % 64) ∷ (0x80 + c % 64) ∷ []
    else (0xf0 + c / 262144) ∷ (0x80 + c / 4096 % 64) ∷ (0x80 + c / 64 % 64) ∷ (0x80 + c % 64) ∷ []

unfoldable pub as_bytes : List ℕ → List ℕ
unfolding utf8_char
as_bytes [] = []
as_bytes (c ∷ cs) = utf8_char c ++ as_bytes cs

-- UTF-16, with surrogate pairs above the basic plane; each unit as two bytes, low byte first.
abbrev le_unit : ℕ → List ℕ
le_unit u = u % 256 ∷ u / 256 ∷ []

unfoldable pub utf16_le_char : ℕ → List ℕ
utf16_le_char c =
    if ltb c 0x10000
    then le_unit c
    else le_unit (0xd800 + (c - 0x10000) / 1024) ++ le_unit (0xdc00 + (c - 0x10000) % 1024)

unfoldable pub encode_utf16_le : List ℕ → List ℕ
unfolding utf16_le_char
encode_utf16_le [] = []
encode_utf16_le (c ∷ cs) = utf16_le_char c ++ encode_utf16_le cs

-- The decimal digits of `n`, for a fuel above `n`.
unfoldable pub decimal : ℕ → ℕ → List ℕ
decimal zero n = []
decimal (suc f) n =
    let front = decimal f (n / 10) in
    if ltb n 10 then (48 + n) ∷ [] else front ++ ((48 + n % 10) ∷ [])

abbrev pub lower_hex_digit : ℕ → ℕ
lower_hex_digit n = if ltb n 10 then 48 + n else 87 + n

-- The hexadecimal digits of `n`, for a fuel above `n`.
unfoldable pub hex_text : ℕ → ℕ → List ℕ
hex_text zero n = []
hex_text (suc f) n =
    let front = hex_text f (n / 16) in
    if ltb n 16 then lower_hex_digit n ∷ [] else front ++ (lower_hex_digit (n % 16) ∷ [])
