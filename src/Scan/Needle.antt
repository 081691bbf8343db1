-- ===== src/Scan/Needle.antt =====
-- crates/nemclass-scan/src/value_type.rs: needles, from their text to the comparison of a candidate.
use nemclass.Common.{
  ℕ, zero, suc, ◌+◌, ◌-◌, ◌*◌, ◌^◌, Bool, true, false, not, ◌&&◌, ◌||◌, Option, none, some, List,
  [], ◌∷◌, ltb, ◌==◌, if◌then◌else◌, is_some_and, length, window?, eq_bytes,
}
use nemclass.Common.Outcome.{Outcome, ok, err, diverged, ◌>>=◌, ◌>>◌, guard}
use nemclass.Common.Int.{ℤ, pos, negsuc, sub_ℕ, leb_ℤ}
use nemclass.Common.Text.{trim, hex_value, as_bytes, encode_utf16_le}
use nemclass.Scan.Compare.{ScanCompareType, exact, unknown, not_equal}
use nemclass.Scan.Pattern.{BytePattern, PatternError, parse_pattern, matches_at}
use nemclass.Scan.ValueType.{
  ScanValueType, i8, i16, i32, i64, u8, u16, u32, u64, f32, f64, bytes, string_utf8, string_utf16,
  is_signed, read_int, compare_int, Floats, read_float, compare_float,
}

pub data NeedleParseError : Type 0 where
  integer float : NeedleParseError
  pattern : PatternError → NeedleParseError
  -- `-mag` overflows at i128::MIN: a panic in a debug build
  negation_overflow : NeedleParseError

abbrev pub ParseResult : Type 0 → Type 0
ParseResult A = Outcome NeedleParseError A

-- One digit after the other; `none` at a character that is no digit of the radix.
unfoldable pub digits : ℕ → ℕ → List ℕ → Option ℕ
digits radix acc [] = some acc
digits radix acc (c ∷ cs) = elim (hex_value c) [
  | none ↦ none
  | some d ↦ if ltb d radix then digits radix (acc * radix + d) cs else none
]

-- `u128::from_str_radix`: an optional `+`, at least one digit, and a value that fits.
abbrev without_plus : List ℕ → List ℕ
without_plus [] = []
without_plus (c ∷ cs) = if c == b'+' then cs else c ∷ cs

abbrev fits_u128 : Option ℕ → ParseResult ℕ
fits_u128 none = err integer
fits_u128 (some v) = if ltb v (2 ^ 128) then ok v else err integer

abbrev some_digits : ℕ → List ℕ → Option ℕ
some_digits radix [] = none
some_digits radix (c ∷ cs) = digits radix 0 (c ∷ cs)

unfoldable pub u128_from_str_radix : ℕ → List ℕ → ParseResult ℕ
unfolding digits
u128_from_str_radix radix s = fits_u128 (some_digits radix (without_plus s))

-- The text behind `0x` or `0X`.
unfoldable pub strip_hex : List ℕ → Option (List ℕ)
strip_hex [] = none
strip_hex (c ∷ []) = none
strip_hex (c ∷ d ∷ rest) = if c == b'0' && (d == b'x' || d == b'X') then some rest else none

unfoldable pub parse_u128_radix : List ℕ → ParseResult ℕ
unfolding u128_from_str_radix strip_hex trim
parse_u128_radix s = elim (strip_hex (trim s)) [
  | none ↦ u128_from_str_radix 10 (trim s)
  | some hex ↦ u128_from_str_radix 16 hex
]

-- `mag as i128`
abbrev as_i128 : ℕ → ℤ
as_i128 mag = if ltb mag (2 ^ 127) then pos mag else sub_ℕ mag (2 ^ 128)

abbrev neg_i128 : ℤ → ParseResult ℤ
neg_i128 (pos zero) = ok (pos 0)
neg_i128 (pos (suc n)) = ok (negsuc n)
neg_i128 (negsuc n) = if ltb (suc n) (2 ^ 127) then ok (pos (suc n)) else err negation_overflow

abbrev strip_minus : List ℕ → Bool × List ℕ
strip_minus [] = (false, [])
strip_minus (c ∷ cs) = if c == b'-' then (true, cs) else (false, c ∷ cs)

unfoldable pub parse_i128_radix : List ℕ → ParseResult ℤ
unfolding parse_u128_radix
parse_i128_radix s = do
  mag ← parse_u128_radix (strip_minus s).1
  if (strip_minus s).0 then neg_i128 (as_i128 mag) else ok (as_i128 mag)

-- `parse_int::<iN>`: `T::try_from` keeps what lies in the range of the `width`-byte type.
unfoldable pub parse_int : ℕ → List ℕ → ParseResult ℤ
unfolding parse_i128_radix
parse_int width s = do
  v ← parse_i128_radix s
  let half = 2 ^ (width * 8 - 1)
  guard (leb_ℤ (negsuc (half - 1)) v && leb_ℤ v (pos (half - 1))) integer
  ok v

-- `parse_uint::<uN>(s)? as i128`
unfoldable pub parse_uint : ℕ → List ℕ → ParseResult ℤ
unfolding parse_u128_radix
parse_uint width s = do v ← parse_u128_radix s; guard (ltb v (2 ^ (width * 8))) integer; ok (pos v)

pub data NeedleValue (F : Type 0) : Type 0 where
  int_needle : ℤ → ℕ → Option ℤ → NeedleValue F
  float_needle : F → ℕ → Option F → NeedleValue F
  bytes_needle : BytePattern → NeedleValue F
  text_needle : List ℕ → NeedleValue F

pub record Needle (F : Type 0) : Type 0 where
  pub ty : ScanValueType
  pub value : NeedleValue F
  pub tolerance : F

module _ (fl : Floats) where
  open fl use {Float, default_tolerance, parse_f32, parse_f64}

  abbrev int_value : ℕ → ParseResult ℤ → ParseResult (NeedleValue Float)
  int_value width r = r >>= λ v. ok (int_needle v width none)

  abbrev float_value : ℕ → Option Float → ParseResult (NeedleValue Float)
  float_value width none = err float
  float_value width (some v) = ok (float_needle v width none)

  abbrev pattern_value : Outcome PatternError BytePattern → ParseResult (NeedleValue Float)
  pattern_value (ok p) = ok (bytes_needle p)
  pattern_value (err e) = err (pattern e)
  pattern_value diverged = diverged

  unfoldable pub parse_value : ScanValueType → List ℕ → ParseResult (NeedleValue Float)
  unfolding parse_int parse_uint trim as_bytes encode_utf16_le parse_pattern
  parse_value i8 input = int_value 1 (parse_int 1 (trim input))
  parse_value i16 input = int_value 2 (parse_int 2 (trim input))
  parse_value i32 input = int_value 4 (parse_int 4 (trim input))
  parse_value i64 input = int_value 8 (parse_int 8 (trim input))
  parse_value u8 input = int_value 1 (parse_uint 1 (trim input))
  parse_value u16 input = int_value 2 (parse_uint 2 (trim input))
  parse_value u32 input = int_value 4 (parse_uint 4 (trim input))
  parse_value u64 input = int_value 8 (parse_uint 8 (trim input))
  parse_value f32 input = float_value 4 (parse_f32 (trim input))
  parse_value f64 input = float_value 8 (parse_f64 (trim input))
  parse_value bytes input = pattern_value (parse_pattern input)
  parse_value string_utf8 input = ok (text_needle (as_bytes input))
  parse_value string_utf16 input = ok (text_needle (encode_utf16_le input))

  unfoldable pub parse_needle : ScanValueType → List ℕ → ParseResult (Needle Float)
  unfolding parse_value
  parse_needle ty input = do
    v ← parse_value ty input
    ok (record { ty = ty; value = v; tolerance = default_tolerance })

  abbrev bounded : NeedleValue Float → NeedleValue Float → NeedleValue Float
  bounded (int_needle n w hi) (int_needle v _ _) = int_needle n w (some v)
  bounded (float_needle n w hi) (float_needle v _ _) = float_needle n w (some v)
  bounded value upper = value

  unfoldable pub with_upper_bound : Needle Float → List ℕ → ParseResult (Needle Float)
  unfolding parse_needle
  with_upper_bound n input = do
    upper ← parse_needle n.ty input
    ok (record n { value = bounded n.value upper.value })

  abbrev pub value_stride : NeedleValue Float → ℕ
  value_stride (int_needle n w hi) = w
  value_stride (float_needle n w hi) = w
  value_stride (bytes_needle p) = length p
  value_stride (text_needle b) = length b

  unfoldable pub needle_stride : Needle Float → ℕ
  needle_stride n = value_stride n.value

  -- `previous.and_then(|p| read_int(p, 0, ..))`
  abbrev pub prev_int : ScanValueType → ℕ → Option (List ℕ) → Option ℤ
  prev_int ty width none = none
  prev_int ty width (some p) = read_int p 0 width (is_signed ty)

  abbrev pub prev_float : ℕ → Option (List ℕ) → Option Float
  prev_float width none = none
  prev_float width (some p) = read_float fl p 0 width

  -- An array of bytes is matched, or not; `here` says whether it is.
  abbrev pub compare_pattern : Bool → ScanCompareType → Bool
  compare_pattern here exact = here
  compare_pattern here unknown = here
  compare_pattern here _ = false

  abbrev pub compare_text : List ℕ → List ℕ → ScanCompareType → Bool
  compare_text needle window exact = eq_bytes window needle
  compare_text needle window unknown = eq_bytes window needle
  compare_text needle window not_equal = not (eq_bytes window needle)
  compare_text needle window _ = false

  -- Below, `buf` is the source's `data`.
  unfoldable pub compare_value :
      NeedleValue Float
      → ScanValueType
      → Float
      → List ℕ
      → ℕ
      → ScanCompareType
      → Option (List ℕ)
      → Bool
  unfolding read_int compare_int read_float compare_float is_signed matches_at
  compare_value (int_needle needle width upper) ty tol buf offset compare previous =
      is_some_and (read_int buf offset width (is_signed ty))
        λ cur. compare_int compare cur needle upper (prev_int ty width previous)
  compare_value (float_needle needle width upper) ty tol buf offset compare previous =
      is_some_and (read_float fl buf offset width)
        λ cur. compare_float fl compare cur needle upper (prev_float width previous) tol
  compare_value (bytes_needle p) ty tol buf offset compare previous =
      compare_pattern (matches_at p buf offset) compare
  compare_value (text_needle needle) ty tol buf offset compare previous =
      is_some_and (window? buf offset (length needle)) λ w. compare_text needle w compare

  unfoldable pub compare_first : Needle Float → List ℕ → ℕ → ScanCompareType → Bool
  unfolding compare_value
  compare_first n buf offset compare =
      compare_value n.value n.ty n.tolerance buf offset compare none

  unfoldable pub compare_next : Needle Float → List ℕ → ℕ → ScanCompareType → List ℕ → Bool
  unfolding compare_value
  compare_next n buf offset compare previous =
      compare_value n.value n.ty n.tolerance buf offset compare (some previous)
