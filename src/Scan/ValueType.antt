-- ===== src/Scan/ValueType.antt =====
-- crates/nemclass-scan/src/value_type.rs: the types of values, how their bytes are read, and how
-- they compare. Floats are a parameter: the language has none.
use nemclass.Common.{
  ℕ, ◌+◌, ◌-◌, ◌*◌, ◌^◌, Bool, true, false, not, ◌&&◌, ◌||◌, Option, none, some, List, [], ◌∷◌, ltb,
  leb, ◌==◌, if◌then◌else◌, is_some_and, is_none_or, length, window?, eq_bytes,
}
use nemclass.Common.Int.{ℤ, pos, sub_ℕ, ◌+ℤ◌, ◌-ℤ◌, ltb_ℤ, eq_ℤ}
use nemclass.Common.Text.{codes, trim, to_ascii_lowercase, match_text}
use Prim.Native.String.{String}
use nemclass.Scan.Compare.{
  ScanCompareType, exact, not_equal, greater_than, less_than, between, unknown, increased,
  increased_by, decreased, decreased_by, changed, unchanged,
}

pub data ScanValueType : Type 0 where
  i8 i16 i32 i64 u8 u16 u32 u64 f32 f64 bytes string_utf8 string_utf16 : ScanValueType

unfoldable pub fixed_width : ScanValueType → Option ℕ
fixed_width i8 = some 1
fixed_width u8 = some 1
fixed_width i16 = some 2
fixed_width u16 = some 2
fixed_width i32 = some 4
fixed_width u32 = some 4
fixed_width f32 = some 4
fixed_width i64 = some 8
fixed_width u64 = some 8
fixed_width f64 = some 8
fixed_width bytes = none
fixed_width string_utf8 = none
fixed_width string_utf16 = none

unfoldable pub is_string : ScanValueType → Bool
is_string string_utf8 = true
is_string string_utf16 = true
is_string _ = false

unfoldable pub is_signed : ScanValueType → Bool
is_signed i8 = true
is_signed i16 = true
is_signed i32 = true
is_signed i64 = true
is_signed _ = false

unfoldable pub tag_name : ScanValueType → String
tag_name i8 = "i8"
tag_name i16 = "i16"
tag_name i32 = "i32"
tag_name i64 = "i64"
tag_name u8 = "u8"
tag_name u16 = "u16"
tag_name u32 = "u32"
tag_name u64 = "u64"
tag_name f32 = "f32"
tag_name f64 = "f64"
tag_name bytes = "bytes"
tag_name string_utf8 = "string_utf8"
tag_name string_utf16 = "string_utf16"

unfoldable pub as_tag : ScanValueType → List ℕ
unfolding tag_name
as_tag ty = codes (tag_name ty)

unfoldable pub type_from_tag : List ℕ → Option ScanValueType
unfolding trim to_ascii_lowercase match_text
type_from_tag tag = match_text (to_ascii_lowercase (trim tag)) (
    ("i8", i8)
    ∷ ("i16", i16)
    ∷ ("i32", i32)
    ∷ ("i64", i64)
    ∷ ("u8", u8)
    ∷ ("u16", u16)
    ∷ ("u32", u32)
    ∷ ("u64", u64)
    ∷ ("f32", f32)
    ∷ ("float", f32)
    ∷ ("f64", f64)
    ∷ ("double", f64)
    ∷ ("bytes", bytes)
    ∷ ("aob", bytes)
    ∷ ("string_utf8", string_utf8)
    ∷ ("string", string_utf8)
    ∷ ("utf8", string_utf8)
    ∷ ("string_utf16", string_utf16)
    ∷ ("utf16", string_utf16)
    ∷ [])

-- `acc |= b << (8 * i)` over the bytes: they share no bit, so `|` is `+`.
unfoldable pub le_value : List ℕ → ℕ
le_value [] = 0
le_value (b ∷ bs) = b + 256 * le_value bs

-- The sign bit is set exactly from half the range on; or-ing the mask in subtracts the range.
unfoldable pub int_of_bytes : List ℕ → ℕ → Bool → ℤ
unfolding le_value
int_of_bytes bs width signed =
    let acc = le_value bs in
    if signed && leb (2 ^ (width * 8 - 1)) acc then sub_ℕ acc (2 ^ (width * 8)) else pos acc

abbrev pub int_of_window : ℕ → Bool → Option (List ℕ) → Option ℤ
int_of_window width signed none = none
int_of_window width signed (some w) = some (int_of_bytes w width signed)

unfoldable pub read_int : List ℕ → ℕ → ℕ → Bool → Option ℤ
unfolding int_of_bytes
read_int bs offset width signed = int_of_window width signed (window? bs offset width)

unfoldable pub compare_int : ScanCompareType → ℤ → ℤ → Option ℤ → Option ℤ → Bool
unfolding ◌+ℤ◌ ◌-ℤ◌
compare_int exact cur needle upper prev = eq_ℤ cur needle
compare_int not_equal cur needle upper prev = not (eq_ℤ cur needle)
compare_int greater_than cur needle upper prev = ltb_ℤ needle cur
compare_int less_than cur needle upper prev = ltb_ℤ cur needle
compare_int between cur needle upper prev =
    ltb_ℤ needle cur && is_none_or upper (λ hi. ltb_ℤ cur hi)
compare_int unknown cur needle upper prev = true
compare_int increased cur needle upper prev = is_some_and prev (λ p. ltb_ℤ p cur)
compare_int decreased cur needle upper prev = is_some_and prev (λ p. ltb_ℤ cur p)
compare_int changed cur needle upper prev = is_some_and prev (λ p. not (eq_ℤ cur p))
compare_int unchanged cur needle upper prev = is_some_and prev (λ p. eq_ℤ cur p)
compare_int increased_by cur needle upper prev = is_some_and prev (λ p. eq_ℤ cur (p +ℤ needle))
compare_int decreased_by cur needle upper prev = is_some_and prev (λ p. eq_ℤ cur (p -ℤ needle))

-- What the code uses of IEEE-754 arithmetic.
pub record Floats : Type 1 where
  pub Float : Type 0
  -- `f32::from_le_bytes(..) as f64` and `f64::from_le_bytes(..)`, from the bits
  pub of_f32_bits : ℕ → Float
  pub of_f64_bits : ℕ → Float
  pub zero_float : Float
  pub default_tolerance : Float
  pub add_float : Float → Float → Float
  pub sub_float : Float → Float → Float
  pub abs_float : Float → Float
  pub lt_float : Float → Float → Bool
  -- `str::parse`
  pub parse_f32 : List ℕ → Option Float
  pub parse_f64 : List ℕ → Option Float

module _ (fl : Floats) where
  open fl use {
    Float, of_f32_bits, of_f64_bits, zero_float, default_tolerance, add_float, sub_float, abs_float,
    lt_float,
  }

  abbrev pub float_of : ℕ → List ℕ → Option Float
  float_of width w =
      if width == 4
      then some (of_f32_bits (le_value w))
      else if width == 8
      then some (of_f64_bits (le_value w))
      else none

  abbrev pub float_of_window : ℕ → Option (List ℕ) → Option Float
  float_of_window width none = none
  float_of_window width (some w) = float_of width w

  unfoldable pub read_float : List ℕ → ℕ → ℕ → Option Float
  unfolding le_value
  read_float bs offset width = float_of_window width (window? bs offset width)

  abbrev nearly : Float → Float → Float → Bool
  nearly tol a b = lt_float (abs_float (sub_float a b)) tol

  unfoldable pub compare_float :
      ScanCompareType → Float → Float → Option Float → Option Float → Float → Bool
  compare_float exact cur needle upper prev tol = nearly tol cur needle
  compare_float not_equal cur needle upper prev tol = not (nearly tol cur needle)
  compare_float greater_than cur needle upper prev tol = lt_float needle cur
  compare_float less_than cur needle upper prev tol = lt_float cur needle
  compare_float between cur needle upper prev tol =
      lt_float needle cur && is_none_or upper (λ hi. lt_float cur hi)
  compare_float unknown cur needle upper prev tol = true
  compare_float increased cur needle upper prev tol = is_some_and prev (λ p. lt_float p cur)
  compare_float decreased cur needle upper prev tol = is_some_and prev (λ p. lt_float cur p)
  compare_float changed cur needle upper prev tol = is_some_and prev (λ p. not (nearly tol cur p))
  compare_float unchanged cur needle upper prev tol = is_some_and prev (λ p. nearly tol cur p)
  compare_float increased_by cur needle upper prev tol =
      is_some_and prev (λ p. nearly tol cur (add_float p needle))
  compare_float decreased_by cur needle upper prev tol =
      is_some_and prev (λ p. nearly tol cur (sub_float p needle))

  abbrev change_of_bytes : ScanCompareType → List ℕ → List ℕ → Bool
  change_of_bytes changed cur prev = not (eq_bytes cur prev)
  change_of_bytes unchanged cur prev = eq_bytes cur prev
  change_of_bytes _ cur prev = false

  abbrev change_of_floats : ScanCompareType → Option Float → Option Float → Bool
  change_of_floats compare (some c) (some p) =
      compare_float compare c zero_float none (some p) default_tolerance
  change_of_floats compare none p = false
  change_of_floats compare (some c) none = false

  abbrev change_of_ints : ScanCompareType → Option ℤ → Option ℤ → Bool
  change_of_ints compare (some c) (some p) = compare_int compare c (pos 0) none (some p)
  change_of_ints compare none p = false
  change_of_ints compare (some c) none = false

  abbrev is_float : ScanValueType → Bool
  is_float f32 = true
  is_float f64 = true
  is_float _ = false

  abbrev change_of_width : ScanValueType → ScanCompareType → ℕ → List ℕ → List ℕ → Bool
  change_of_width ty compare width cur prev =
      if ltb (length cur) width || ltb (length prev) width
      then false
      else if is_float ty
      then change_of_floats compare (read_float cur 0 width) (read_float prev 0 width)
      else change_of_ints compare (read_int cur 0 width (is_signed ty))
          (read_int prev 0 width (is_signed ty))

  unfoldable pub compare_change : ScanValueType → ScanCompareType → List ℕ → List ℕ → Bool
  unfolding read_int read_float compare_int compare_float is_signed fixed_width
  compare_change ty compare cur prev = elim (fixed_width ty) [
    | none ↦ change_of_bytes compare cur prev
    | some width ↦ change_of_width ty compare width cur prev
  ]
