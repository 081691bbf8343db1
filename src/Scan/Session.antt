-- ===== src/Scan/Session.antt =====
-- crates/nemclass-scan/src/scanner.rs: the scan session's state and everything but the two passes.
use nemclass.Common.{
  ℕ, max, Bool, true, false, Option, none, some, List, [], ◌∷◌, ◌++◌, ltb, ◌==◌, if◌then◌else◌,
  length, drop,
}
use nemclass.Common.Outcome.{}
use nemclass.Scan.Compare.{ScanCompareType, needs_needle}
use nemclass.Scan.Results.{ScanResults, empty_results}
use nemclass.Scan.ValueType.{ScanValueType, fixed_width}
use nemclass.Scan.Needle.{Needle, needle_stride}
use nemclass.Scan.ValueType.{Floats}
use nemclass.Scan.Target.{RegionFilter, default_filter}

-- A target's error is a number; the code passes it on.
pub data ScanError : Type 0 where
  needs_first_scan : ScanError
  compare_needs_previous compare_is_first_scan_only missing_needle : ScanCompareType → ScanError
  needle_type_mismatch : ScanValueType → ScanValueType → ScanError
  no_stride : ScanValueType → ScanError
  target_unreadable : ℕ → ScanError
  target : ℕ → ScanError
  cancelled : ScanError

pub record ScanStats : Type 0 where
  pub scanned : ℕ
  pub matched : ℕ
  pub unreadable : ℕ

abbrev pub history_depth : ℕ
history_depth = 3

abbrev pub default_result_limit : ℕ
default_result_limit = 5_000_000

-- `Scanner<T>`; the target is a parameter of the passes.
pub record Scanner : Type 0 where
  pub value_type : ScanValueType
  pub region_filter : RegionFilter
  pub scanned_regions : ℕ
  pub alignment : Option ℕ
  pub result_limit : ℕ
  pub truncated : Bool
  pub history : List ScanResults
  pub has_scanned : Bool
  pub last_stats : ScanStats

unfoldable pub new_scanner : ScanValueType → Scanner
new_scanner ty = record {
  value_type = ty;
  region_filter = default_filter;
  scanned_regions = 0;
  alignment = none;
  result_limit = default_result_limit;
  truncated = false;
  history = [];
  has_scanned = false;
  last_stats = record { scanned = 0; matched = 0; unreadable = 0 };
}

unfoldable pub set_region_filter : Scanner → RegionFilter → Scanner
set_region_filter s f = record s { region_filter = f }

unfoldable pub set_alignment : Scanner → ℕ → Scanner
set_alignment s a = record s { alignment = if ltb 0 a then some a else none }

unfoldable pub with_result_limit : Scanner → ℕ → Scanner
with_result_limit s n = record s { result_limit = n }

abbrev pub or_else {ℓ} : {A : Type ℓ} → Option A → A → A
or_else none d = d
or_else (some a) d = a

-- The step between candidates.
unfoldable pub step_of : Scanner → ℕ
unfolding fixed_width
step_of s = max (or_else s.alignment (or_else (fixed_width s.value_type) 1)) 1

abbrev pub eq_width : Option ℕ → Option ℕ → Bool
eq_width none none = true
eq_width none (some w) = false
eq_width (some v) none = false
eq_width (some v) (some w) = v == w

unfoldable pub set_value_type : Scanner → ScanValueType → Scanner × Bool
unfolding fixed_width
set_value_type s ty =
    if eq_width (fixed_width ty) (fixed_width s.value_type)
    then (record s { value_type = ty }, true)
    else (s, false)

abbrev pub last_or {ℓ} : {A : Type ℓ} → A → List A → A
last_or d [] = d
last_or d (x ∷ xs) = last_or x xs

-- `results`
unfoldable pub current_results : Scanner → ScanResults
current_results s = last_or empty_results s.history

unfoldable pub can_undo : Scanner → Bool
can_undo s = ltb 1 (length s.history)

abbrev pub pop {ℓ} : {A : Type ℓ} → List A → List A
pop [] = []
pop (x ∷ []) = []
pop (x ∷ y ∷ ys) = x ∷ pop (y ∷ ys)

unfoldable pub undo : Scanner → Scanner × Bool
unfolding can_undo
undo s = if can_undo s then (record s { history = pop s.history }, true) else (s, false)

unfoldable pub push_generation : Scanner → ScanResults → Scanner
push_generation s results =
    let history = s.history ++ (results ∷ []) in
    record s { history = if ltb history_depth (length history) then drop 1 history else history }

-- `==` of types.
abbrev type_index : ScanValueType → ℕ
type_index ScanValueType.i8 = 0
type_index ScanValueType.i16 = 1
type_index ScanValueType.i32 = 2
type_index ScanValueType.i64 = 3
type_index ScanValueType.u8 = 4
type_index ScanValueType.u16 = 5
type_index ScanValueType.u32 = 6
type_index ScanValueType.u64 = 7
type_index ScanValueType.f32 = 8
type_index ScanValueType.f64 = 9
type_index ScanValueType.bytes = 10
type_index ScanValueType.string_utf8 = 11
type_index ScanValueType.string_utf16 = 12

abbrev pub eq_type : ScanValueType → ScanValueType → Bool
eq_type a b = type_index a == type_index b

module _ (fl : Floats) where
  open fl use {Float}

  -- `stride`: 0 where there is none.
  unfoldable pub stride_of : Scanner → Option (Needle Float) → ℕ
  unfolding needle_stride fixed_width
  stride_of s none = or_else (fixed_width s.value_type) 0
  stride_of s (some n) = needle_stride fl n

  unfoldable pub validate_needle :
      Scanner → ScanCompareType → Option (Needle Float) → Option ScanError
  unfolding needs_needle
  validate_needle s compare none =
      if needs_needle compare then some (missing_needle compare) else none
  validate_needle s compare (some n) =
      if eq_type n.ty s.value_type then none else some (needle_type_mismatch n.ty s.value_type)
