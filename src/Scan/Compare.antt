-- ===== src/Scan/Compare.antt =====
-- crates/nemclass-scan/src/compare.rs: the kinds of comparison.
use nemclass.Common.{ℕ, Bool, true, false, Option, List, [], ◌∷◌}
use nemclass.Common.Text.{trim, to_ascii_lowercase, match_text}

pub data ScanCompareType : Type 0 where
  exact not_equal greater_than less_than between : ScanCompareType
  unknown : ScanCompareType
  increased increased_by decreased decreased_by changed unchanged : ScanCompareType

unfoldable pub needs_previous : ScanCompareType → Bool
needs_previous increased = true
needs_previous increased_by = true
needs_previous decreased = true
needs_previous decreased_by = true
needs_previous changed = true
needs_previous unchanged = true
needs_previous _ = false

unfoldable pub is_baseline : ScanCompareType → Bool
is_baseline unknown = true
is_baseline _ = false

unfoldable pub needs_needle : ScanCompareType → Bool
needs_needle unknown = false
needs_needle increased = false
needs_needle decreased = false
needs_needle changed = false
needs_needle unchanged = false
needs_needle _ = true

unfoldable pub compare_from_tag : List ℕ → Option ScanCompareType
unfolding trim to_ascii_lowercase match_text
compare_from_tag tag = match_text (to_ascii_lowercase (trim tag)) (
    ("exact", exact)
    ∷ ("eq", exact)
    ∷ ("equal", exact)
    ∷ ("notequal", not_equal)
    ∷ ("ne", not_equal)
    ∷ ("greater", greater_than)
    ∷ ("gt", greater_than)
    ∷ ("greaterthan", greater_than)
    ∷ ("less", less_than)
    ∷ ("lt", less_than)
    ∷ ("lessthan", less_than)
    ∷ ("between", between)
    ∷ ("unknown", unknown)
    ∷ ("increased", increased)
    ∷ ("inc", increased)
    ∷ ("increasedby", increased_by)
    ∷ ("decreased", decreased)
    ∷ ("dec", decreased)
    ∷ ("decreasedby", decreased_by)
    ∷ ("changed", changed)
    ∷ ("unchanged", unchanged)
    ∷ [])
