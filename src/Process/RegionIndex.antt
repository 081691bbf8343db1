-- ===== src/Process/RegionIndex.antt =====
-- crates/nemclass-core/src/internal/analysis/region_index.rs
use nemclass.Common.{
  ℕ, ◌+◌, min, Bool, true, not, Option, none, some, List, [], ◌∷◌, map, ltb, leb, ◌==◌,
  if◌then◌else◌, is_some_and, filter,
}
use nemclass.Common.Sort.{sort_by_key}
use nemclass.Scan.Target.{usize_max}
use nemclass.Process.Section.{Section, can_execute}

pub data AddrClass : Type 0 where
  unmapped : AddrClass
  data_in executable_in : Option (List ℕ) → AddrClass

pub record Range : Type 0 where
  pub start : ℕ
  pub end_ : ℕ
  pub prot : ℕ
  pub module_name : Option (List ℕ)

abbrev pub RegionIndex : Type 0
RegionIndex = List Range

abbrev pub range_of : Section → Range
range_of s = record {
  start = s.base;
  end_ = min (s.base + s.size) usize_max;
  prot = s.prot;
  module_name = s.module_name;
}

-- The ranges of the sections that have a size.
unfoldable pub ranges_of : List Section → List Range
ranges_of sections = map range_of (filter (λ (s : Section). not (s.size == 0)) sections)

unfoldable pub from_sections : List Section → RegionIndex
unfolding ranges_of sort_by_key
from_sections sections = sort_by_key (λ (r : Range). r.start) (ranges_of sections)

-- The range before `partition_point(|r| r.start <= addr)`.
abbrev pub last_started : Option Range → List Range → ℕ → Option Range
last_started found [] addr = found
last_started found (r ∷ ranges) addr =
    let rest = last_started (some r) ranges addr in if leb r.start addr then rest else found

abbrev pub not_past : Option Range → ℕ → Option Range
not_past none addr = none
not_past (some r) addr = if ltb addr r.end_ then some r else none

unfoldable pub covering : RegionIndex → ℕ → Option Range
covering ranges addr = not_past (last_started none ranges addr) addr

abbrev pub class_of : Option Range → AddrClass
class_of none = AddrClass.unmapped
class_of (some r) =
    if can_execute r.prot
    then AddrClass.executable_in r.module_name
    else AddrClass.data_in r.module_name

unfoldable pub classify : RegionIndex → ℕ → AddrClass
unfolding covering
classify index addr = class_of (covering index addr)

unfoldable pub is_executable : RegionIndex → ℕ → Bool
unfolding covering
is_executable index addr = is_some_and (covering index addr) (λ r. can_execute r.prot)

unfoldable pub is_mapped_in : RegionIndex → ℕ → Bool
unfolding covering
is_mapped_in index addr = is_some_and (covering index addr) (λ r. true)
