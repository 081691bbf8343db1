-- ===== src/Examples/Chains.antt =====
-- Pointer scans: tests and instances.
use nemclass.Common.{
  ℕ, ◌≤◌, ◌≡◌, refl, false, Option, none, some, [], ◌∷◌, arith, ◌==◌, if◌then◌else◌, length, All,
}
use nemclass.Common.Sort.{insert, sort_by_key}
use nemclass.Scan.Target.{region_end}
use nemclass.Pointer.Path.{PointerScanConfig, default_config, static_ranges_sorted, is_mapped}
use nemclass.Pointer.Search.{PointerMap, find_paths, solve, hops, range}
use nemclass.Pointer.Chains.{IsChain, find_paths-All}
use nemclass.Pointer.Bounded.{length-find_paths}

-- 4096 holds 8192, and 8200 holds 12288; 4096 lies in a module.
abbrev cells : ℕ → Option ℕ
cells a = if a == 4096 then some 8192 else if a == 8200 then some 12288 else none

abbrev pointers : PointerMap
pointers = record { entries = (8192, 4096) ∷ (12288, 8200) ∷ []; truncated = false }

abbrev settings : PointerScanConfig
settings = record default_config { static_ranges = record { base = 4000; size = 200 } ∷ [] }

find_paths_test :
    (find_paths pointers 12300 settings).paths ≡ record { base = 4096; offsets = 8 ∷ 12 ∷ [] } ∷ []
unfolding find_paths solve hops range static_ranges_sorted is_mapped sort_by_key insert region_end
find_paths_test = refl

find_paths-All_example :
    All (IsChain cells settings 12300) (find_paths pointers 12300 settings).paths
find_paths-All_example =
    find_paths-All cells settings 12300 pointers (omega arith)
      (((omega arith, tt), (tt, tt)), ((refl, omega arith), ((refl, omega arith), tt)))

length-find_paths_example : length (find_paths pointers 12300 settings).paths ≤ 5000
length-find_paths_example = length-find_paths pointers 12300 settings

-- Only the last range that starts before the address is looked at.
nested_range_missed : is_mapped ((0, 100) ∷ (10, 20) ∷ []) 50 ≡ false
unfolding is_mapped
nested_range_missed = refl
