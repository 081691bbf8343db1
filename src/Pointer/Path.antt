-- ===== src/Pointer/Path.antt =====
-- crates/nemclass-scan/src/pointerscan.rs: the settings of a scan, a path of pointers, and ranges.
use nemclass.Common.{
  ℕ, ◌+◌, ◌*◌, ◌^◌, Bool, Option, none, some, List, [], ◌∷◌, map, ltb, leb, if◌then◌else◌,
  is_some_and, take,
}
use nemclass.Common.Sort.{sort_by_key}
use nemclass.Scan.ValueType.{le_value}
use nemclass.Scan.Target.{Region, region_end, usize_max}

infixl 10 ◌>>=◌
abbrev pub ◌>>=◌ {ℓ κ} : {A : Type ℓ} {B : Type κ} → Option A → (A → Option B) → Option B
none >>= f = none
some a >>= f = f a

pub record PointerScanConfig : Type 0 where
  pub max_depth : ℕ
  pub max_offset : ℕ
  pub alignment : ℕ
  pub pointer_size : ℕ
  pub static_ranges : List Region
  pub max_results : ℕ
  pub max_map_entries : ℕ

-- `Default`
abbrev pub default_config : PointerScanConfig
default_config = record {
  max_depth = 5;
  max_offset = 0x1000;
  alignment = 4;
  pointer_size = 8;
  static_ranges = [];
  max_results = 5000;
  max_map_entries = 8_000_000;
}

pub record PointerPath : Type 0 where
  pub base : ℕ
  pub offsets : List ℕ

unfoldable pub checked_add : ℕ → ℕ → Option ℕ
checked_add a b = if leb (a + b) usize_max then some (a + b) else none

module _ (read_ptr : ℕ → Option ℕ) where
  -- The loop of `resolve`: every offset is added, and what stands there is read but for the last.
  unfoldable pub follow : ℕ → List ℕ → Option ℕ
  unfolding checked_add
  follow addr [] = some addr
  follow addr (off ∷ []) = checked_add addr off
  follow addr (off ∷ next ∷ offsets) = do
    stepped ← checked_add addr off
    value ← read_ptr stepped
    follow value (next ∷ offsets)

  unfoldable pub resolve : PointerPath → Option ℕ
  unfolding follow
  resolve path = do addr ← read_ptr path.base; follow addr path.offsets

-- `partition_point(|&(base, _)| base <= addr)` and the range before it.
abbrev last_from : Option ℕ → List (ℕ × ℕ) → ℕ → Option ℕ
last_from found [] addr = found
last_from found ((base, end_) ∷ ranges) addr =
    let rest = last_from (some end_) ranges addr in if leb base addr then rest else found

unfoldable pub is_mapped : List (ℕ × ℕ) → ℕ → Bool
is_mapped ranges addr = is_some_and (last_from none ranges addr) (λ end_. ltb addr end_)

-- Pairs are ordered by the base and then by the end.
abbrev pub range_key : ℕ × ℕ → ℕ
range_key r = r.0 * 2 ^ 64 + r.1

unfoldable pub static_ranges_sorted : PointerScanConfig → List (ℕ × ℕ)
unfolding sort_by_key region_end
static_ranges_sorted cfg =
    sort_by_key range_key (map (λ (r : Region). (r.base, region_end r)) cfg.static_ranges)

-- Up to 8 bytes.
unfoldable pub read_word : List ℕ → ℕ
unfolding le_value
read_word bytes = le_value (take 8 bytes)
