-- ===== src/Scan/Target.antt =====
-- crates/nemclass-scan/src/target.rs: the regions of the target and the filters on them. Sizes and
-- addresses are usize; `end` saturates.
use nemclass.Common.{
  ℕ, ◌+◌, ◌-◌, ◌^◌, min, max, Bool, true, false, ◌&&◌, List, [], ◌∷◌, ◌++◌, ltb, leb, ◌==◌,
  if◌then◌else◌, filter,
}
use nemclass.Common.Sort.{sort_by_key}

abbrev pub usize_max : ℕ
usize_max = 2 ^ 64 - 1

pub record Region : Type 0 where
  pub base : ℕ
  pub size : ℕ

unfoldable pub region_end : Region → ℕ
region_end r = min (r.base + r.size) usize_max

pub record RegionFilter : Type 0 where
  pub start : ℕ
  pub stop : ℕ
  pub include : List Region

abbrev pub default_filter : RegionFilter
default_filter = record { start = 0; stop = usize_max; include = [] }

abbrev pub is_empty {ℓ} : {A : Type ℓ} → List A → Bool
is_empty [] = true
is_empty (x ∷ xs) = false

unfoldable pub is_unrestricted : RegionFilter → Bool
is_unrestricted f = f.start == 0 && f.stop == usize_max && is_empty f.include

-- The accumulator is `merged` with its last span first.
unfoldable pub merge_spans : List Region → List Region → List Region
unfolding region_end
merge_spans merged [] = merged
merge_spans [] (r ∷ spans) = merge_spans (r ∷ []) spans
merge_spans (last ∷ merged) (r ∷ spans) =
    merge_spans
      (if leb r.base (region_end last)
        then record last { size = max (region_end last) (region_end r) - last.base } ∷ merged
        else r ∷ last ∷ merged)
      spans

abbrev pub reversed {ℓ} : {A : Type ℓ} → List A → List A → List A
reversed acc [] = acc
reversed acc (x ∷ xs) = reversed (x ∷ acc) xs

unfoldable pub merged_include : RegionFilter → List Region
unfolding merge_spans sort_by_key
merged_include f =
    reversed []
      (merge_spans [] (sort_by_key (λ (r : Region). r.base) (filter (λ r. ltb 0 r.size) f.include)))

-- `[lo, hi)` cut to each of the spans, where something is left.
unfoldable pub cut : ℕ → ℕ → List Region → List Region
unfolding region_end
cut lo hi [] = []
cut lo hi (inc ∷ include) =
    let a = max lo inc.base in
    let b = min hi (region_end inc) in
    let rest = cut lo hi include in
    if ltb a b then record { base = a; size = b - a } ∷ rest else rest

unfoldable pub clip : ℕ → ℕ → List Region → Region → List Region
unfolding cut
clip start stop include r =
    let lo = max r.base start in
    let hi = min (region_end r) stop in
    if leb hi lo
    then []
    else if is_empty include
    then record { base = lo; size = hi - lo } ∷ []
    else cut lo hi include

unfoldable pub clip_all : ℕ → ℕ → List Region → List Region → List Region
unfolding clip
clip_all start stop include [] = []
clip_all start stop include (r ∷ regions) =
    clip start stop include r ++ clip_all start stop include regions

unfoldable pub apply_filter : RegionFilter → List Region → List Region
unfolding is_unrestricted merged_include clip_all sort_by_key
apply_filter f regions =
    if is_unrestricted f
    then regions
    else if leb f.stop f.start
    then []
    else sort_by_key (λ (r : Region). r.base) (clip_all f.start f.stop (merged_include f) regions)
