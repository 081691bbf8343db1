-- ===== src/Scan/Merged.antt =====
-- crates/nemclass-scan/src/target.rs: the merged allowlist covers what the allowlist covers.
use nemclass.Common.{
  ℕ, ◌-◌, ◌≤◌, max, ◌≡◌, refl, sym, ap, ◌∙◌, inl, inr, Bool, true, false, ◌&&◌, ◌||◌, List, [], ◌∷◌,
  arith, ltb, leb, leb→le, Bool-cases, filter, All,
}
use nemclass.Common.Sort.{sort_by_key, IsSorted, sort_by_key-IsSorted}
use nemclass.Scan.Target.{Region, region_end, RegionFilter, is_empty, merge_spans, merged_include}
use nemclass.Scan.Filtered.{
  within, covers, any-sort_by_key, any-reversed, is_empty-reversed, is_empty-sort_by_key,
  within-interval, region_end-usize, meet_empty,
}

-- Two spans that overlap or abut cover what their join covers.
within-joined :
    (a : ℕ) (last r : Region)
    → last.base ≤ r.base
    → r.base ≤ region_end last
    → within a (record last { size = max (region_end last) (region_end r) - last.base })
      ≡ (within a r || within a last)
unfolding within
within-joined a last r h k =
    within-interval a last.base (max (region_end last) (region_end r)) (omega arith)
      (omega (arith, region_end-usize last, region_end-usize r))
    ∙ ground arith

-- The spans still to be merged start behind the last one.
unfoldable Behind : List Region → List Region → Type 0
Behind [] spans = Unit {0}
Behind (last ∷ merged) spans = All (λ (r : Region). last.base ≤ r.base) spans

pub regroup : (p q r s : Bool) → (((p || q) || r) || s) ≡ ((q || r) || (p || s))
regroup true true r s = refl
regroup true false true s = refl
regroup true false false s = refl
regroup false true r s = refl
regroup false false r s = refl

regroup_apart : (p q r s : Bool) → ((p || (q || r)) || s) ≡ ((q || r) || (p || s))
regroup_apart true true r s = refl
regroup_apart true false true s = refl
regroup_apart true false false s = refl
regroup_apart false q r s = refl

pub or_false : (p : Bool) → (p || false) ≡ p
or_false true = refl
or_false false = refl

pub and_true : (p : Bool) → (p && true) ≡ p
and_true true = refl
and_true false = refl

pub and_false : (p : Bool) → (p && false) ≡ false
and_false true = refl
and_false false = refl

pub and_assoc : (p q r : Bool) → ((p && q) && r) ≡ (p && (q && r))
and_assoc true q r = refl
and_assoc false q r = refl

pub or-and : (p q r : Bool) → ((p && r) || (q && r)) ≡ ((p || q) && r)
or-and true q true = refl
or-and true q false = and_false q
or-and false q r = refl

covers-merge_spans :
    (a : ℕ) (merged spans : List Region)
    → IsSorted (λ (r : Region). r.base) spans
    → Behind merged spans
    → covers (merge_spans merged spans) a ≡ (covers merged a || covers spans a)
unfolding merge_spans Behind
covers-merge_spans a [] [] s b = refl
covers-merge_spans a (last ∷ merged) [] s b = sym (or_false (covers (last ∷ merged) a))
covers-merge_spans a [] (r ∷ spans) s b =
    covers-merge_spans a (r ∷ []) spans s.1 s.0
    ∙ ap (λ c. c || covers spans a) (or_false (within a r))
covers-merge_spans a (last ∷ merged) (r ∷ spans) s b =
    elim (Bool-cases (leb r.base (region_end last))) [
      | inl joins ↦
          let new : Region = record last {
            size = max (region_end last) (region_end r) - last.base;
          } in
          rw joins (
            covers-merge_spans a (new ∷ merged) spans s.1 b.1
            ∙ ap (λ c. (c || covers merged a) || covers spans a)
                (within-joined a last r b.0 (leb→le _ _ joins))
            ∙ regroup (within a r) (within a last) (covers merged a) (covers spans a))
      | inr apart ↦ rw apart (
          covers-merge_spans a (r ∷ last ∷ merged) spans s.1 s.0
          ∙ regroup_apart (within a r) (within a last) (covers merged a) (covers spans a))
    ]

is_empty-merge_spans :
    (merged spans : List Region)
    → is_empty (merge_spans merged spans) ≡ (is_empty merged && is_empty spans)
unfolding merge_spans
is_empty-merge_spans [] [] = refl
is_empty-merge_spans (last ∷ merged) [] = refl
is_empty-merge_spans [] (r ∷ spans) = is_empty-merge_spans (r ∷ []) spans
is_empty-merge_spans (last ∷ merged) (r ∷ spans) =
    elim (Bool-cases (leb r.base (region_end last))) [
      | inl joins ↦ rw joins (
          is_empty-merge_spans
            (record last { size = max (region_end last) (region_end r) - last.base } ∷ merged)
            spans)
      | inr apart ↦ rw apart (is_empty-merge_spans (r ∷ last ∷ merged) spans)
    ]

-- Spans of no size cover nothing.
covers-nonempty :
    (a : ℕ) (spans : List Region)
    → covers (filter (λ (r : Region). ltb 0 r.size) spans) a ≡ covers spans a
unfolding within region_end
covers-nonempty a [] = refl
covers-nonempty a (r ∷ spans) = elim (Bool-cases (ltb 0 r.size)) [
  | inl some_size ↦ rw (some_size, filter) (ap (λ b. within a r || b) (covers-nonempty a spans))
  | inr no_size ↦
      let outside : within a r ≡ false = meet_empty r.base (region_end r) a (ground arith) in
      rw (no_size, filter) (covers-nonempty a spans ∙ sym (ap (λ b. b || covers spans a) outside))
]

pub covers-merged_include :
    (a : ℕ) (f : RegionFilter) → covers (merged_include f) a ≡ covers f.include a
unfolding merged_include Behind
covers-merged_include a f =
    let spans = filter (λ (r : Region). ltb 0 r.size) f.include in
    let ordered = sort_by_key (λ (r : Region). r.base) spans in
    any-reversed (within a) [] (merge_spans [] ordered)
    ∙ covers-merge_spans a [] ordered (sort_by_key-IsSorted (λ (r : Region). r.base) spans) tt
    ∙ any-sort_by_key (within a) (λ (r : Region). r.base) spans
    ∙ covers-nonempty a f.include

-- An allowlist that names no byte is no restriction.
abbrev pub unlisted : RegionFilter → Bool
unlisted f = is_empty (filter (λ (r : Region). ltb 0 r.size) f.include)

pub is_empty-merged_include : (f : RegionFilter) → is_empty (merged_include f) ≡ unlisted f
unfolding merged_include
is_empty-merged_include f =
    let spans = filter (λ (r : Region). ltb 0 r.size) f.include in
    is_empty-reversed [] (merge_spans [] (sort_by_key (λ (r : Region). r.base) spans))
    ∙ is_empty-merge_spans [] (sort_by_key (λ (r : Region). r.base) spans)
    ∙ is_empty-sort_by_key (λ (r : Region). r.base) spans
