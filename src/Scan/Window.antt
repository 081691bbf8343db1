-- ===== src/Scan/Window.antt =====
-- crates/nemclass-scan/src/target.rs: a filter keeps what lies in its window and on its allowlist.
use nemclass.Common.{
  ℕ, ◌≤◌, ◌<◌, min, max, ◌≡◌, refl, sym, ap, ◌∙◌, inl, inr, Bool, true, false, ◌&&◌, ◌||◌, List, [],
  ◌∷◌, arith, ltb, leb, ltb→lt, leb→le, Bool-cases, filter,
}
use nemclass.Scan.Target.{
  Region, region_end, usize_max, RegionFilter, is_empty, is_unrestricted, merged_include, clip,
  clip_all, apply_filter,
}
use nemclass.Scan.Filtered.{
  within, covers, between, any-append, any-sort_by_key, within-interval, region_end-usize, meet,
  meet_empty, covers-cut,
}
use nemclass.Scan.Merged.{
  or_false, and_true, and_false, and_assoc, or-and, covers-merged_include, unlisted,
  is_empty-merged_include,
}

-- What is left of one region.
abbrev pub kept : RegionFilter → ℕ → Bool
kept f a = between f.start f.stop a && (unlisted f || covers f.include a)

covers-clip :
    (a : ℕ) (f : RegionFilter) (r : Region)
    → covers (clip f.start f.stop (merged_include f) r) a ≡ (within a r && kept f a)
unfolding clip within
covers-clip a f r =
    let lo = max r.base f.start in
    let hi = min (region_end r) f.stop in
    let both = meet r.base (region_end r) f.start f.stop a in
    let top : hi ≤ usize_max = omega (arith, region_end-usize r) in
    let listed = covers-merged_include a f in
    let regroup : ((within a r && between f.start f.stop a) && (unlisted f || covers f.include a))
        ≡ (within a r && kept f a) =
      and_assoc (within a r) (between f.start f.stop a) (unlisted f || covers f.include a) in
    elim (Bool-cases (leb hi lo)) [
      | inl nothing ↦
          let outside = meet_empty lo hi a (leb→le hi lo nothing) in
          rw nothing (
            ap (λ b. b && (unlisted f || covers f.include a)) (sym outside)
            ∙ ap (λ b. b && (unlisted f || covers f.include a)) both
            ∙ regroup)
      | inr something ↦ rw something (elim (Bool-cases (is_empty (merged_include f))) [
        | inl free ↦
            let all_free : unlisted f ≡ true = sym (is_empty-merged_include f) ∙ free in
            rw free (
              or_false _
              ∙ within-interval a lo hi (ground arith) top
              ∙ both
              ∙ sym (and_true (within a r && between f.start f.stop a))
              ∙ ap (λ b. (within a r && between f.start f.stop a) && (b || covers f.include a))
                  (sym all_free)
              ∙ regroup)
        | inr bound ↦
            let all_bound : unlisted f ≡ false = sym (is_empty-merged_include f) ∙ bound in
            rw bound (
              covers-cut a lo hi (merged_include f) top
              ∙ ap (λ b. b && covers (merged_include f) a) both
              ∙ ap (λ b. (within a r && between f.start f.stop a) && b) listed
              ∙ ap (λ b. (within a r && between f.start f.stop a) && (b || covers f.include a))
                  (sym all_bound)
              ∙ regroup)
      ])
    ]

covers-clip_all :
    (a : ℕ) (f : RegionFilter) (regions : List Region)
    → covers (clip_all f.start f.stop (merged_include f) regions) a ≡ (covers regions a && kept f a)
unfolding clip_all
covers-clip_all a f [] = refl
covers-clip_all a f (r ∷ regions) =
    any-append (within a) (clip f.start f.stop (merged_include f) r)
      (clip_all f.start f.stop (merged_include f) regions)
    ∙ ap (λ b. b || covers (clip_all f.start f.stop (merged_include f) regions) a)
        (covers-clip a f r)
    ∙ ap (λ b. (within a r && kept f a) || b) (covers-clip_all a f regions)
    ∙ or-and (within a r) (covers regions a) (kept f a)

nothing_listed :
    (a : ℕ) (include : List Region)
    → is_empty include ≡ true
    → (is_empty (filter (λ (r : Region). ltb 0 r.size) include) || covers include a) ≡ true
nothing_listed a [] h = refl
nothing_listed a (r ∷ include) h = ground arith

-- An unrestricted filter keeps every address of a region.
kept-unrestricted :
    (a : ℕ) (f : RegionFilter) → is_unrestricted f ≡ true → a < usize_max → kept f a ≡ true
unfolding is_unrestricted
kept-unrestricted a f h u = ground (arith, nothing_listed a f.include)

within_below : (a : ℕ) (r : Region) → usize_max ≤ a → within a r ≡ false
unfolding within region_end
within_below a r h = ground arith

covers_below : (a : ℕ) (regions : List Region) → usize_max ≤ a → covers regions a ≡ false
covers_below a [] h = refl
covers_below a (r ∷ regions) h =
    ap (λ b. b || covers regions a) (within_below a r h) ∙ covers_below a regions h

covers-unrestricted :
    (a : ℕ) (f : RegionFilter) (regions : List Region)
    → is_unrestricted f ≡ true
    → covers regions a ≡ (covers regions a && kept f a)
covers-unrestricted a f regions h = elim (Bool-cases (ltb a usize_max)) [
  | inl low ↦
      sym (and_true (covers regions a))
      ∙ ap (λ b. covers regions a && b) (sym (kept-unrestricted a f h (ltb→lt a usize_max low)))
  | inr high ↦
      let outside = covers_below a regions (ground arith) in
      outside ∙ ap (λ b. b && kept f a) (sym outside)
]

-- What a filter leaves of the regions covers exactly the addresses that the regions cover, that lie
-- in the filter's window, and that its allowlist covers where a span of the list has a size.
pub covers-apply_filter :
    (f : RegionFilter) (regions : List Region) (a : ℕ)
    → covers (apply_filter f regions) a ≡ (covers regions a && kept f a)
unfolding apply_filter
covers-apply_filter f regions a = elim (Bool-cases (is_unrestricted f)) [
  | inl free ↦ rw free (covers-unrestricted a f regions free)
  | inr bound ↦ rw bound (elim (Bool-cases (leb f.stop f.start)) [
    | inl nothing ↦
        let outside : kept f a ≡ false =
          ap (λ b. b && (unlisted f || covers f.include a))
            (meet_empty f.start f.stop a (leb→le _ _ nothing)) in
        rw nothing
          (sym (and_false (covers regions a)) ∙ ap (λ b. covers regions a && b) (sym outside))
    | inr window ↦ rw window (
        any-sort_by_key (within a) (λ (r : Region). r.base)
          (clip_all f.start f.stop (merged_include f) regions)
        ∙ covers-clip_all a f regions)
  ])
]
