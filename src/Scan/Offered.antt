-- ===== src/Scan/Offered.antt =====
-- crates/nemclass-scan/src/target.rs: the bytes of a live process that a session walks, behind both
-- of its filters.
use mathlib.Core.Bool.{false≢true}
use nemclass.Common.{
  ℕ, ◌≤◌, ◌<◌, ◌≡◌, refl, sym, ap, ◌∙◌, ◌↔◌, ◌⊎◌, inl, inr, Bool, true, false, ◌&&◌, ◌||◌, List, [],
  ◌∷◌, map, arith, ltb, ltb→lt, Bool-cases, and_both, filter, any, All,
}
use nemclass.Common.Outcome.{ok}
use nemclass.Process.Section.{
  Section, SectionType, image, mapped, private, unknown, can_write, can_execute, copy_on_write,
}
use nemclass.Scan.Target.{Region, region_end, RegionFilter, apply_filter}
use nemclass.Scan.SectionFilter.{
  FilterState, yes, no, any_state, accepts, SectionFilter, type_ok, keep, region_of,
  offered_regions,
}
use nemclass.Scan.Filtered.{within, covers}
use nemclass.Scan.Window.{kept, covers-apply_filter}

-- A section that passes the filter holds the address.
abbrev held_by : SectionFilter → ℕ → Section → Bool
held_by g a s = keep g s && within a (region_of s)

empty-within : (a : ℕ) (r : Region) → ltb 0 r.size ≡ false → within a r ≡ false
unfolding within region_end
empty-within a r h = ground arith

and_false : (p : Bool) → (p && false) ≡ false
and_false true = refl
and_false false = refl

covers-offered :
    (g : SectionFilter) (a : ℕ) (sections : List Section)
    → covers (map region_of (filter (λ (s : Section). ltb 0 s.size && keep g s) sections)) a
      ≡ any (held_by g a) sections
covers-offered g a [] = refl
covers-offered g a (s ∷ sections) =
    let rest = covers-offered g a sections in
    elim (Bool-cases (ltb 0 s.size)) [
      | inr no_size ↦
          rw (no_size, filter)
            (rest
              ∙ sym (
                  ap (λ b. b || any (held_by g a) sections)
                    (ap (λ b. keep g s && b) (empty-within a (region_of s) no_size)
                      ∙ and_false (keep g s))))
      | inl some_size ↦ elim (Bool-cases (keep g s)) [
        | inl passes ↦ rw (some_size, passes, filter) (ap (λ b. within a (region_of s) || b) rest)
        | inr fails ↦ rw (some_size, fails, filter) rest
      ]
    ]

-- What a section filter asks of a flag, of a kind and of a section.
abbrev pub IsState : FilterState → Bool → Type 0
IsState yes has = has ≡ true
IsState no has = has ≡ false
IsState any_state has = Unit {0}

abbrev pub IsWanted : SectionFilter → SectionType → Type 0
IsWanted g private = g.scan_private ≡ true
IsWanted g image = g.scan_image ≡ true
IsWanted g mapped = g.scan_mapped ≡ true
IsWanted g unknown = ⊥

pub record IsScanned (g : SectionFilter) (s : Section) : Type 0 where
  pub wanted : IsWanted g s.kind
  pub writes : IsState g.writable (can_write s.prot)
  pub executes : IsState g.executable (can_execute s.prot)
  pub copies : IsState g.copies_on_write (copy_on_write s.prot)

-- A section that is scanned holds the address.
abbrev pub IsHeld : SectionFilter → ℕ → Section → Type 0
IsHeld g a s = IsScanned g s × (s.base ≤ a) × (a < region_end (region_of s))

abbrev pub AnyOf : (Section → Type 0) → List Section → Type 0
AnyOf P [] = ⊥
AnyOf P (s ∷ sections) = P s ⊎ AnyOf P sections

accepts-IsState :
    (state : FilterState) (has : Bool) → (accepts state has ≡ true) ↔ IsState state has
unfolding accepts
accepts-IsState yes has = (λ h. h, λ h. h)
accepts-IsState no true = (λ h. absurd (false≢true h), λ h. absurd (false≢true (sym h)))
accepts-IsState no false = (λ h. refl, λ h. refl)
accepts-IsState any_state has = (λ h. tt, λ h. refl)

type_ok-IsWanted :
    (g : SectionFilter) (kind : SectionType) → (type_ok g kind ≡ true) ↔ IsWanted g kind
type_ok-IsWanted g private = (λ h. h, λ h. h)
type_ok-IsWanted g image = (λ h. h, λ h. h)
type_ok-IsWanted g mapped = (λ h. h, λ h. h)
type_ok-IsWanted g unknown = (λ h. absurd (false≢true h), λ h. absurd h)

keep-IsScanned : (g : SectionFilter) (s : Section) → (keep g s ≡ true) ↔ IsScanned g s
unfolding keep
keep-IsScanned g s = (
  λ h.
      let t = type_ok g s.kind in
      let w = accepts g.writable (can_write s.prot) in
      let x = accepts g.executable (can_execute s.prot) in
      let c = accepts g.copies_on_write (copy_on_write s.prot) in
      let (twx, c_holds) = and_both (t && w && x) c h in
      let (tw, x_holds) = and_both (t && w) x twx in
      let (t_holds, w_holds) = and_both t w tw in
      record {
        wanted = (type_ok-IsWanted g s.kind).0 t_holds;
        writes = (accepts-IsState g.writable (can_write s.prot)).0 w_holds;
        executes = (accepts-IsState g.executable (can_execute s.prot)).0 x_holds;
        copies = (accepts-IsState g.copies_on_write (copy_on_write s.prot)).0 c_holds;
      },
  λ v. rw ((type_ok-IsWanted g s.kind).1 v.wanted) (
      rw ((accepts-IsState g.writable (can_write s.prot)).1 v.writes) (
        rw ((accepts-IsState g.executable (can_execute s.prot)).1 v.executes)
          ((accepts-IsState g.copies_on_write (copy_on_write s.prot)).1 v.copies))),
)

within_iff : (a : ℕ) (r : Region) → (within a r ≡ true) ↔ ((r.base ≤ a) × (a < region_end r))
unfolding within
within_iff a r = (λ h. (ground arith, ground arith), λ h. ground (arith, h.0, h.1))

held_by_iff : (g : SectionFilter) (a : ℕ) (s : Section) → (held_by g a s ≡ true) ↔ IsHeld g a s
held_by_iff g a s = (
  λ h.
      let (kept_here, inside) = and_both (keep g s) (within a (region_of s)) h in
      let (above, below) = (within_iff a (region_of s)).0 inside in
      ((keep-IsScanned g s).0 kept_here, above, below),
  λ h. rw ((keep-IsScanned g s).1 h.0) ((within_iff a (region_of s)).1 (h.1, h.2)),
)

or_true : (b : Bool) → (b || true) ≡ true
or_true true = refl
or_true false = refl

any-AnyOf :
    (g : SectionFilter) (a : ℕ) (sections : List Section)
    → (any (held_by g a) sections ≡ true) ↔ AnyOf (IsHeld g a) sections
any-AnyOf g a [] = (λ h. absurd (false≢true h), λ h. absurd h)
any-AnyOf g a (s ∷ sections) = (
  λ h. elim (Bool-cases (held_by g a s)) [
    | inl here ↦ inl ((held_by_iff g a s).0 here)
    | inr elsewhere ↦ inr ((any-AnyOf g a sections).0 (rw elsewhere at h))
  ],
  λ h. elim h [
    | inl here ↦ rw ((held_by_iff g a s).1 here) refl
    | inr later ↦ rw ((any-AnyOf g a sections).1 later) (or_true (held_by g a s))
  ],
)

offered-sized :
    (g : SectionFilter) (sections : List Section)
    → All
        (λ (r : Region). 0 < r.size)
        (map region_of (filter (λ (s : Section). ltb 0 s.size && keep g s) sections))
offered-sized g [] = tt
offered-sized g (s ∷ sections) = elim (Bool-cases (ltb 0 s.size && keep g s)) [
  | inl passes ↦
      rw (passes, filter)
        (ltb→lt 0 s.size (and_both (ltb 0 s.size) (keep g s) passes).0, offered-sized g sections)
  | inr fails ↦ rw (fails, filter) (offered-sized g sections)
]

-- A live process offers only regions that have a size; and a session's region filter leaves of them
-- exactly the addresses that it keeps and that some section holds which the section filter wants: by
-- its kind, never an unknown one, and with each of the three flags set, clear or either, as the filter
-- says.
pub offered_regions-filtered :
    (g : SectionFilter) (f : RegionFilter) (sections : List Section)
    → (regions : List Region) × (offered_regions g (ok sections) ≡ ok regions)
      × All (λ (r : Region). 0 < r.size) regions
      × ((a : ℕ)
          → (covers (apply_filter f regions) a ≡ true)
            ↔ (AnyOf (IsHeld g a) sections × (kept f a ≡ true)))
unfolding offered_regions
offered_regions-filtered g f sections =
    let regions = map region_of (filter (λ (s : Section). ltb 0 s.size && keep g s) sections) in
    (regions, refl, offered-sized g sections, λ a. left_over a)
  where
    left_over :
        (a : ℕ)
        → (covers
              (apply_filter f
                (map region_of (filter (λ (s : Section). ltb 0 s.size && keep g s) sections)))
              a
            ≡ true)
          ↔ (AnyOf (IsHeld g a) sections × (kept f a ≡ true))
    left_over a =
        let regions = map region_of (filter (λ (s : Section). ltb 0 s.size && keep g s) sections) in
        let same : covers (apply_filter f regions) a ≡ (any (held_by g a) sections && kept f a) =
          covers-apply_filter f regions a ∙ ap (λ b. b && kept f a) (covers-offered g a sections) in
        (
          λ h.
              let (held, stays) = and_both (any (held_by g a) sections) (kept f a) (sym same ∙ h) in
              ((any-AnyOf g a sections).0 held, stays),
          λ h. same ∙ rw ((any-AnyOf g a sections).1 h.0) h.1,
        )
