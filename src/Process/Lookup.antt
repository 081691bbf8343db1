-- ===== src/Process/Lookup.antt =====
-- The index finds the section that an address lies in, where the sections do not overlap.
use nemclass.Common.{
  ℕ, ◌≤◌, ◌<◌, ◌≡◌, refl, sym, ap, ◌∙◌, ◌⊎◌, inl, inr, Bool, true, false, ◌&&◌, Option, none, some,
  List, [], ◌∷◌, arith, ltb, leb, leb→le, Bool-cases, find, All,
}
use nemclass.Common.Sort.{insert, sort_by_key, IsSorted, All-sort_by_key, sort_by_key-IsSorted}
use nemclass.Process.Section.{Section}
use nemclass.Process.RegionIndex.{
  Range, ranges_of, from_sections, last_started, not_past, covering, class_of, classify,
}

abbrev pub holds_addr : ℕ → Range → Bool
holds_addr addr r = leb r.start addr && ltb addr r.end_

abbrev Apart : Range → Range → Type 0
Apart a b = (a.start < a.end_) × (b.start < b.end_) × ((a.end_ ≤ b.start) ⊎ (b.end_ ≤ a.start))

-- The ranges hold a byte each and no byte twice.
abbrev pub Disjoint : List Range → Type 0
Disjoint [] = Unit {0}
Disjoint (r ∷ ranges) = All (Apart r) ranges × Disjoint ranges

abbrev by_start : Range → ℕ
by_start r = r.start

Apart-sym : (a b : Range) → Apart a b → Apart b a
Apart-sym a b (ha, hb, inl l) = (hb, ha, inr l)
Apart-sym a b (ha, hb, inr l) = (hb, ha, inl l)

holds_once :
    (addr : ℕ) (a b : Range) → Apart a b → holds_addr addr a ≡ true → holds_addr addr b ≡ false
holds_once addr a b (ha, hb, inl l) h = ground arith
holds_once addr a b (ha, hb, inr l) h = ground arith

All-insert :
    (x r : Range) (ranges : List Range)
    → Apart r x
    → All (Apart r) ranges
    → All (Apart r) (insert by_start x ranges)
unfolding insert
All-insert x r [] p h = (p, tt)
All-insert x r (y ∷ ys) p h = elim (Bool-cases (leb x.start y.start)) [
  | inl first ↦ rw first (p, h)
  | inr later ↦ rw later (h.0, All-insert x r ys p h.1)
]

insert-Disjoint :
    (x : Range) (ranges : List Range)
    → All (Apart x) ranges
    → Disjoint ranges
    → Disjoint (insert by_start x ranges)
unfolding insert
insert-Disjoint x [] h d = (tt, tt)
insert-Disjoint x (y ∷ ys) h d = elim (Bool-cases (leb x.start y.start)) [
  | inl first ↦ rw first (h, d)
  | inr later ↦ rw later (All-insert x y ys (Apart-sym x y h.0) d.0, insert-Disjoint x ys h.1 d.1)
]

sort-Disjoint : (ranges : List Range) → Disjoint ranges → Disjoint (sort_by_key by_start ranges)
unfolding sort_by_key
sort-Disjoint [] d = tt
sort-Disjoint (x ∷ xs) d =
    insert-Disjoint x (sort_by_key by_start xs) (All-sort_by_key by_start (Apart x) xs d.0)
      (sort-Disjoint xs d.1)

module _ (addr : ℕ) where
  abbrev finds : List Range → Option Range
  finds = find (holds_addr addr)

  find-hit : (x : Range) (xs : List Range) → holds_addr addr x ≡ true → finds (x ∷ xs) ≡ some x
  find-hit x xs h = rw (h, find)

  find-miss : (x : Range) (xs : List Range) → holds_addr addr x ≡ false → finds (x ∷ xs) ≡ finds xs
  find-miss x xs h = rw (h, find)

  -- Of two ranges apart, the order does not matter.
  find_swap :
      (x y : Range) (xs ys : List Range)
      → Apart x y
      → finds xs ≡ finds (x ∷ ys)
      → finds (y ∷ xs) ≡ finds (x ∷ y ∷ ys)
  find_swap x y xs ys p e = elim (Bool-cases (holds_addr addr x)) [
    | inl here ↦
        find-miss y xs (holds_once addr x y p here)
        ∙ e
        ∙ find-hit x ys here
        ∙ sym (find-hit x (y ∷ ys) here)
    | inr elsewhere ↦ elim (Bool-cases (holds_addr addr y)) [
      | inl there ↦
          find-hit y xs there ∙ sym (find-hit y ys there) ∙ sym (find-miss x (y ∷ ys) elsewhere)
      | inr nowhere ↦
          find-miss y xs nowhere
          ∙ e
          ∙ find-miss x ys elsewhere
          ∙ sym (find-miss y ys nowhere)
          ∙ sym (find-miss x (y ∷ ys) elsewhere)
    ]
  ]

  find-insert :
      (x : Range) (ranges : List Range)
      → All (Apart x) ranges
      → finds (insert by_start x ranges) ≡ finds (x ∷ ranges)
  unfolding insert
  find-insert x [] h = refl
  find-insert x (y ∷ ys) h = elim (Bool-cases (leb x.start y.start)) [
    | inl first ↦ rw first refl
    | inr later ↦ rw later (find_swap x y (insert by_start x ys) ys h.0 (find-insert x ys h.1))
  ]

  find-cons :
      (x : Range) (xs ys : List Range) → finds xs ≡ finds ys → finds (x ∷ xs) ≡ finds (x ∷ ys)
  find-cons x xs ys e = elim (Bool-cases (holds_addr addr x)) [
    | inl here ↦ find-hit x xs here ∙ sym (find-hit x ys here)
    | inr elsewhere ↦ find-miss x xs elsewhere ∙ e ∙ sym (find-miss x ys elsewhere)
  ]

  find-sort_by_key :
      (ranges : List Range) → Disjoint ranges → finds (sort_by_key by_start ranges) ≡ finds ranges
  unfolding sort_by_key
  find-sort_by_key [] d = refl
  find-sort_by_key (x ∷ xs) d =
      find-insert x (sort_by_key by_start xs) (All-sort_by_key by_start (Apart x) xs d.0)
      ∙ find-cons x (sort_by_key by_start xs) xs (find-sort_by_key xs d.1)

  -- Ranges that start behind the address do not hold it.
  find_behind :
      (low : ℕ) (ranges : List Range)
      → addr < low
      → All (λ r. low ≤ by_start r) ranges
      → finds ranges ≡ none
  find_behind low [] h k = refl
  find_behind low (x ∷ xs) h k = find-miss x xs (ground arith) ∙ find_behind low xs h k.1

  -- The walk past a range that starts at the address or before it.
  last_started_lem :
      (a : Range) (ranges : List Range)
      → a.start ≤ addr
      → All (Apart a) ranges
      → Disjoint ranges
      → IsSorted by_start (a ∷ ranges)
      → not_past (last_started (some a) ranges addr) addr ≡ finds (a ∷ ranges)
  last_started_lem a [] h p d s = ground arith
  last_started_lem a (x ∷ xs) h p d s = elim (Bool-cases (leb x.start addr)) [
    | inl started ↦
        let below : x.start ≤ addr = leb→le x.start addr started in
        rw started (
          last_started_lem x xs below d.0 d.1 s.1
          ∙ sym (find-miss a (x ∷ xs) (past a x p.0 s.0.0 below)))
    | inr later ↦
        let behind : addr < x.start = ground arith in
        let none_later = find_behind x.start (x ∷ xs) behind (omega arith, s.1.0) in
        rw later (elim (Bool-cases (ltb addr a.end_)) [
          | inl inside ↦ rw inside (sym (find-hit a (x ∷ xs) (ground arith)))
          | inr outside ↦ rw outside (sym (find-miss a (x ∷ xs) (ground arith) ∙ none_later))
        ])
  ]
    where
      past :
          (a x : Range) → Apart a x → a.start ≤ x.start → x.start ≤ addr → holds_addr addr a ≡ false
      past a x (ha, hx, inl l) below h = ground arith
      past a x (ha, hx, inr l) below h = absurd (omega arith)

  covering_lem :
      (ranges : List Range)
      → Disjoint ranges
      → IsSorted by_start ranges
      → covering ranges addr ≡ finds ranges
  unfolding covering
  covering_lem [] d s = refl
  covering_lem (x ∷ xs) d s = elim (Bool-cases (leb x.start addr)) [
    | inl started ↦ rw started (last_started_lem x xs (leb→le x.start addr started) d.0 d.1 s)
    | inr later ↦
        let behind : addr < x.start = ground arith in
        rw later (sym (find_behind x.start (x ∷ xs) behind (omega arith, s.0)))
  ]

-- Where the sections that have a size do not overlap, in whatever order they come, an address is
-- classified by the section that holds it, and as unmapped where none does.
pub classify-from_sections :
    (sections : List Section) (addr : ℕ)
    → Disjoint (ranges_of sections)
    → classify (from_sections sections) addr
      ≡ class_of (find (holds_addr addr) (ranges_of sections))
unfolding classify from_sections
classify-from_sections sections addr d =
    let ranges = ranges_of sections in
    ap class_of (
      covering_lem addr (sort_by_key by_start ranges) (sort-Disjoint ranges d)
        (sort_by_key-IsSorted by_start ranges)
      ∙ find-sort_by_key addr ranges d)
