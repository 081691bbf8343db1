-- ===== src/Scan/Filtered.antt =====
-- crates/nemclass-scan/src/target.rs: the addresses that are left behind a region filter.
use nemclass.Common.{
  ℕ, ◌+◌, ◌-◌, ◌≤◌, min, max, ◌≡◌, refl, sym, ap, ◌∙◌, inl, inr, Bool, true, false, ◌&&◌, ◌||◌,
  List, [], ◌∷◌, ◌++◌, arith, ltb, leb, Bool-cases, any,
}
use nemclass.Common.Sort.{insert, sort_by_key}
use nemclass.Scan.Target.{Region, region_end, usize_max, is_empty, reversed, cut}

-- The address lies in the region.
unfoldable pub within : ℕ → Region → Bool
unfolding region_end
within a r = leb r.base a && ltb a (region_end r)

abbrev pub covers : List Region → ℕ → Bool
covers regions a = any (within a) regions

abbrev pub between : ℕ → ℕ → ℕ → Bool
between lo hi a = leb lo a && ltb a hi

module _ {ℓ} {A : Type ℓ} where
  pub any-append : (p : A → Bool) (xs ys : List A) → any p (xs ++ ys) ≡ (any p xs || any p ys)
  any-append p [] ys = refl
  any-append p (x ∷ xs) ys = ground (arith, any-append p xs ys)

  any-insert :
      (p : A → Bool) (key : A → ℕ) (x : A) (xs : List A)
      → any p (insert key x xs) ≡ (p x || any p xs)
  unfolding insert
  any-insert p key x [] = refl
  any-insert p key x (y ∷ ys) = ground (arith, any-insert p key x ys)

  pub any-sort_by_key :
      (p : A → Bool) (key : A → ℕ) (xs : List A) → any p (sort_by_key key xs) ≡ any p xs
  unfolding sort_by_key
  any-sort_by_key p key [] = refl
  any-sort_by_key p key (x ∷ xs) =
      any-insert p key x (sort_by_key key xs) ∙ ap (λ b. p x || b) (any-sort_by_key p key xs)

  pub any-reversed :
      (p : A → Bool) (acc xs : List A) → any p (reversed acc xs) ≡ (any p acc || any p xs)
  any-reversed p acc [] = ground arith
  any-reversed p acc (x ∷ xs) = ground (arith, any-reversed p (x ∷ acc) xs)

  pub is_empty-reversed :
      (acc xs : List A) → is_empty (reversed acc xs) ≡ (is_empty acc && is_empty xs)
  is_empty-reversed acc [] = ground arith
  is_empty-reversed acc (x ∷ xs) = ground (arith, is_empty-reversed (x ∷ acc) xs)

  pub is_empty-sort_by_key :
      (key : A → ℕ) (xs : List A) → is_empty (sort_by_key key xs) ≡ is_empty xs
  unfolding sort_by_key insert
  is_empty-sort_by_key key [] = refl
  is_empty-sort_by_key key (x ∷ xs) =
      elim (sort_by_key key xs) as (λ l. is_empty (insert key x l) ≡ false) [
        | [] ↦ refl
        | y ∷ ys ↦ ground arith
      ]

pub within-interval :
    (a lo hi : ℕ)
    → lo ≤ hi
    → hi ≤ usize_max
    → within a (record { base = lo; size = hi - lo }) ≡ between lo hi a
unfolding within region_end
within-interval a lo hi h u =
    let e : min (lo + (hi - lo)) usize_max ≡ hi = omega arith in ap (λ m. leb lo a && ltb a m) e

pub region_end-usize : (r : Region) → region_end r ≤ usize_max
unfolding region_end
region_end-usize r = omega arith

pub meet : (lo hi b e a : ℕ) → between (max lo b) (min hi e) a ≡ (between lo hi a && between b e a)
meet lo hi b e a = ground arith

pub meet_empty : (lo hi a : ℕ) → hi ≤ lo → between lo hi a ≡ false
meet_empty lo hi a h = ground arith

and-or : (p q r : Bool) → ((p && q) || (p && r)) ≡ (p && (q || r))
and-or true q r = refl
and-or false q r = refl

-- The spans cut out of an interval cover what lies in both.
pub covers-cut :
    (a lo hi : ℕ) (include : List Region)
    → hi ≤ usize_max
    → covers (cut lo hi include) a ≡ (between lo hi a && covers include a)
unfolding cut within
covers-cut a lo hi [] u = ground arith
covers-cut a lo hi (inc ∷ include) u =
    let start = max lo inc.base in
    let stop = min hi (region_end inc) in
    let both = meet lo hi inc.base (region_end inc) a in
    let rest = covers-cut a lo hi include u in
    let joined : (between start stop a || covers (cut lo hi include) a)
        ≡ (between lo hi a && covers (inc ∷ include) a) =
      ap (λ b. between start stop a || b) rest
      ∙ ap (λ b. b || (between lo hi a && covers include a)) both
      ∙ and-or (between lo hi a) (within a inc) (covers include a) in
    elim (Bool-cases (ltb start stop)) [
      | inl left ↦
          let ordered : start ≤ stop = ground arith in
          rw left (
            ap (λ b. b || covers (cut lo hi include) a)
              (within-interval a start stop ordered (omega arith))
            ∙ joined)
      | inr none_left ↦
          let nothing : between start stop a ≡ false = meet_empty start stop a (ground arith) in
          rw none_left (ap (λ b. b || covers (cut lo hi include) a) (sym nothing) ∙ joined)
    ]
