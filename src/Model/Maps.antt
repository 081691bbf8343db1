-- ===== src/Model/Maps.antt =====
-- crates/nemclass-model/src/project.rs: the laws of the map of classes, and of lists of ids.
use nemclass.Common.{
  ℕ, ◌≡◌, refl, ◌∙◌, inl, inr, Bool, true, false, not, ◌&&◌, ◌||◌, none, some, List, [], ◌∷◌, ◌++◌,
  map, arith, ◌==◌, if◌then◌else◌, Bool-cases, is_some_and, filter, any,
}
use nemclass.Model.Project.{ClassNode, Classes, find_class, put_class, drop_class}

abbrev pub elem : ℕ → List ℕ → Bool
elem x xs = any (λ y. y == x) xs

abbrev pub IsDistinct : List ℕ → Type 0
IsDistinct [] = Unit {0}
IsDistinct (x ∷ xs) = (elem x xs ≡ false) × IsDistinct xs

abbrev pub keys : Classes → List ℕ
keys classes = map (λ (e : ℕ × ClassNode). e.0) classes

pub elem-append : (x : ℕ) (xs ys : List ℕ) → elem x (xs ++ ys) ≡ (elem x xs || elem x ys)
elem-append x [] ys = refl
elem-append x (y ∷ xs) ys = ground (arith, elem-append x xs ys)

pub elem-filter :
    (x u : ℕ) (xs : List ℕ) → elem x (filter (λ y. not (y == u)) xs) ≡ (not (x == u) && elem x xs)
elem-filter x u [] = ground arith
elem-filter x u (y ∷ xs) = ground (arith, elem-filter x u xs)

pub filter-IsDistinct :
    (u : ℕ) (xs : List ℕ) → IsDistinct xs → IsDistinct (filter (λ y. not (y == u)) xs)
filter-IsDistinct u [] h = tt
filter-IsDistinct u (x ∷ xs) h = elim (Bool-cases (x == u)) [
  | inl dropped ↦ rw (dropped, filter) (filter-IsDistinct u xs h.1)
  | inr kept ↦
      rw (kept, filter) ((elem-filter x u xs ∙ ground (arith, h.0), filter-IsDistinct u xs h.1))
]

pub snoc-IsDistinct :
    (x : ℕ) (xs : List ℕ) → elem x xs ≡ false → IsDistinct xs → IsDistinct (xs ++ (x ∷ []))
snoc-IsDistinct x [] h d = (refl, tt)
snoc-IsDistinct x (y ∷ xs) h d =
    (elem-append y xs (x ∷ []) ∙ ground (arith, d.0), snoc-IsDistinct x xs (ground arith) d.1)

-- A key is present just where a lookup finds it.
pub elem-keys :
    (classes : Classes) (u : ℕ)
    → elem u (keys classes) ≡ is_some_and (find_class classes u) (λ c. true)
unfolding find_class
elem-keys [] u = refl
elem-keys ((k, c) ∷ classes) u = ground (arith, elem-keys classes u)

pub find_class-put_class :
    (classes : Classes) (u v : ℕ) (c : ClassNode)
    → find_class (put_class classes u c) v ≡ (if v == u then some c else find_class classes v)
unfolding find_class put_class
find_class-put_class [] u v c = ground arith
find_class-put_class ((k, old) ∷ classes) u v c = ground (arith, find_class-put_class classes u v c)

pub find_class-drop_class :
    (classes : Classes) (u v : ℕ)
    → find_class (drop_class classes u) v ≡ (if v == u then none else find_class classes v)
unfolding find_class drop_class
find_class-drop_class [] u v = ground arith
find_class-drop_class ((k, old) ∷ classes) u v = ground (arith, find_class-drop_class classes u v)

pub keys-drop_class :
    (classes : Classes) (u : ℕ)
    → keys (drop_class classes u) ≡ filter (λ y. not (y == u)) (keys classes)
unfolding drop_class
keys-drop_class [] u = refl
keys-drop_class ((k, c) ∷ classes) u = ground (arith, keys-drop_class classes u)

pub elem-put_class :
    (classes : Classes) (u v : ℕ) (c : ClassNode)
    → elem v (keys (put_class classes u c)) ≡ (v == u || elem v (keys classes))
unfolding put_class
elem-put_class [] u v c = ground arith
elem-put_class ((k, old) ∷ classes) u v c = ground (arith, elem-put_class classes u v c)

pub put_class-IsDistinct :
    (classes : Classes) (u : ℕ) (c : ClassNode)
    → IsDistinct (keys classes)
    → IsDistinct (keys (put_class classes u c))
unfolding put_class
put_class-IsDistinct [] u c h = (refl, tt)
put_class-IsDistinct ((k, old) ∷ classes) u c h = elim (Bool-cases (k == u)) [
  | inl same ↦ rw (same, keys) h
  | inr other ↦
      rw (other, keys)
        ((elem-put_class classes u k c ∙ ground (arith, h.0), put_class-IsDistinct classes u c h.1))
]
